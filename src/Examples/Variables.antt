-- ===== src/Examples/Variables.antt =====
-- The environment of a child of `run` with one kube target, and a quoted value.
use mathlib.Core.Path.{subst}
use tunstrap.Common.{String, ◌≡◌, refl, ◌⊎◌, true, false, none, some, [], ◌∷◌, ◌++◌, ok}
use tunstrap.Common.Dict.{Dict, lookup, insert, erase}
use tunstrap.Common.Decimal.{decimal}
use tunstrap.Environment.{
  is_run_env_key, Exported, session_scalars, materialized, kube_channel, render_kube_env, update,
  pop_all, inject, build_child_env, validate_output_var,
}
use tunstrap.Environment.Promises.{one_kube_path}
use tunstrap.Exports.{Text, shell_single_quote}
use tunstrap.Exports.Quoting.{plain, shell_word, shell_word-shell_single_quote}

abbrev exported : Exported
exported = record {
  session_dir = "/tmp/s";
  pid = 42;
  output_file = "/tmp/s/tunnel-data/output.json";
  kube_paths = some "/tmp/s/tunnel-data/kube-edge-k8s" ∷ [];
  projection = "{}";
}

-- The parent's environment has the input with the key, and a kubeconfig of its own.
abbrev parent : Dict String
parent =
    ("TUNSTRAP_INPUT", "{...}")
    ∷ ("KUBE_CONFIG_PATHS", "/root/.kube/config")
    ∷ ("HOME", "/root")
    ∷ []

abbrev child : Dict String
child =
    ("HOME", "/root")
    ∷ ("TUNSTRAP_SESSION_DIR", "/tmp/s")
    ∷ ("TUNSTRAP_PID", "42")
    ∷ ("TUNSTRAP_OUTPUT_FILE", "/tmp/s/tunnel-data/output.json")
    ∷ ("KUBE_CONFIG_PATH", "/tmp/s/tunnel-data/kube-edge-k8s")
    ∷ ("TF_VAR_tunstrap", "{}")
    ∷ []

child_of_proxy :
    build_child_env exported (some "TF_VAR_tunstrap") (some "TUNSTRAP_INPUT") true parent ≡ ok child
unfolding build_child_env render_kube_env materialized kube_channel inject update pop_all
    session_scalars insert erase decimal
child_of_proxy = refl

proxy_name : validate_output_var true "TF_VAR_tunstrap" (some "TUNSTRAP_INPUT") ≡ ok tt
unfolding validate_output_var is_run_env_key
proxy_name = refl

input_is_free : is_run_env_key "TUNSTRAP_INPUT" ≡ false
unfolding is_run_env_key
input_is_free = refl

proxy_name_given :
    (name : String)
    → some "TF_VAR_tunstrap" ≡ some name
    → validate_output_var true name (some "TUNSTRAP_INPUT") ≡ ok tt
proxy_name_given name given =
    let same : "TF_VAR_tunstrap" ≡ name = cc in
    subst (λ n. validate_output_var true n (some "TUNSTRAP_INPUT") ≡ ok tt) same proxy_name

one_kube_path_example :
    (lookup "KUBE_CONFIG_PATH" child ≡ none) ⊎ (lookup "KUBE_CONFIG_PATHS" child ≡ none)
one_kube_path_example =
    one_kube_path exported (some "TF_VAR_tunstrap") (some "TUNSTRAP_INPUT") true true parent child
      proxy_name_given child_of_proxy

-- `it's`
abbrev quoted_value : Text
quoted_value = 105 ∷ 116 ∷ 39 ∷ 115 ∷ []

shell_word-shell_single_quote_example :
    shell_word plain (39 ∷ (shell_single_quote quoted_value ++ 39 ∷ [])) ≡ some quoted_value
shell_word-shell_single_quote_example = shell_word-shell_single_quote quoted_value
