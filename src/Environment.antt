-- ===== src/Environment.antt =====
-- The environment that `run` gives its child: `_build_child_env` and `_validate_output_var` of
-- tunstrap/cli.py, and the kube channel of tunstrap/envrender.py. An environment is a dict; the
-- projection of the output to JSON and the test of a name against `_ENV_NAME_RE` are parameters.
pub mod Child
pub mod Promises
use tunstrap.Common.{
  ℕ, String, ◌<>◌, Bool, true, false, not, ◌||◌, Option, none, some, List, [], ◌∷◌, Result, ok, err,
  ◌>>=◌, ◌>>◌, refuse_if, contains, if◌then◌else◌, ◌=t=◌,
}
use tunstrap.Common.Dict.{Dict, insert, erase}
use tunstrap.Common.Decimal.{decimal}

abbrev pub kube_env_names : List String
kube_env_names = "KUBECONFIG" ∷ "KUBE_CONFIG_PATH" ∷ "KUBE_CONFIG_PATHS" ∷ []

abbrev pub scalar_names : List String
scalar_names = "TUNSTRAP_SESSION_DIR" ∷ "TUNSTRAP_PID" ∷ "TUNSTRAP_OUTPUT_FILE" ∷ []

-- `name in RUN_ENV_KEYS`
unfoldable pub is_run_env_key : String → Bool
is_run_env_key name = contains scalar_names name || contains kube_env_names name

-- What is read of the `OutputSchema`: the session's directory and pid, where its output was
-- written, the path of every kube target over all nodes (`none` for one that was not written), and
-- the JSON for `--output-var`.
pub record Exported : Type 0 where
  pub session_dir : String
  pub pid : ℕ
  pub output_file : String
  pub kube_paths : List (Option String)
  pub projection : String

-- `_session_scalars`
unfoldable pub session_scalars : Exported → Dict String
session_scalars o =
    ("TUNSTRAP_SESSION_DIR", o.session_dir)
    ∷ ("TUNSTRAP_PID", decimal o.pid)
    ∷ ("TUNSTRAP_OUTPUT_FILE", o.output_file)
    ∷ []

pub data EnvError : Type 0 where
  not_materialized bad_name collides_with_run collides_with_input : EnvError

-- `kube_paths` of `render_kube_env`
unfoldable pub materialized : List (Option String) → Result EnvError (List String)
materialized [] = ok []
materialized (none ∷ ps) = err not_materialized
materialized (some p ∷ ps) = do rest ← materialized ps; ok (p ∷ rest)

-- `":".join(paths)`
unfoldable pub joined : List String → String
joined [] = ""
joined (p ∷ []) = p
joined (p ∷ q ∷ ps) = p <> (":" <> joined (q ∷ ps))

-- `_kube_channel_keys` of the number of paths, each with the joined paths.
unfoldable pub kube_channel : List String → Dict String
unfolding joined
kube_channel [] = []
kube_channel (p ∷ []) = ("KUBECONFIG", p) ∷ ("KUBE_CONFIG_PATH", p) ∷ []
kube_channel (p ∷ q ∷ ps) =
    let all = joined (p ∷ q ∷ ps) in ("KUBECONFIG", all) ∷ ("KUBE_CONFIG_PATHS", all) ∷ []

unfoldable pub render_kube_env : Exported → Result EnvError (Dict String)
unfolding materialized kube_channel
render_kube_env o = do paths ← materialized o.kube_paths; ok (kube_channel paths)

-- `env.update(more)`
unfoldable pub update : Dict String → Dict String → Dict String
update [] env = env
update ((k, v) ∷ more) env = update more (insert k v env)

-- `for key in names: env.pop(key, None)`
unfoldable pub pop_all : List String → Dict String → Dict String
pop_all [] env = env
pop_all (name ∷ names) env = pop_all names (erase name env)

abbrev pub pop_option : Option String → Dict String → Dict String
pop_option none env = env
pop_option (some name) env = erase name env

abbrev pub set_option : Option String → String → Dict String → Dict String
set_option none value env = env
set_option (some name) value env = insert name value env

-- The assignments of `_build_child_env`, with the kube channel that was rendered.
unfoldable pub inject :
    Exported → Dict String → Option String → Option String → Bool → Dict String → Dict String
unfolding update pop_all session_scalars
inject o channel output_var input_env suppress_kubeconfig inherited =
    let env1 = pop_all kube_env_names (pop_option input_env inherited) in
    let env2 = update channel (update (session_scalars o) env1) in
    let env3 = if suppress_kubeconfig then erase "KUBECONFIG" env2 else env2 in
    set_option output_var o.projection env3

-- `_build_child_env` from the inherited environment
unfoldable pub build_child_env :
    Exported → Option String → Option String → Bool → Dict String → Result EnvError (Dict String)
unfolding render_kube_env inject
build_child_env o output_var input_env suppress_kubeconfig inherited = do
  channel ← render_kube_env o
  ok (inject o channel output_var input_env suppress_kubeconfig inherited)

abbrev pub is_name : String → Option String → Bool
is_name name none = false
is_name name (some other) = other =t= name

-- `_validate_output_var`, with the test `_ENV_NAME_RE.match(name)`
unfoldable pub validate_output_var : Bool → String → Option String → Result EnvError (Unit {0})
unfolding is_run_env_key
validate_output_var matches name input_env = do
  refuse_if (not matches) bad_name
  refuse_if (is_run_env_key name) collides_with_run
  refuse_if (is_name name input_env) collides_with_input
