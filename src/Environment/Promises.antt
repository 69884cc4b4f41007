-- ===== src/Environment/Promises.antt =====
-- What the child of `run` can rely on in its environment, and what it cannot see.
use tunstrap.Common.{
  String, ◌≡◌, refl, sym, ap, ◌∙◌, ◌⊎◌, inl, inr, Bool-cases, Bool, true, false, Option, none, some,
  List, [], ◌∷◌, ok, >>=-eq-ok, arith, contains, ◌=t=◌, eq_iff,
}
use tunstrap.Common.Dict.{Dict, lookup}
use tunstrap.Environment.{
  kube_env_names, scalar_names, is_run_env_key, Exported, session_scalars, materialized,
  kube_channel, render_kube_env, build_child_env, is_name, validate_output_var,
}
use tunstrap.Environment.Child.{assigned, visible, lookup-inject, build_child_env-inject}

-- The value of every variable of the child: the projection under the name that was asked for; but
-- no `KUBECONFIG` when that is suppressed; else the kube channel, else the session's scalars, else
-- what was inherited, unless that is one of the three kube variables or holds the input.
pub build_child_env-visible :
    (o : Exported) (output_var input_env : Option String) (suppress_kubeconfig : Bool)
    (inherited env : Dict String)
    → build_child_env o output_var input_env suppress_kubeconfig inherited ≡ ok env
    → (channel : Dict String) × (render_kube_env o ≡ ok channel)
      × ((name : String)
          → lookup name env
            ≡ visible o channel output_var input_env suppress_kubeconfig inherited name)
build_child_env-visible o output_var input_env suppress inherited env h =
    let (channel, rendered, same) =
      build_child_env-inject o output_var input_env suppress inherited env h in
    (
      channel,
      rendered,
      λ name.
          ap (lookup name) (sym same)
          ∙ lookup-inject o output_var input_env suppress inherited channel name,
    )

pub assigned-kube_channel :
    (name : String) (paths : List String)
    → contains kube_env_names name ≡ false
    → assigned name (kube_channel paths) ≡ none
unfolding kube_channel
assigned-kube_channel name [] h = refl
assigned-kube_channel name (p ∷ []) h = ground arith
assigned-kube_channel name (p ∷ q ∷ ps) h = ground arith

pub assigned-session_scalars :
    (name : String) (o : Exported)
    → contains scalar_names name ≡ false
    → assigned name (session_scalars o) ≡ none
unfolding session_scalars
assigned-session_scalars name o h = ground arith

pub render_kube_env-paths :
    (o : Exported) (channel : Dict String)
    → render_kube_env o ≡ ok channel
    → (paths : List String) × (channel ≡ kube_channel paths)
unfolding render_kube_env
render_kube_env-paths o channel h =
    let (paths, _, same) = >>=-eq-ok (materialized o.kube_paths) _ h in (paths, ground arith)

pub run_env_key_parts :
    (name : String)
    → is_run_env_key name ≡ false
    → (contains scalar_names name ≡ false) × (contains kube_env_names name ≡ false)
unfolding is_run_env_key
run_env_key_parts name h = (ground arith, ground arith)

accepted_name :
    (matches : Bool) (name : String) (input_env : Option String)
    → validate_output_var matches name input_env ≡ ok tt
    → (is_run_env_key name ≡ false) × (is_name name input_env ≡ false)
unfolding validate_output_var
accepted_name matches name input_env h = (ground arith, ground arith)

-- The child never sees the variable that holds the input, and with it the SSH key, under any name
-- that `run` does not set itself, as long as the name for the output was accepted.
pub input_is_hidden :
    (o : Exported) (output_var input : String) (matches suppress_kubeconfig : Bool)
    (inherited env : Dict String)
    → is_run_env_key input ≡ false
    → validate_output_var matches output_var (some input) ≡ ok tt
    → build_child_env o (some output_var) (some input) suppress_kubeconfig inherited ≡ ok env
    → lookup input env ≡ none
input_is_hidden o output_var input matches suppress inherited env own accepted h =
    let (channel, rendered, values) =
      build_child_env-visible o (some output_var) (some input) suppress inherited env h in
    let (paths, same) = render_kube_env-paths o channel rendered in
    let (scalar, kube) = run_env_key_parts input own in
    let (_, apart) = accepted_name matches output_var (some input) accepted in
    let no_channel : assigned input channel ≡ none =
      ap (assigned input) same ∙ assigned-kube_channel input paths kube in
    let no_scalar = assigned-session_scalars input o scalar in
    values input
    ∙ ground (arith, eq_iff input output_var, eq_iff output_var input, eq_iff input input)

-- The value of one of the two variables is the one that the kube channel sets.
kube_path_value :
    (o : Exported) (output_var input_env : Option String) (suppress_kubeconfig : Bool)
    (inherited : Dict String) (channel : Dict String) (name : String)
    → is_name name output_var ≡ false
    → ("KUBECONFIG" =t= name) ≡ false
    → contains kube_env_names name ≡ true
    → contains scalar_names name ≡ false
    → visible o channel output_var input_env suppress_kubeconfig inherited name
      ≡ assigned name channel
kube_path_value o output_var input_env suppress inherited channel name p q r s =
    let no_scalar = assigned-session_scalars name o s in ground arith

one_assigned :
    (paths : List String)
    → (assigned "KUBE_CONFIG_PATH" (kube_channel paths) ≡ none)
      ⊎ (assigned "KUBE_CONFIG_PATHS" (kube_channel paths) ≡ none)
unfolding kube_channel
one_assigned [] = inl refl
one_assigned (p ∷ []) = inr refl
one_assigned (p ∷ q ∷ ps) = inl refl

not_reserved :
    (name reserved : String)
    → contains kube_env_names name ≡ false
    → contains kube_env_names reserved ≡ true
    → (name =t= reserved) ≡ false
not_reserved name reserved h k = elim (Bool-cases (name =t= reserved)) [
  | inl e ↦ let same = (eq_iff name reserved).0 e in cc
  | inr e ↦ e
]

-- An output goes to no variable, or to one that is none of the kube variables.
accepted_apart :
    (output_var input_env : Option String) (matches : Bool) (reserved : String)
    → ((name : String)
        → output_var ≡ some name
        → validate_output_var matches name input_env ≡ ok tt)
    → contains kube_env_names reserved ≡ true
    → is_name reserved output_var ≡ false
accepted_apart none input_env matches reserved accepted k = refl
accepted_apart (some output_var) input_env matches reserved accepted k =
    let (own, _) = accepted_name matches output_var input_env (accepted output_var refl) in
    let (_, kube) = run_env_key_parts output_var own in not_reserved output_var reserved kube k

-- The child never has both `KUBE_CONFIG_PATH` and `KUBE_CONFIG_PATHS`, of which the first would hide
-- the second, whatever was inherited, with or without a variable for the output, as long as the name
-- of that variable, if there is one, was accepted.
pub one_kube_path :
    (o : Exported) (output_var input_env : Option String) (matches suppress_kubeconfig : Bool)
    (inherited env : Dict String)
    → ((name : String)
        → output_var ≡ some name
        → validate_output_var matches name input_env ≡ ok tt)
    → build_child_env o output_var input_env suppress_kubeconfig inherited ≡ ok env
    → (lookup "KUBE_CONFIG_PATH" env ≡ none) ⊎ (lookup "KUBE_CONFIG_PATHS" env ≡ none)
one_kube_path o output_var input_env matches suppress inherited env accepted h =
    let (channel, rendered, values) =
      build_child_env-visible o output_var input_env suppress inherited env h in
    let (paths, same) = render_kube_env-paths o channel rendered in
    let apart = accepted_apart output_var input_env matches in
    let value = kube_path_value o output_var input_env suppress inherited channel in
    elim (one_assigned paths) [
      | inl no_path ↦ inl (
          values "KUBE_CONFIG_PATH"
          ∙ (value "KUBE_CONFIG_PATH" (apart "KUBE_CONFIG_PATH" accepted refl) refl refl refl
              ∙ (ap (assigned "KUBE_CONFIG_PATH") same ∙ no_path)))
      | inr no_paths ↦ inr (
          values "KUBE_CONFIG_PATHS"
          ∙ (value "KUBE_CONFIG_PATHS" (apart "KUBE_CONFIG_PATHS" accepted refl) refl refl refl
              ∙ (ap (assigned "KUBE_CONFIG_PATHS") same ∙ no_paths)))
    ]
