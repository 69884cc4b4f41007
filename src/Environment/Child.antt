-- ===== src/Environment/Child.antt =====
-- What each variable of the child's environment is.
use tunstrap.Common.{
  String, ◌≡◌, refl, ap, ◌∙◌, Bool, true, false, ◌||◌, ◌&&◌, Option, none, some, List, [], ◌∷◌, ok,
  >>=-eq-ok, arith, contains, ◌=t=◌, if◌then◌else◌,
}
use tunstrap.Common.Dict.{Dict, lookup, insert, erase, lookup-insert, lookup-erase}
use tunstrap.Environment.{
  kube_env_names, Exported, session_scalars, render_kube_env, update, pop_all, pop_option,
  set_option, inject, build_child_env, is_name,
}

abbrev pub or_else : Option String → Option String → Option String
or_else none y = y
or_else (some x) y = some x

-- The last value of a key among some assignments.
abbrev pub assigned : String → Dict String → Option String
assigned name [] = none
assigned name ((k, v) ∷ more) = or_else (assigned name more) (if k =t= name then some v else none)

or_else-if :
    (r : Option String) (b : Bool) (v : String) (y : Option String)
    → or_else r (if b then some v else y) ≡ or_else (or_else r (if b then some v else none)) y
or_else-if none true v y = refl
or_else-if none false v y = refl
or_else-if (some x) b v y = refl

lookup-update :
    (name : String) (more env : Dict String)
    → lookup name (update more env) ≡ or_else (assigned name more) (lookup name env)
unfolding update
lookup-update name [] env = refl
lookup-update name ((k, v) ∷ more) env =
    lookup-update name more (insert k v env)
    ∙ rw lookup-insert (or_else-if (assigned name more) (k =t= name) v (lookup name env))

lookup-pop_all :
    (name : String) (names : List String) (env : Dict String)
    → lookup name (pop_all names env) ≡ (if contains names name then none else lookup name env)
unfolding pop_all
lookup-pop_all name [] env = refl
lookup-pop_all name (n ∷ names) env =
    ground (arith, lookup-pop_all name names (erase n env), lookup-erase n name env)

lookup-pop_option :
    (name : String) (key : Option String) (env : Dict String)
    → lookup name (pop_option key env) ≡ (if is_name name key then none else lookup name env)
lookup-pop_option name none env = refl
lookup-pop_option name (some k) env = lookup-erase k name env

lookup-set_option :
    (name value : String) (key : Option String) (env : Dict String)
    → lookup name (set_option key value env)
      ≡ (if is_name name key then some value else lookup name env)
lookup-set_option name value none env = refl
lookup-set_option name value (some k) env = lookup-insert k name value env

-- Which assignment wins.
abbrev pub visible :
    Exported
    → Dict String
    → Option String
    → Option String
    → Bool
    → Dict String
    → String
    → Option String
visible o channel output_var input_env suppress_kubeconfig inherited name =
    if is_name name output_var
    then some o.projection
    else if suppress_kubeconfig && "KUBECONFIG" =t= name
    then none
    else or_else (assigned name channel) (
        or_else (assigned name (session_scalars o)) (
          if contains kube_env_names name || is_name name input_env
          then none
          else lookup name inherited))

module _ (o : Exported) (output_var input_env : Option String) (suppress_kubeconfig : Bool)
    (inherited : Dict String) where
  pub lookup-inject :
      (channel : Dict String) (name : String)
      → lookup name (inject o channel output_var input_env suppress_kubeconfig inherited)
        ≡ visible o channel output_var input_env suppress_kubeconfig inherited name
  unfolding inject
  lookup-inject channel name =
      let env1 = pop_all kube_env_names (pop_option input_env inherited) in
      let env2 = update channel (update (session_scalars o) env1) in
      let base : lookup name env1 ≡ (
          if contains kube_env_names name || is_name name input_env
          then none
          else lookup name inherited) =
        lookup-pop_all name kube_env_names (pop_option input_env inherited)
        ∙ ground (arith, lookup-pop_option name input_env inherited) in
      let full : lookup name env2
          ≡ or_else (assigned name channel) (
              or_else (assigned name (session_scalars o)) (
                if contains kube_env_names name || is_name name input_env
                then none
                else lookup name inherited)) =
        lookup-update name channel (update (session_scalars o) env1)
        ∙ ap (or_else (assigned name channel)) (
            lookup-update name (session_scalars o) env1
            ∙ ap (or_else (assigned name (session_scalars o))) base) in
      lookup-set_option name o.projection output_var _ ∙ hidden suppress_kubeconfig env2 full
    where
      hidden :
          (suppress : Bool) (env : Dict String) {r : Option String}
          → lookup name env ≡ r
          → (if is_name name output_var
              then some o.projection
              else lookup name (if suppress then erase "KUBECONFIG" env else env))
            ≡ (if is_name name output_var
                then some o.projection
                else if suppress && "KUBECONFIG" =t= name
                then none
                else r)
      hidden true env e = rw (lookup-erase, e) refl
      hidden false env e = rw e refl

  pub build_child_env-inject :
      (env : Dict String)
      → build_child_env o output_var input_env suppress_kubeconfig inherited ≡ ok env
      → (channel : Dict String) × (render_kube_env o ≡ ok channel)
        × (inject o channel output_var input_env suppress_kubeconfig inherited ≡ env)
  unfolding build_child_env
  build_child_env-inject env h =
      let (channel, rendered, made) = >>=-eq-ok (render_kube_env o) _ h in
      (channel, rendered, ground arith)
