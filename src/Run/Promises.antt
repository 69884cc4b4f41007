-- ===== src/Run/Promises.antt =====
-- What every act of a run keeps to: what it removes, and what its child sees.
use tunstrap.Common.{
  ℕ, String, ◌≡◌, ◌≢◌, refl, sym, ap, ◌∙◌, Bool, true, false, ◌&&◌, Option, none, some, [], pos,
  Result, ok, err, arith, All, eq_iff,
}
use tunstrap.Common.Dict.{Dict, lookup}
use tunstrap.Errors.{Raised}
use tunstrap.Environment.{EnvError, Exported, is_run_env_key, build_child_env, validate_output_var}
use tunstrap.Environment.Promises.{
  build_child_env-visible, input_is_hidden, run_env_key_parts, render_kube_env-paths,
  assigned-kube_channel, assigned-session_scalars,
}
use tunstrap.Environment.Child.{assigned}
use tunstrap.Lifecycle.Disposal.{MayDelete, teardown_run-MayDelete}
use tunstrap.Run.Arguments.{Flags, Prepared, check_output_var, as_usage}
use tunstrap.Run.Child.{
  Event, made_root, spawned, child_started, torn_down, discarded, reported, Launch, os_error,
  raises, started, launch_child, with_env, with_output, run_child, under_handlers, tear_down,
}
use tunstrap.Run.Command.{World, is_minted}

accepted_output_var : (r : Result EnvError (Unit {0})) → as_usage r ≡ ok tt → r ≡ ok tt
accepted_output_var (ok tt) h = refl
accepted_output_var (err e) h = cc

-- The child of a run does not see the variable that holds its input.
child_env_hides :
    (matches : String → Bool) (o : Exported) (output_var : Option String) (input : String)
    (suppress : Bool) (inherited env : Dict String)
    → is_run_env_key input ≡ false
    → check_output_var matches output_var (some input) ≡ ok tt
    → build_child_env o output_var (some input) suppress inherited ≡ ok env
    → lookup input env ≡ none
unfolding check_output_var
child_env_hides matches o (some name) input suppress inherited env own accepted h =
    input_is_hidden o name input (matches name) suppress inherited env own
      (accepted_output_var (validate_output_var (matches name) name (some input)) accepted) h
child_env_hides matches o none input suppress inherited env own accepted h =
    let (channel, rendered, values) =
      build_child_env-visible o none (some input) suppress inherited env h in
    let (paths, same) = render_kube_env-paths o channel rendered in
    let (scalar, kube) = run_env_key_parts input own in
    let no_channel : assigned input channel ≡ none =
      ap (assigned input) same ∙ assigned-kube_channel input paths kube in
    let no_scalar = assigned-session_scalars input o scalar in
    values input ∙ ground (arith, eq_iff input input)

-- What each act keeps to.
unfoldable pub Keeps : World → Flags → Event → Type 0
Keeps w f (made_root root) = (f.session_dir ≡ none) × (w.made ≡ ok root)
Keeps w f (discarded root) = (f.session_dir ≡ none) × (w.made ≡ ok root)
Keeps w f spawned = Unit
Keeps w f reported = Unit
Keeps w f (child_started cmd env) =
    (cmd ≢ [])
    × ((input : String)
        → f.input_env ≡ some input
        → is_run_env_key input ≡ false
        → lookup input env ≡ none)
Keeps w f (torn_down t) =
    (t.removes_data ≡ true → (grace : ℕ) × MayDelete w.ending.file (pos grace) w.ending.system)
    × (t.removes_root ≡ true → (t.removes_data ≡ true) × (f.session_dir ≡ none))

-- What the preparation gives for the part behind it.
abbrev pub IsPrepared : World → Flags → Prepared → Type 0
IsPrepared w f p = (p.cmd ≢ []) × (check_output_var w.matches f.output_var f.input_env ≡ ok tt)

abbrev pub IsMint : World → Flags → Option String → Type 0
IsMint w f none = Unit
IsMint w f (some root) = (f.session_dir ≡ none) × (w.made ≡ ok root)

removed_root :
    (w : World) (f : Flags) (root : Option String)
    → IsMint w f root
    → (removed : Bool) → (removed && is_minted root) ≡ true
    → (removed ≡ true) × (f.session_dir ≡ none)
removed_root w f none mint true h = cc
removed_root w f none mint false h = cc
removed_root w f (some root) (supplied, _) true h = (refl, supplied)
removed_root w f (some root) mint false h = cc

module _ (w : World) (f : Flags) (p : Prepared) (prepared : IsPrepared w f p) where
  child_started-Keeps :
      (o : Exported) (env : Dict String)
      → build_child_env o f.output_var f.input_env f.suppress_kubeconfig w.surroundings.inherited
        ≡ ok env
      → Keeps w f (child_started p.cmd env)
  unfolding Keeps
  child_started-Keeps o env h =
      let (command, accepted) = prepared in
      (
        command,
        λ input given own.
            child_env_hides w.matches o f.output_var input f.suppress_kubeconfig
              w.surroundings.inherited env own
              (ap (check_output_var w.matches f.output_var) (sym given) ∙ accepted)
              (ap
                  (λ v.
                    build_child_env o f.output_var v f.suppress_kubeconfig w.surroundings.inherited)
                  (sym given)
                ∙ h),
      )

  launch_child-Keeps :
      (o : Exported) (env : Dict String) (l : Launch)
      → build_child_env o f.output_var f.input_env f.suppress_kubeconfig w.surroundings.inherited
        ≡ ok env
      → All (Keeps w f) (launch_child p.cmd env l).events
  unfolding launch_child Keeps
  launch_child-Keeps o env os_error h = (tt, tt)
  launch_child-Keeps o env (raises e) h = tt
  launch_child-Keeps o env (started end) h = (child_started-Keeps o env h, tt)

  with_output-Keeps :
      (written : Option Raised) (out : Result Raised Exported)
      → All (Keeps w f) (with_output f p.cmd w.surroundings written out).events
  unfolding with_output with_env Keeps
  with_output-Keeps written (err e) = tt
  with_output-Keeps (some e) (ok out) = tt
  with_output-Keeps none (ok out) =
      go
        (build_child_env out f.output_var f.input_env f.suppress_kubeconfig
          w.surroundings.inherited)
        refl
    where
      go :
          (env : Result EnvError (Dict String))
          → build_child_env out f.output_var f.input_env f.suppress_kubeconfig
              w.surroundings.inherited
            ≡ env
          → All (Keeps w f) (with_env p.cmd w.surroundings.launch env).events
      go (err e) h = tt
      go (ok env) h = launch_child-Keeps out env w.surroundings.launch h

  pub under_handlers-Keeps :
      (saving : Option Raised)
      → All (Keeps w f) (under_handlers f p.cmd w.surroundings saving).events
  unfolding under_handlers run_child
  under_handlers-Keeps none = with_output-Keeps w.surroundings.written w.surroundings.validated
  under_handlers-Keeps (some e) = tt

  pub tear_down-Keeps :
      (root : Option String)
      → IsMint w f root
      → Keeps w f (tear_down w.ending p.grace (is_minted root))
  unfolding Keeps tear_down
  tear_down-Keeps root mint =
      let (only_if, with_root) =
        teardown_run-MayDelete w.ending.has_loss (is_minted root) w.ending.file (pos p.grace)
          w.ending.system w.ending.left in
      (λ h. (p.grace, only_if h), λ h. removed_root w f root mint _ (sym with_root ∙ h))
