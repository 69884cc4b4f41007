-- ===== src/Kube/Targets/Independence.antt =====
-- The targets of a node do not touch each other's outputs, and the exception that breaks this.
use tunstrap.Common.{
  String, ◌≡◌, ◌≢◌, refl, sym, ap, ◌∙◌, inl, inr, Bool-cases, Bool, true, false, ◌&&◌, not, All,
  Option, none, some, List, [], ◌∷◌, Result, ok, err, arith, >>=-eq-ok, contains, ◌=t=◌, eq_iff,
  same_text,
}
use tunstrap.Common.Dict.{Dict, keys, lookup, lookup-insert}
use tunstrap.Kube.Remote.{
  Libraries, KubeTarget, Answers, asyncssh_error, Crash, startup_error, fetch_one,
}
use tunstrap.Kube.Targets.{
  Output, Round, failed, done, Progress, no_progress, add_round, run_target, run_from,
  run_kube_targets,
}

-- The keys of a `dict`.
abbrev pub are_distinct : List String → Bool
are_distinct [] = true
are_distinct (name ∷ names) = not (contains names name) && are_distinct names

abbrev pub output_of : Result Crash Round → Option Output
output_of (err c) = none
output_of (ok (failed acts reasons)) = none
output_of (ok (done acts o reasons)) = some o

-- A round leaves the outputs of the other targets alone,
add_round-other :
    (node name other : String) (t : KubeTarget) (r : Round) (p : Progress)
    → (name =t= other) ≡ false
    → lookup other (add_round node name t r p).outputs ≡ lookup other p.outputs
unfolding add_round
add_round-other node name other t (failed acts reasons) p h = refl
add_round-other node name other t (done acts o reasons) p h = rw (lookup-insert, h) refl

-- and gives its own target the output that it ends with.
add_round-output :
    (node name : String) (t : KubeTarget) (r : Round) (p : Progress)
    → lookup name p.outputs ≡ none
    → lookup name (add_round node name t r p).outputs ≡ output_of (ok r)
unfolding add_round
add_round-output node name t (failed acts reasons) p h = h
add_round-output node name t (done acts o reasons) p h = rw (lookup-insert, same_text) refl

run_target-crash :
    (lib : Libraries) (node name : String) (t : KubeTarget) (a : Answers)
    → fetch_one a ≡ err asyncssh_error
    → run_target lib node name t a ≡ err startup_error
unfolding run_target
run_target-crash lib node name t a h = ground arith

module _ (lib : Libraries) (node : String) (answers : String → Answers) where
  -- A name that is no target of the rest of the loop keeps its output.
  run_from-other :
      (ts : Dict KubeTarget) (p q : Progress) (other : String)
      → run_from lib node answers ts p ≡ ok q
      → contains (keys ts) other ≡ false
      → lookup other q.outputs ≡ lookup other p.outputs
  unfolding run_from
  run_from-other [] p q other h n = ground arith
  run_from-other ((name, t) ∷ ts) p q other h n =
      let (r, _, h1) = >>=-eq-ok (run_target lib node name t (answers name)) _ h in
      ground (
        arith,
        run_from-other ts (add_round node name t r p) q other h1,
        add_round-other node name other t r p,
      )

  abbrev IsOwn : Progress → Dict KubeTarget → Type 0
  IsOwn q ts =
      All
        (λ (name, t). lookup name q.outputs ≡ output_of (run_target lib node name t (answers name)))
        ts

  abbrev AllNew : Progress → Dict KubeTarget → Type 0
  AllNew p ts = All (λ (name, t). lookup name p.outputs ≡ none) ts

  add_round-AllNew :
      (name : String) (t : KubeTarget) (r : Round) (p : Progress) (ts : Dict KubeTarget)
      → contains (keys ts) name ≡ false
      → AllNew p ts
      → AllNew (add_round node name t r p) ts
  add_round-AllNew name t r p [] n new = tt
  add_round-AllNew name t r p ((other, u) ∷ ts) n (absent, new) = (
    ground (arith, add_round-other node name other t r p, eq_iff name other, eq_iff other name),
    add_round-AllNew name t r p ts (ground arith) new,
  )

  run_from-IsOwn :
      (ts : Dict KubeTarget) (p q : Progress)
      → run_from lib node answers ts p ≡ ok q
      → are_distinct (keys ts) ≡ true
      → AllNew p ts
      → IsOwn q ts
  unfolding run_from
  run_from-IsOwn [] p q h d new = tt
  run_from-IsOwn ((name, t) ∷ ts) p q h d (absent, new) =
      let (r, ran, h1) = >>=-eq-ok (run_target lib node name t (answers name)) _ h in
      let p' = add_round node name t r p in
      let alone : contains (keys ts) name ≡ false = ground arith in
      (
        run_from-other ts p' q name h1 alone
            ∙ (add_round-output node name t r p absent ∙ ap output_of (sym ran)),
        run_from-IsOwn ts p' q h1 (ground arith) (add_round-AllNew name t r p ts alone new),
      )

  nothing_yet : (ts : Dict KubeTarget) → AllNew no_progress ts
  unfolding lookup
  nothing_yet [] = tt
  nothing_yet ((name, t) ∷ ts) = (refl, nothing_yet ts)

-- When the loop over a node's targets ends without a crash, the output recorded for each target is
-- the one that its own round gives by itself, whatever happened to the others.
pub run_kube_targets_independent :
    (lib : Libraries) (node : String) (answers : String → Answers) (ts : Dict KubeTarget)
    (q : Progress)
    → run_kube_targets lib node answers ts ≡ ok q
    → are_distinct (keys ts) ≡ true
    → All
        (λ (name, t). lookup name q.outputs ≡ output_of (run_target lib node name t (answers name)))
        ts
unfolding run_kube_targets
run_kube_targets_independent lib node answers ts q h d =
    run_from-IsOwn lib node answers ts no_progress q h d (nothing_yet lib node answers ts)

-- A target whose fetch raises `asyncssh.Error`, required or not, keeps the loop from returning: no
-- target of the node gets an output.
pub asyncssh_error_ends_loop :
    (lib : Libraries) (node : String) (answers : String → Answers) (ts : Dict KubeTarget)
    (name : String) (q : Progress)
    → contains (keys ts) name ≡ true
    → fetch_one (answers name) ≡ err asyncssh_error
    → run_kube_targets lib node answers ts ≢ ok q
unfolding run_kube_targets
asyncssh_error_ends_loop lib node answers ts name q c f = go ts no_progress c
  where
    go :
        (us : Dict KubeTarget) (p : Progress)
        → contains (keys us) name ≡ true
        → run_from lib node answers us p ≢ ok q
    go [] p c = λ h. cc
    go ((n, t) ∷ us) p c = λ h.
        let (r, ran, h1) = >>=-eq-ok (run_target lib node n t (answers n)) _ h in
        elim (Bool-cases (n =t= name)) [
          | inl same ↦
              let crash = run_target-crash lib node name t (answers name) f in
              let same_name = (eq_iff n name).0 same in cc
          | inr other ↦ go us (add_round node n t r p) (ground arith) h1
        ]
