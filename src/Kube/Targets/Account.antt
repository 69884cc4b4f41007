-- ===== src/Kube/Targets/Account.antt =====
-- The loop over the targets of a node: every target is accounted for, and no listener is left open
-- for one that has no output.
use tunstrap.Common.{
  String, ◌≡◌, refl, Bool, true, false, ◌||◌, ◌&&◌, not, All, Option, none, some, List, [], ◌∷◌,
  ◌++◌, ok, arith, >>=-eq-ok, contains, ◌=t=◌, eq_iff, same_text,
}
use tunstrap.Common.Dict.{Dict, lookup, lookup-insert}
use tunstrap.Kube.Remote.{Libraries, KubeTarget, Answers}
use tunstrap.Kube.Targets.Listeners.{IsTidy, listening_as_before, run_target-IsTidy}
use tunstrap.Kube.Targets.{
  Round, failed, done, Progress, no_progress, add_round, run_target, run_from, run_kube_targets,
}

abbrev pub is_some {ℓ} : {A : Type ℓ} → Option A → Bool
is_some none = false
is_some (some a) = true

-- A target's listener is open exactly if the target has an output.
abbrev pub OpenAsDelivered : Progress → Type 0
OpenAsDelivered p = (name : String) → contains p.listening name ≡ is_some (lookup name p.outputs)

add_round-OpenAsDelivered :
    (node name : String) (t : KubeTarget) (r : Round) (p : Progress)
    → IsTidy r
    → OpenAsDelivered p
    → OpenAsDelivered (add_round node name t r p)
unfolding add_round
add_round-OpenAsDelivered node name t (failed acts reasons) p tidy h other =
    rw (listening_as_before name acts p.listening tidy) (h other)
add_round-OpenAsDelivered node name t (done acts o reasons) p tidy h other =
    rw (tidy, lookup-insert) (ground (arith, h other, eq_iff name other))

contains-append :
    (xs : List String) (y z : String) → contains (xs ++ y ∷ []) z ≡ (contains xs z || y =t= z)
contains-append [] y z = ground arith
contains-append (x ∷ xs) y z = ground (arith, contains-append xs y z)

-- A target has an output, or it is a required failure, or it was not required.
abbrev pub accounted : Progress → String → Bool → Bool
accounted p name required =
    is_some (lookup name p.outputs) || contains p.required_failures name || not required

-- A round accounts for its own target,
add_round-own :
    (node name : String) (t : KubeTarget) (r : Round) (p : Progress)
    → accounted (add_round node name t r p) name t.required ≡ true
unfolding add_round
add_round-own node name t (failed acts reasons) p =
    ground (arith, contains-append p.required_failures name name, same_text name)
add_round-own node name t (done acts o reasons) p = rw (lookup-insert, same_text) refl

-- and for no target less than before.
add_round-accounted :
    (node name other : String) (required : Bool) (t : KubeTarget) (r : Round) (p : Progress)
    → accounted p other required ≡ true
    → accounted (add_round node name t r p) other required ≡ true
unfolding add_round
add_round-accounted node name other required t (failed acts reasons) p h =
    ground (arith, contains-append p.required_failures name other)
add_round-accounted node name other required t (done acts o reasons) p h =
    rw lookup-insert (ground arith)

abbrev pub requires : Dict KubeTarget → String → Bool
requires [] name = false
requires ((n, t) ∷ ts) name = t.required && n =t= name || requires ts name

-- The failures behind a point of the loop: those before it, and required targets from there on.
abbrev FailuresFrom : Dict KubeTarget → Progress → Progress → Type 0
FailuresFrom ts p q =
    (name : String)
    → contains q.required_failures name ≡ true
    → (contains p.required_failures name || requires ts name) ≡ true

add_round-failures :
    (node name other : String) (t : KubeTarget) (r : Round) (p : Progress)
    → contains (add_round node name t r p).required_failures other ≡ true
    → (contains p.required_failures other || t.required && name =t= other) ≡ true
unfolding add_round
add_round-failures node name other t (failed acts reasons) p h =
    ground (arith, contains-append p.required_failures name other)
add_round-failures node name other t (done acts o reasons) p h = ground arith

module _ (lib : Libraries) (node : String) (answers : String → Answers) where
  run_from-OpenAsDelivered :
      (ts : Dict KubeTarget) (p q : Progress)
      → run_from lib node answers ts p ≡ ok q
      → OpenAsDelivered p
      → OpenAsDelivered q
  unfolding run_from
  run_from-OpenAsDelivered [] p q h open_p = λ n. ground (arith, open_p n)
  run_from-OpenAsDelivered ((name, t) ∷ ts) p q h open_p =
      let (r, ran, h1) = >>=-eq-ok (run_target lib node name t (answers name)) _ h in
      run_from-OpenAsDelivered ts (add_round node name t r p) q h1 (
        add_round-OpenAsDelivered node name t r p
          (run_target-IsTidy lib node name t (answers name) r ran) open_p)

  run_from-accounted :
      (ts : Dict KubeTarget) (p q : Progress) (other : String) (required : Bool)
      → run_from lib node answers ts p ≡ ok q
      → accounted p other required ≡ true
      → accounted q other required ≡ true
  unfolding run_from
  run_from-accounted [] p q other required h acc = ground arith
  run_from-accounted ((name, t) ∷ ts) p q other required h acc =
      let (r, _, h1) = >>=-eq-ok (run_target lib node name t (answers name)) _ h in
      run_from-accounted ts (add_round node name t r p) q other required h1
        (add_round-accounted node name other required t r p acc)

  run_from-All :
      (ts : Dict KubeTarget) (p q : Progress)
      → run_from lib node answers ts p ≡ ok q
      → All (λ (name, t). accounted q name t.required ≡ true) ts
  unfolding run_from
  run_from-All [] p q h = tt
  run_from-All ((name, t) ∷ ts) p q h =
      let (r, _, h1) = >>=-eq-ok (run_target lib node name t (answers name)) _ h in
      let p' = add_round node name t r p in
      (
        run_from-accounted ts p' q name t.required h1 (add_round-own node name t r p),
        run_from-All ts p' q h1,
      )

  run_from-failures :
      (ts : Dict KubeTarget) (p q : Progress)
      → run_from lib node answers ts p ≡ ok q
      → FailuresFrom ts p q
  unfolding run_from
  run_from-failures [] p q h name f = ground arith
  run_from-failures ((n, t) ∷ ts) p q h name f =
      let (r, _, h1) = >>=-eq-ok (run_target lib node n t (answers n)) _ h in
      ground (
        arith,
        run_from-failures ts (add_round node n t r p) q h1 name f,
        add_round-failures node n name t r p,
      )

-- When the loop over a node's targets ends without a crash, exactly the targets with an output have
-- an open listener, every target has an output or is a required failure or was not required, and a
-- required failure is the name of a required target of the node.
pub run_kube_targets_accounts :
    (lib : Libraries) (node : String) (answers : String → Answers) (ts : Dict KubeTarget)
    (q : Progress)
    → run_kube_targets lib node answers ts ≡ ok q
    → OpenAsDelivered q
      × All (λ (name, t). accounted q name t.required ≡ true) ts
      × ((name : String) → contains q.required_failures name ≡ true → requires ts name ≡ true)
unfolding run_kube_targets lookup
run_kube_targets_accounts lib node answers ts q h = (
  run_from-OpenAsDelivered lib node answers ts no_progress q h (λ name. refl),
  run_from-All lib node answers ts no_progress q h,
  λ name f. run_from-failures lib node answers ts no_progress q h name f,
)
