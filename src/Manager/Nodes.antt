-- ===== src/Manager/Nodes.antt =====
-- How the start of one node ends: with a live transport, with none at all, or in an exception.
use mathlib.Core.Path.{subst}
use tunstrap.Common.{
  ℕ, String, ◌≡◌, refl, sym, ◌⊎◌, inl, inr, Bool, true, false, not, Option, none, some, List, [],
  ◌∷◌, Result, ok, err, arith, if◌then◌else◌,
}
use tunstrap.Common.Dict.{Dict}
use tunstrap.Fetcher.{FetchedFile}
use tunstrap.Kube.Targets.{Output, Warning}
use tunstrap.Manager.Start.{
  written, after_writing, NodeInput, Conn, Listener, Start, Runtime, new_runtime, Started, give_up,
  finish_targets, start_targets, finish_files, start_files, start_forwards, start_connected,
  start_one,
}

-- The writes of materialised files that are due have raised nothing.
abbrev pub FilesDone : NodeInput → Start → Type 0
FilesDone node s = node.has_files ≡ true → written node s.write_files ≡ none

abbrev pub TargetsDone : NodeInput → Start → Type 0
TargetsDone node s = node.has_targets ≡ true → written node s.write_targets ≡ none

-- A node is up with its connection and its listeners, nothing of which was closed;
abbrev pub IsUp : Conn → List Listener → NodeInput → Start → Started → Type 0
IsUp c ls node s started =
    (started.runtime.success ≡ true)
    × (started.runtime.conn ≡ some c)
    × (started.runtime.listeners ≡ ls)
    × (started.runtime.error ≡ none)
    × (started.closings ≡ [])
    × (started.escaped ≡ none)
    × FilesDone node s
    × TargetsDone node s

-- or it has let go of a transport that it has closed, and says why.
abbrev pub IsDown : Conn → List Listener → Started → Type 0
IsDown c ls s =
    (s.runtime.success ≡ false)
    × (s.runtime.conn ≡ none)
    × (s.runtime.listeners ≡ [])
    × ((why : String) × (s.runtime.error ≡ some why))
    × (s.closings ≡ record { conn = some c; listeners = ls } ∷ [])
    × (s.escaped ≡ none)

-- An exception of a write of materialised files has left `_start_one`, with nothing closed.
abbrev pub IsLost : Conn → List Listener → NodeInput → Start → Started → Type 0
IsLost c ls node s started =
    (started.runtime.success ≡ false)
    × (started.runtime.conn ≡ some c)
    × (started.runtime.listeners ≡ ls)
    × (started.closings ≡ [])
    × ((e : String) × (started.escaped ≡ some e)
        × ((written node s.write_files ≡ some e) ⊎ (written node s.write_targets ≡ some e)))

-- A runtime on its way.
abbrev IsPending : Conn → List Listener → Runtime → Type 0
IsPending c ls r = (r.success ≡ false) × (r.conn ≡ some c) × (r.listeners ≡ ls) × (r.error ≡ none)

abbrev pub IsSettled : Conn → List Listener → NodeInput → Start → Started → Type 0
IsSettled c ls node s started =
    IsUp c ls node s started ⊎ (IsDown c ls started ⊎ IsLost c ls node s started)

-- A part of the start that is due or not.
if_due :
    (c : Conn) (ls : List Listener) (node : NodeInput) (s : Start) (due : Bool) (x y : Started)
    → (due ≡ false → IsSettled c ls node s x)
    → (due ≡ true → IsSettled c ls node s y)
    → IsSettled c ls node s (if not due then x else y)
if_due c ls node s true x y h k = k refl
if_due c ls node s false x y h k = h refl

after_writing-IsSettled :
    (c : Conn) (ls : List Listener) (node : NodeInput) (s : Start) (fault : Option String)
    (r : Runtime) (next : Started)
    → IsPending c ls r
    → ((e : String)
        → fault ≡ some e
        → (written node s.write_files ≡ some e) ⊎ (written node s.write_targets ≡ some e))
    → (fault ≡ none → IsSettled c ls node s next)
    → IsSettled c ls node s (after_writing fault r next)
unfolding after_writing
after_writing-IsSettled c ls node s none r next h why k = k refl
after_writing-IsSettled c ls node s (some e) r next (f, at, lis, error) why k =
    inr (inr (f, at, lis, refl, (e, refl, why e refl)))

module _ (c : Conn) (ls : List Listener) where
  give_up-IsDown : (why : String) (r : Runtime) → IsPending c ls r → IsDown c ls (give_up why r)
  unfolding give_up
  give_up-IsDown why r h = (ground arith, refl, refl, (why, refl), ground arith, refl)

  module _ (shown : List String → String) (node : NodeInput) (s : Start) where
    finish_targets-IsSettled :
        (t : Result String (Dict Output × List String × List Warning)) (r : Runtime)
        → FilesDone node s
        → IsPending c ls r
        → IsSettled c ls node s (finish_targets shown (written node s.write_targets) t r)
    unfolding finish_targets
    finish_targets-IsSettled (err why) r done h = inr (inl (give_up-IsDown why r h))
    finish_targets-IsSettled (ok (outputs, [], warnings)) r done (f, at, lis, e) =
        let r1 = record r { kube_targets = outputs; kube_warnings = warnings } in
        after_writing-IsSettled c ls node s (written node s.write_targets) r1 _ (f, at, lis, e)
          (λ x h. inr h) (λ worked. inl (refl, at, lis, e, refl, refl, done, λ due. worked))
    finish_targets-IsSettled (ok (outputs, n ∷ ns, warnings)) r done h =
        let r1 = record r { kube_targets = outputs; kube_warnings = warnings } in
        after_writing-IsSettled c ls node s (written node s.write_targets) r1 _ h (λ x e. inr e)
          (λ worked. inr (inl (give_up-IsDown _ r1 h)))

    start_targets-IsSettled :
        (r : Runtime)
        → FilesDone node s
        → IsPending c ls r
        → IsSettled c ls node s (start_targets shown node s r)
    unfolding start_targets
    start_targets-IsSettled r done (f, at, lis, e) =
        if_due c ls node s node.has_targets _ _
          (λ none_due. inl (refl, at, lis, e, refl, refl, done, λ due. cc))
          (λ due. finish_targets-IsSettled s.targets r done (f, at, lis, e))

    finish_files-IsSettled :
        (f : Result String (Dict FetchedFile × List String)) (r : Runtime)
        → IsPending c ls r
        → IsSettled c ls node s (finish_files shown node s f r)
    unfolding finish_files
    finish_files-IsSettled (err why) r h = inr (inl (give_up-IsDown why r h))
    finish_files-IsSettled (ok (files, [])) r h =
        let r1 = record r { fetched_files = files } in
        after_writing-IsSettled c ls node s (written node s.write_files) r1 _ h (λ x e. inl e)
          (λ worked. start_targets-IsSettled r1 (λ due. worked) h)
    finish_files-IsSettled (ok (files, n ∷ ns)) r h =
        let r1 = record r { fetched_files = files } in
        after_writing-IsSettled c ls node s (written node s.write_files) r1 _ h (λ x e. inl e)
          (λ worked. inr (inl (give_up-IsDown _ r1 h)))

    start_files-IsSettled :
        (r : Runtime) → IsPending c ls r → IsSettled c ls node s (start_files shown node s r)
    unfolding start_files
    start_files-IsSettled r h =
        if_due c ls node s node.has_files _ _ (λ none_due. start_targets-IsSettled r (λ due. cc) h)
          (λ due. finish_files-IsSettled s.files r h)

-- What there is to close once a node has a connection.
abbrev pub opened : Result String (Dict ℕ × List Listener) → List Listener
opened (err why) = []
opened (ok (ports, listeners)) = listeners

start_forwards-IsSettled :
    (shown : List String → String) (node : NodeInput) (s : Start) (c : Conn)
    (f : Result String (Dict ℕ × List Listener)) (r : Runtime)
    → IsPending c [] r
    → IsSettled c (opened f) node s (start_forwards shown node s f r)
unfolding start_forwards
start_forwards-IsSettled shown node s c (err why) r h = inr (inl (give_up-IsDown c [] why r h))
start_forwards-IsSettled shown node s c (ok (ports, listeners)) r (f, at, lis, e) =
    start_files-IsSettled c listeners shown node s
      (record r { ports = ports; listeners = listeners }) (f, at, refl, e)

-- Once `_start_one` has connected, it ends in one of three ways. The node is up: it succeeded without
-- an error, holds its connection and the listeners of its local forwards, nothing was closed, and
-- the writes of materialised files that were due raised nothing. Or it is down: it failed with an
-- error, holds no connection and no listener, and exactly the connection and the listeners of its
-- local forwards have been closed, once. Or the manager has a session and one of its two writes of
-- materialised files raised: the exception leaves `_start_one`, and the connection and the listeners
-- are open, with the node not counted as a success.
pub start_one-IsSettled :
    (shown : List String → String) (name : String) (node : NodeInput) (s : Start) (c : Conn)
    → s.connect ≡ ok c
    → IsSettled c (opened s.forwards) node s (start_one shown name node s)
unfolding start_one start_connected
start_one-IsSettled shown name node s c h =
    subst
      (λ answer.
        IsSettled c (opened s.forwards) node s
          (start_connected shown node s answer (new_runtime name)))
      (sym h)
      (start_forwards-IsSettled shown node s c s.forwards
        (record (new_runtime name) { conn = some c }) (refl, refl, refl, refl))
