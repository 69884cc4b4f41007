-- ===== src/Ssh/Listeners.antt =====
-- No listener is left open behind a failure, and every forward of a success was probed.
use tunstrap.Common.{
  ℕ, ◌≡◌, refl, sym, ap, ◌∙◌, Bool, true, false, Option, none, some, List, [], ◌∷◌, ◌++◌, Result,
  ok, err, if◌then◌else◌, All,
}
use mathlib.Core.List.{append_assoc, append-nil}
use tunstrap.Common.Dict.{Dict, insert}
use tunstrap.Ssh.{
  Failure, not_accepting, Forward, listens, raises, Target, Act, opened, closed, drained, Opened,
  each, close_transport, probe, then_opens, give_up, after_probe, open_forwards,
  open_local_forwards,
}

-- The listeners that were opened, and those that were closed, in order.
abbrev pub openings : List Act → List ℕ
openings [] = []
openings (opened l ∷ acts) = l ∷ openings acts
openings (_ ∷ acts) = openings acts

abbrev pub closings : List Act → List ℕ
closings [] = []
closings (closed l ∷ acts) = l ∷ closings acts
closings (_ ∷ acts) = closings acts

-- A target that the loop went past.
abbrev pub IsForwarded : Bool → Target → Type 0
IsForwarded required t =
    ((l : ℕ) × (port : ℕ) × (t.forward ≡ listens l port))
    × (t.accepts ≡ true)
    × (required ≡ true → t.far_end ≡ none)

-- What becomes of the listeners so far and of those that are opened, by the outcome.
abbrev pub KeepsBy : Result Failure (Dict ℕ) → Bool → List ℕ → List Target → Opened → Type 0
KeepsBy (ok ports) required before targets o =
    (o.listeners ≡ before ++ openings o.acts)
    × (closings o.acts ≡ [])
    × All (IsForwarded required) targets
KeepsBy (err e) required before targets o =
    (o.listeners ≡ []) × (closings o.acts ≡ before ++ openings o.acts)

abbrev pub Keeps : Bool → List ℕ → List Target → Opened → Type 0
Keeps required before targets o = KeepsBy o.outcome required before targets o

each_closed :
    (ls : List ℕ) (more : List Act) → closings (each closed ls ++ more) ≡ ls ++ closings more
each_closed [] more = refl
each_closed (l ∷ ls) more = ap (λ r. l ∷ r) (each_closed ls more)

each_drained : (ls : List ℕ) → closings (each drained ls) ≡ []
each_drained [] = refl
each_drained (l ∷ ls) = each_drained ls

none_opened : (ls : List ℕ) → openings (close_transport none ls) ≡ []
unfolding close_transport
none_opened ls = behind ls ls
  where
    drained_only : (ks : List ℕ) → openings (each drained ks) ≡ []
    drained_only [] = refl
    drained_only (k ∷ ks) = drained_only ks

    behind : (ks js : List ℕ) → openings (each closed ks ++ each drained js) ≡ []
    behind [] js = drained_only js
    behind (k ∷ ks) js = behind ks js

give_up-Keeps :
    (required : Bool) (before : List ℕ) (targets : List Target) (e : Failure)
    → Keeps required before targets (give_up before e)
unfolding give_up close_transport
give_up-Keeps required before targets e = (
  refl,
  each_closed before (each drained before)
      ∙ ap (λ r. before ++ r) (each_drained before ∙ sym (none_opened before)),
)

probe-none :
    (required : Bool) (t : Target)
    → probe required t ≡ none
    → (t.accepts ≡ true) × (required ≡ true → t.far_end ≡ none)
unfolding probe
probe-none required t h = by_answers required t.accepts t.far_end h
  where
    by_answers :
        (r accepts : Bool) (far : Option Failure)
        → (if accepts then (if r then far else none) else some not_accepting) ≡ none
        → (accepts ≡ true) × (r ≡ true → far ≡ none)
    by_answers true true far h = (refl, λ r. h)
    by_answers false true far h = (refl, λ r. cc)
    by_answers r false far h = cc

then_opens-KeepsBy :
    (required : Bool) (before : List ℕ) (l : ℕ) (t : Target) (ts : List Target) (next : Opened)
    (outcome : Result Failure (Dict ℕ))
    → ((ports : Dict ℕ) → outcome ≡ ok ports → IsForwarded required t)
    → KeepsBy outcome required (before ++ l ∷ []) ts next
    → KeepsBy outcome required before (t ∷ ts) (then_opens l next)
then_opens-KeepsBy required before l t ts next (ok ports) forwarded (listening, unclosed, all) = (
  listening ∙ append_assoc before (l ∷ []) (openings next.acts),
  unclosed,
  (forwarded ports refl, all),
)
then_opens-KeepsBy required before l t ts next (err e) forwarded (gone, shut) =
    (gone, shut ∙ append_assoc before (l ∷ []) (openings next.acts))

open_forwards-Keeps :
    (required : Bool) (ports : Dict ℕ) (before : List ℕ) (targets : List Target)
    → Keeps required before targets (open_forwards required ports before targets)
unfolding open_forwards after_probe
open_forwards-Keeps required ports before [] = (sym (append-nil before), refl, tt)
open_forwards-Keeps required ports before (t ∷ ts) =
    by_forward t.forward refl
      (λ l port. open_forwards-Keeps required (insert t.handle port ports) (before ++ l ∷ []) ts)
  where
    next : ℕ → ℕ → Opened
    next l port = open_forwards required (insert t.handle port ports) (before ++ l ∷ []) ts

    by_probe :
        (l port : ℕ) (p : Option Failure)
        → t.forward ≡ listens l port
        → probe required t ≡ p
        → Keeps required (before ++ l ∷ []) ts (next l port)
        → Keeps required before
            (t ∷ ts)
            (then_opens l (after_probe (before ++ l ∷ []) (next l port) p))
    by_probe l port none same probed rest =
        let (accepting, reached) = probe-none required t probed in
        then_opens-KeepsBy required before l t ts (next l port) (next l port).outcome
          (λ all h. ((l, port, same), accepting, reached)) rest
    by_probe l port (some e) same probed rest =
        then_opens-KeepsBy required before l t ts (give_up (before ++ l ∷ []) e) (err e)
          (λ all h. cc) (give_up-Keeps required (before ++ l ∷ []) ts e)

    by_forward :
        (fw : Forward)
        → t.forward ≡ fw
        → ((l port : ℕ) → Keeps required (before ++ l ∷ []) ts (next l port))
        → Keeps required before (t ∷ ts) (elim fw [
          | raises e ↦ give_up before e
          | listens l port ↦
              then_opens l (after_probe (before ++ l ∷ []) (next l port) (probe required t))
        ])
    by_forward (raises e) same rest = give_up-Keeps required before (t ∷ ts) e
    by_forward (listens l port) same rest =
        by_probe l port (probe required t) same refl (rest l port)

-- When the forwards of a node are opened, every target has a listener that accepts connections, for
-- a required node the far end of every target was reached, and the listeners that are returned are
-- those that were opened, none of them closed. When it fails, whatever fails, every listener that
-- was opened is closed, and none is returned.
pub open_local_forwards-Keeps :
    (required : Bool) (targets : List Target)
    → Keeps required [] targets (open_local_forwards required targets)
unfolding open_local_forwards
open_local_forwards-Keeps required targets = open_forwards-Keeps required [] [] targets
