-- ===== src/Worker/Supervise/Losses.antt =====
-- What ends the daemon, what is recorded of it, and when its data is preserved.
use mathlib.Core.Path.{subst}
use tunstrap.Common.{
  ℕ, zero, suc, ◌+◌, ◌≡◌, refl, sym, ◌∙◌, ◌↔◌, Bool, true, false, ◌||◌, ◌&&◌, Option, none, some,
  List, [], ◌∷◌, ◌++◌, arith, if◌then◌else◌,
}
use tunstrap.Worker.Supervise.{
  Node, NodeLoss, LossRecord, Supervisor, has_required, payload, Event, stop_requested, closed,
  put_back, remove_at, close_node, step, steps, starting, Disposal, cleanup, dispose_session,
  shut_down, supervise,
}

-- How many of some nodes are required.
abbrev pub required_count : List Node → ℕ
required_count [] = 0
required_count (n ∷ ns) = (if n.required then 1 else 0) + required_count ns

abbrev pub lost_count : List NodeLoss → ℕ
lost_count [] = 0
lost_count (l ∷ ls) = (if l.required then 1 else 0) + lost_count ls

lost_count-append :
    (ls : List NodeLoss) (l : NodeLoss)
    → lost_count (ls ++ l ∷ []) ≡ lost_count ls + (if l.required then 1 else 0)
lost_count-append [] l = ground arith
lost_count-append (k ∷ ks) l = ground (arith, lost_count-append ks l)

has_required-append :
    (ls : List NodeLoss) (l : NodeLoss)
    → has_required (ls ++ l ∷ []) ≡ (has_required ls || l.required)
unfolding has_required
has_required-append [] l = ground arith
has_required-append (k ∷ ks) l = ground (arith, has_required-append ks l)

has_required-count : (ls : List NodeLoss) → (has_required ls ≡ false) ↔ (lost_count ls ≡ 0)
unfolding has_required
has_required-count [] = (λ h. refl, λ h. refl)
has_required-count (l ∷ ls) =
    (λ h. ground (arith, (has_required-count ls).0), λ h. ground (arith, (has_required-count ls).1))

remove_at-count :
    (i : ℕ) (ns : List Node) (n : Node) (rest : List Node)
    → remove_at i ns ≡ some (n, rest)
    → required_count ns ≡ (if n.required then 1 else 0) + required_count rest
remove_at-count i [] n rest h = cc
remove_at-count zero (m ∷ ms) n rest h = ground arith
remove_at-count (suc i) (m ∷ ms) n rest h = go (remove_at i ms) (remove_at-count i ms) h
  where
    go :
        (r : Option (Node × List Node))
        → ((k : Node) (left : List Node)
            → r ≡ some (k, left)
            → required_count ms ≡ (if k.required then 1 else 0) + required_count left)
        → put_back m r ≡ some (n, rest)
        → required_count (m ∷ ms) ≡ (if n.required then 1 else 0) + required_count rest
    go none further eq = cc
    go (some (k, left)) further eq = ground (arith, further k left refl)

-- Whether something in a run asks the daemon to stop.
abbrev pub is_stop : Event → Bool
is_stop stop_requested = true
is_stop (closed i written) = false

abbrev pub asks_stop : List Event → Bool
asks_stop [] = false
asks_stop (e ∷ es) = is_stop e || asks_stop es

-- The part of the state that does not depend on the disk.
abbrev pub IsCounted : List Node → Supervisor → Type 0
IsCounted live s = lost_count s.losses + required_count s.watched ≡ required_count live

close_node-IsCounted :
    (live : List Node) (r : Option (Node × List Node)) (written : Bool) (s : Supervisor)
    → ((n : Node) (rest : List Node)
        → r ≡ some (n, rest)
        → required_count s.watched ≡ (if n.required then 1 else 0) + required_count rest)
    → IsCounted live s
    → IsCounted live (close_node r written s)
unfolding close_node
close_node-IsCounted live none written s removed h = h
close_node-IsCounted live (some (n, rest)) written s removed h =
    let added = lost_count-append s.losses (record { node = n.name; required = n.required }) in
    let taken = removed n rest refl in omega (arith, added, taken, h)

step-IsCounted :
    (live : List Node) (e : Event) (s : Supervisor) → IsCounted live s → IsCounted live (step e s)
unfolding step
step-IsCounted live stop_requested s h = h
step-IsCounted live (closed i written) s h =
    close_node-IsCounted live (remove_at i s.watched) written s (remove_at-count i s.watched) h

steps-IsCounted :
    (live : List Node) (es : List Event) (s : Supervisor)
    → IsCounted live s
    → IsCounted live (steps es s)
unfolding steps
steps-IsCounted live [] s h = h
steps-IsCounted live (e ∷ es) s h = steps-IsCounted live es (step e s) (step-IsCounted live e s h)

-- The event is set by a request and by a required loss, and by nothing else.
abbrev IsStopped : Bool → Supervisor → Type 0
IsStopped asked s = s.stop_is_set ≡ (asked || has_required s.losses)

close_node-IsStopped :
    (asked : Bool) (r : Option (Node × List Node)) (written : Bool) (s : Supervisor)
    → IsStopped asked s
    → IsStopped asked (close_node r written s)
unfolding close_node
close_node-IsStopped asked none written s h = h
close_node-IsStopped asked (some (n, rest)) written s h =
    let added = has_required-append s.losses (record { node = n.name; required = n.required }) in
    ground (arith, added)

step-IsStopped :
    (asked : Bool) (e : Event) (s : Supervisor)
    → IsStopped asked s
    → IsStopped (asked || is_stop e) (step e s)
unfolding step
step-IsStopped asked stop_requested s h = ground arith
step-IsStopped asked (closed i written) s h =
    let kept = close_node-IsStopped asked (remove_at i s.watched) written s h in ground arith

steps-IsStopped :
    (asked : Bool) (es : List Event) (s : Supervisor)
    → IsStopped asked s
    → IsStopped (asked || asks_stop es) (steps es s)
unfolding steps
steps-IsStopped asked [] s h = ground arith
steps-IsStopped asked (e ∷ es) s h =
    let later = steps-IsStopped (asked || is_stop e) es (step e s) (step-IsStopped asked e s h) in
    ground arith

-- The daemon shuts down exactly if a signal or the idle watchdog asked for it or a required tunnel
-- was lost; a loss that is not required leaves it waiting.
pub shuts_down_iff :
    (es : List Event) (live : List Node)
    → (steps es (starting live)).stop_is_set
      ≡ (asks_stop es || has_required (steps es (starting live)).losses)
unfolding has_required
shuts_down_iff es live = steps-IsStopped false es (starting live) refl

dispose_session_iff : (ls : List NodeLoss) → (dispose_session ls ≡ cleanup) ↔ (lost_count ls ≡ 0)
unfolding dispose_session
dispose_session_iff ls = (
  λ h. (has_required-count ls).0 (ground arith),
  λ h. let none_lost = (has_required-count ls).1 h in ground arith,
)

-- When the daemon has shut down, its session data is cleaned up exactly if every required node that
-- had started was still connected, and preserved otherwise. Losses that are not required, and
-- requests to stop before or behind a loss, make no difference.
pub supervise_cleans_up_iff :
    (es : List Event) (live : List Node) (d : Disposal) (s : Supervisor)
    → supervise es live ≡ shut_down d s
    → (d ≡ cleanup) ↔ (required_count s.watched ≡ required_count live)
unfolding supervise
supervise_cleans_up_iff es live d s h =
    let final = steps es (starting live) in
    let counted : IsCounted live final = steps-IsCounted live es (starting live) (omega arith) in
    let same : final ≡ s = ground arith in
    let disposed : dispose_session s.losses ≡ d = ground arith in
    let (only_if, if_none) = dispose_session_iff s.losses in
    (
      λ clean. omega (arith, only_if (disposed ∙ clean), subst (IsCounted live) same counted),
      λ all. sym disposed ∙ if_none (omega (arith, subst (IsCounted live) same counted)),
    )

abbrev pub all_written : List Event → Bool
all_written [] = true
all_written (stop_requested ∷ es) = all_written es
all_written (closed i written ∷ es) = written && all_written es

-- What should be on disk.
abbrev pub told : List NodeLoss → Option LossRecord
told [] = none
told (l ∷ ls) = some (payload (l ∷ ls))

told-append :
    (ls : List NodeLoss) (l : NodeLoss) → told (ls ++ l ∷ []) ≡ some (payload (ls ++ l ∷ []))
told-append [] l = refl
told-append (k ∷ ks) l = refl

abbrev IsTold : Supervisor → Type 0
IsTold s = s.on_disk ≡ told s.losses

close_node-IsTold :
    (r : Option (Node × List Node)) (s : Supervisor) → IsTold s → IsTold (close_node r true s)
unfolding close_node
close_node-IsTold none s h = h
close_node-IsTold (some (n, rest)) s h =
    sym (told-append s.losses (record { node = n.name; required = n.required }))

steps-IsTold :
    (es : List Event) (s : Supervisor) → all_written es ≡ true → IsTold s → IsTold (steps es s)
unfolding steps step
steps-IsTold [] s w h = h
steps-IsTold (stop_requested ∷ es) s w h = steps-IsTold es (step stop_requested s) w h
steps-IsTold (closed i true ∷ es) s w h =
    steps-IsTold es (step (closed i true) s) w (close_node-IsTold (remove_at i s.watched) s h)
steps-IsTold (closed i false ∷ es) s w h = cc

-- As long as the record can be written, what is on disk is the whole of what was lost, in order,
-- with the verdict that fits it, and there is no record without a loss.
pub loss_record_complete :
    (es : List Event) (live : List Node)
    → all_written es ≡ true
    → (steps es (starting live)).on_disk ≡ told (steps es (starting live)).losses
loss_record_complete es live w = steps-IsTold es (starting live) w refl
