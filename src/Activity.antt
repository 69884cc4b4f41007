-- ===== src/Activity.antt =====
-- tunstrap/activity.py: the aggregate of open forward connections, and the tracker that asyncssh
-- makes for each of them. `time.monotonic()` is an argument `now`, in milliseconds; asyncssh is a
-- sequence of events that calls the hooks of the trackers in any order, repeats included.
pub mod Counting
use tunstrap.Common.{
  ℕ, zero, suc, ◌+◌, ◌-◌, Bool, true, false, not, ◌||◌, List, [], ◌∷◌, ◌++◌, ltb, ◌==◌,
  if◌then◌else◌,
}

-- `ActivityTracker`
pub record Aggregate : Type 0 where
  pub active_count : ℕ
  pub last_activity_at : ℕ

-- `ActivityTracker.__init__`
unfoldable pub new_aggregate : ℕ → Aggregate
new_aggregate now = record { active_count = 0; last_activity_at = now }

unfoldable pub note_connection_made : ℕ → Aggregate → Aggregate
note_connection_made now a = record { active_count = a.active_count + 1; last_activity_at = now }

-- `max(0, count - 1)`
unfoldable pub note_connection_lost : ℕ → Aggregate → Aggregate
note_connection_lost now a = record {
  active_count = if ltb 0 a.active_count then a.active_count - 1 else 0;
  last_activity_at = now;
}

unfoldable pub is_idle : Aggregate → Bool
is_idle a = a.active_count == 0

unfoldable pub since_activity : ℕ → Aggregate → ℕ
since_activity now a = now - a.last_activity_at

-- `_IdleConnectionTracker`
pub record Tracker : Type 0 where
  pub opened : Bool
  pub closed : Bool

abbrev pub fresh : Tracker
fresh = record { opened = false; closed = false }

unfoldable pub connection_made : ℕ → Tracker → Aggregate → Tracker × Aggregate
unfolding note_connection_made
connection_made now t a =
    if t.opened then (t, a) else (record t { opened = true }, note_connection_made now a)

unfoldable pub connection_lost : ℕ → Tracker → Aggregate → Tracker × Aggregate
unfolding note_connection_lost
connection_lost now t a =
    if t.closed || not t.opened
    then (t, a)
    else (record t { closed = true }, note_connection_lost now a)

-- The trackers that `make_tracker` has handed out, with the aggregate that they share.
pub record Forwards : Type 0 where
  pub trackers : List Tracker
  pub aggregate : Aggregate

pub data Event : Type 0 where
  make_tracker : Event
  made : ℕ → ℕ → Event
  lost : ℕ → ℕ → Event

-- A hook of the tracker at a position; there is no tracker past the end.
unfoldable pub at_tracker :
    (Tracker → Aggregate → Tracker × Aggregate)
    → ℕ
    → List Tracker
    → Aggregate
    → List Tracker × Aggregate
at_tracker hook i [] a = ([], a)
at_tracker hook zero (t ∷ ts) a = let (t', a') = hook t a in (t' ∷ ts, a')
at_tracker hook (suc i) (t ∷ ts) a = let (ts', a') = at_tracker hook i ts a in (t ∷ ts', a')

unfoldable pub handle : Event → Forwards → Forwards
unfolding at_tracker connection_made connection_lost
handle make_tracker f = record f { trackers = f.trackers ++ fresh ∷ [] }
handle (made i now) f =
    let (ts, a) = at_tracker (connection_made now) i f.trackers f.aggregate in
    record { trackers = ts; aggregate = a }
handle (lost i now) f =
    let (ts, a) = at_tracker (connection_lost now) i f.trackers f.aggregate in
    record { trackers = ts; aggregate = a }

unfoldable pub handle_all : List Event → Forwards → Forwards
handle_all [] f = f
handle_all (e ∷ es) f = handle_all es (handle e f)
