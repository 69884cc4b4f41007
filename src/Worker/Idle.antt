-- ===== src/Worker/Idle.antt =====
-- `_idle_watchdog` of tunstrap/_worker.py. Times are in milliseconds, so that the poll interval
-- `max(1.0, timeout_seconds / 4)` is exact. One element of the schedule is one round of the loop.
use mathlib.Core.List.{map}
use tunstrap.Common.{
  ℕ, suc, ◌+◌, ◌*◌, ◌≤◌, ◌<◌, ◌≡◌, inl, inr, Bool-cases, Bool, true, false, ◌&&◌, ◌||◌, List, [],
  ◌∷◌, arith, leb, if◌then◌else◌, length,
}
use tunstrap.Activity.{Aggregate, Forwards, Event, is_idle, since_activity, handle_all}

pub record Poll : Type 0 where
  pub stop_is_set : Bool  -- `stop_event.is_set()` at the head of the loop
  pub cancelled : Bool  -- the sleep raised `CancelledError`
  pub late : ℕ  -- how much later than asked the sleep ended
  pub events : List Event  -- what the trackers saw meanwhile

-- How the watchdog ended: it set the event, it returned without that, or it is still waiting.
pub data Ending : Type 0 where
  fired : ℕ → Aggregate → Ending
  returned : Ending
  waiting : ℕ → Forwards → Ending

unfoldable pub poll_interval : ℕ → ℕ
poll_interval timeout_seconds =
    if leb 1000 (timeout_seconds * 250) then timeout_seconds * 250 else 1000

-- `tracker.is_idle and tracker.seconds_since_activity >= timeout_seconds`
unfoldable pub is_expired : ℕ → ℕ → Aggregate → Bool
unfolding is_idle since_activity
is_expired timeout_seconds now a = is_idle a && leb (timeout_seconds * 1000) (since_activity now a)

unfoldable pub idle_watchdog : ℕ → List Poll → ℕ → Forwards → Ending
idle_watchdog timeout_seconds [] now f = waiting now f
idle_watchdog timeout_seconds (p ∷ ps) now f =
    let now' = now + poll_interval timeout_seconds + p.late in
    let f' = handle_all p.events f in
    let rest = idle_watchdog timeout_seconds ps now' f' in
    if p.stop_is_set || p.cancelled
    then returned
    else if is_expired timeout_seconds now' f'.aggregate
    then fired now' f'.aggregate
    else rest

abbrev pub WasIdle : ℕ → Ending → Type 0
WasIdle timeout_seconds (fired now a) =
    (a.active_count ≡ 0) × (a.last_activity_at + timeout_seconds * 1000 ≤ now)
WasIdle timeout_seconds _ = Unit

is_expired-WasIdle :
    (timeout now : ℕ) (a : Aggregate)
    → 0 < timeout
    → is_expired timeout now a ≡ true
    → (a.active_count ≡ 0) × (a.last_activity_at + timeout * 1000 ≤ now)
unfolding is_expired
is_expired-WasIdle timeout now a pos h = ground arith

-- With a timeout of at least a second (the schema's `ge=1`), the watchdog stops the daemon only at
-- a moment when no forward is open and the last open or close is at least the timeout ago.
pub fires_only_when_idle :
    (timeout : ℕ) (ps : List Poll) (now : ℕ) (f : Forwards)
    → 0 < timeout
    → WasIdle timeout (idle_watchdog timeout ps now f)
unfolding idle_watchdog
fires_only_when_idle timeout [] now f pos = tt
fires_only_when_idle timeout (p ∷ ps) now f pos =
    let now' = now + poll_interval timeout + p.late in
    let f' = handle_all p.events f in
    elim (Bool-cases (p.stop_is_set || p.cancelled)) [
      | inl leaves ↦ rw leaves tt
      | inr stays ↦ rw stays (elim (Bool-cases (is_expired timeout now' f'.aggregate)) [
        | inl due ↦ rw due (is_expired-WasIdle timeout now' f'.aggregate pos due)
        | inr early ↦ rw early (fires_only_when_idle timeout ps now' f' pos)
      ])
    ]

-- A round in which nothing asks the daemon to stop and no connection opens or closes.
abbrev pub quiet : ℕ → Poll
quiet late = record { stop_is_set = false; cancelled = false; late = late; events = [] }

abbrev pub HasFired : Ending → Type 0
HasFired (fired _ _) = Unit
HasFired _ = ⊥

four_intervals : (timeout : ℕ) → timeout * 1000 ≤ 4 * poll_interval timeout
unfolding poll_interval
four_intervals timeout = ground arith

due_is_expired :
    (timeout now : ℕ) (a : Aggregate)
    → a.active_count ≡ 0
    → a.last_activity_at + timeout * 1000 ≤ now
    → is_expired timeout now a ≡ true
unfolding is_expired
due_is_expired timeout now a e h = ground arith

-- `k` quiet rounds are enough when the timeout is over by the last of them.
quiet_fires :
    (timeout : ℕ) (l : ℕ) (lates : List ℕ) (now : ℕ) (f : Forwards)
    → f.aggregate.active_count ≡ 0
    → f.aggregate.last_activity_at + timeout * 1000
      ≤ now + suc (length lates) * poll_interval timeout
    → HasFired (idle_watchdog timeout (quiet l ∷ map quiet lates) now f)
unfolding idle_watchdog handle_all
quiet_fires timeout l [] now f e h =
    rw (due_is_expired timeout (now + poll_interval timeout + l) f.aggregate e (omega arith)) tt
quiet_fires timeout l (m ∷ lates) now f e h =
    let now' = now + poll_interval timeout + l in
    elim (Bool-cases (is_expired timeout now' f.aggregate)) [
      | inl due ↦ rw due tt
      | inr early ↦ rw early (quiet_fires timeout m lates now' f e (omega arith))
    ]

-- Liveness: with no forward open since before the first of four rounds in which nothing happens,
-- the watchdog stops the daemon within those four, however late the sleeps end.
pub fires_within_four_rounds :
    (timeout a b c d now : ℕ) (f : Forwards)
    → f.aggregate.active_count ≡ 0
    → f.aggregate.last_activity_at ≤ now
    → HasFired (idle_watchdog timeout (map quiet (a ∷ b ∷ c ∷ d ∷ [])) now f)
fires_within_four_rounds timeout a b c d now f e h =
    quiet_fires timeout a (b ∷ c ∷ d ∷ []) now f e (omega (arith, four_intervals timeout))
