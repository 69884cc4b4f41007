-- ===== src/Stop.antt =====
-- `stop_session` of tunstrap/session.py and the functions that it calls. Time is in milliseconds.
-- The system answers from a record; the result is the outcome, or an exception that nothing here
-- handles, with the signals that were sent, in order.
pub mod Signals
pub mod Outcomes
use tunstrap.Common.{
  ℕ, zero, suc, ◌+◌, ◌*◌, String, Bool, true, false, not, Option, none, some, List, [], ◌∷◌, ℤ, pos,
  negsuc, is_positive, same_int, Result, ok, err, ltb, if◌then◌else◌, ◌=t=◌,
}
use tunstrap.Identity.{
  IdentityCheck, matches, mismatch, not_found, unavailable, Raised, os_error, permission_error,
  Probe, alive, no_process, not_permitted, Host, verify_session,
}

-- `StopOutcome`
pub record StopOutcome : Type 0 where
  pub stopped : Bool
  pub reason : Option String
  pub forced : Bool

abbrev pub success : StopOutcome
success = record { stopped = true; reason = none; forced = false }

abbrev pub failure : String → StopOutcome
failure why = record { stopped = false; reason = some why; forced = false }

-- `outcome.reason == "not found"`
abbrev pub says_not_found : StopOutcome → Bool
says_not_found o = elim o.reason [ none ↦ false | some why ↦ why =t= "not found" ]

-- `os.waitpid(pid, WNOHANG)[0]`, or `none` for an `OSError`
pub record Poll : Type 0 where
  pub waited : Option ℤ
  pub probe : Probe

pub data SignalName : Type 0 where
  sigterm sigkill : SignalName

-- `os.kill(pid, signal)`: delivered, `ProcessLookupError`, or `PermissionError`
pub data Delivery : Type 0 where
  delivered gone denied : Delivery

pub record System : Type 0 where
  pub before : Host
  pub on_term : Delivery
  pub started_at : ℕ
  pub poll : ℕ → Poll
  pub late : ℕ → ℕ  -- what the nth round takes beyond its sleep of half a second
  pub after_grace : Host
  pub on_kill : Delivery

-- The signal-0 probe at the end of `_has_exited`.
unfoldable pub probe_exited : Probe → Result Raised Bool
probe_exited no_process = ok true
probe_exited alive = ok false
probe_exited not_permitted = err permission_error

unfoldable pub has_exited : ℤ → Poll → Result Raised Bool
unfolding probe_exited
has_exited pid p =
    if is_positive pid
    then elim p.waited [ some answer ↦ ok (same_int answer pid) | none ↦ probe_exited p.probe ]
    else probe_exited p.probe

-- How the grace poll ends; `no_fuel` only if the rounds allowed were too few.
pub data Grace : Type 0 where
  exited timed_out no_fuel : Grace
  raised : Raised → Grace

unfoldable pub grace_loop : ℕ → ℤ → System → ℕ → ℕ → ℕ → Grace
unfolding has_exited
grace_loop zero pid sys deadline now i = no_fuel
grace_loop (suc fuel) pid sys deadline now i =
    let rest = grace_loop fuel pid sys deadline (now + 500 + sys.late i) (i + 1) in
    if ltb now deadline
    then elim (has_exited pid (sys.poll i)) [
      | err e ↦ raised e
      | ok true ↦ exited
      | ok false ↦ rest
    ]
    else timed_out

-- `max(0, grace_seconds)`
abbrev pub grace_of : ℤ → ℕ
grace_of (pos n) = n
grace_of (negsuc n) = 0

pub data Sent : Type 0 where
  signal : SignalName → ℤ → Sent

pub record Stopped : Type 0 where
  pub outcome : Result Raised StopOutcome
  pub sent : List Sent

abbrev ends : Result Raised StopOutcome → Stopped
ends r = record { outcome = r; sent = [] }

-- The escalation behind a grace period that ran out.
unfoldable pub escalate : ℤ → Bool → System → Stopped
escalate pid force sys =
    if not force
    then ends (ok (failure "still alive"))
    else elim (verify_session sys.after_grace pid) [
      | err e ↦ ends (err e)
      | ok matches ↦ record {
        outcome = elim sys.on_kill [
          | gone ↦ ok success
          | denied ↦ err permission_error
          | delivered ↦ ok (record { stopped = true; reason = none; forced = true })
        ];
        sent = signal sigkill pid ∷ [];
      }
      | ok _ ↦ ends (ok (failure "identity changed during grace"))
    ]

-- What the grace period has shown.
unfoldable pub after_grace_period : ℤ → Bool → System → Grace → Stopped
unfolding escalate
after_grace_period pid force sys exited = ends (ok success)
after_grace_period pid force sys (raised e) = ends (err e)
after_grace_period pid force sys timed_out = escalate pid force sys
after_grace_period pid force sys no_fuel = ends (err os_error)  -- never reached, see `Signals`

-- Two rounds a second, and the one that sees the deadline.
abbrev pub rounds : ℤ → ℕ
rounds grace = suc (grace_of grace * 2)

unfoldable pub terminate : ℤ → ℤ → Bool → System → Stopped
unfolding after_grace_period grace_loop
terminate pid grace force sys =
    let deadline = sys.started_at + grace_of grace * 1000 in
    let later =
      after_grace_period pid force sys
        (grace_loop (rounds grace) pid sys deadline sys.started_at 0) in
    record {
      outcome = elim sys.on_term [
        | gone ↦ ok success
        | denied ↦ err permission_error
        | delivered ↦ later.outcome
      ];
      sent =
          signal sigterm pid
          ∷ elim sys.on_term [ gone ↦ [] | denied ↦ [] | delivered ↦ later.sent ];
    }

unfoldable pub stop_session : ℤ → ℤ → Bool → System → Stopped
stop_session pid grace force sys =
    if not (is_positive pid)
    then ends (ok (failure "identity check unavailable"))
    else elim (verify_session sys.before pid) [
      | err e ↦ ends (err e)
      | ok not_found ↦ ends (ok (failure "not found"))
      | ok mismatch ↦ ends (ok (failure "identity mismatch"))
      | ok unavailable ↦ ends (ok (failure "identity check unavailable"))
      | ok matches ↦ terminate pid grace force sys
    ]
