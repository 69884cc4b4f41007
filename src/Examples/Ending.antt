-- ===== src/Examples/Ending.antt =====
-- Sessions that end: one that is killed behind its grace period, and one that exits in time.
use tunstrap.Common.{
  zero, ◌≡◌, ◌≢◌, refl, ◌⊎◌, true, false, ◌&&◌, none, some, [], ◌∷◌, ◌+◌, ◌*◌, ℤ, pos, is_positive,
  ok,
}
use tunstrap.Identity.{
  matches, not_found, Host, alive, no_process, won, blocked, LockFile, process_exists,
  check_recorded, check_lock, verify_session,
}
use tunstrap.Stop.{
  System, delivered, signal, sigterm, sigkill, no_fuel, probe_exited, has_exited, grace_loop,
  grace_of, rounds, escalate, after_grace_period, terminate, stop_session, success,
}
use tunstrap.Stop.Signals.{Escalation, was_killed, grace_period_ends, stop_session_signals}
use tunstrap.Stop.Outcomes.{IsGone, stop_session-evidence}
use tunstrap.Lifecycle.{number, Survivors, report_stop, read_identity, stop_command, teardown_run}
use tunstrap.Lifecycle.Disposal.{MayDelete, teardown_run-MayDelete}

abbrev pub pid : ℤ
pid = pos 4711

-- The daemon runs and holds the lock.
abbrev pub running : Host
running = record {
  probe = λ p. alive;
  lock_is_file = true;
  lock_opens = true;
  flock = blocked;
  recorded = some pid;
}

running_matches : verify_session running pid ≡ ok matches
unfolding verify_session process_exists check_lock check_recorded
running_matches = refl

-- A lock that a daemon has left behind.
abbrev stale : LockFile
stale = record { is_regular = true; is_own = true; links = 1; flock = won; content = "12" }

-- A daemon that hears no SIGTERM: no poll sees it exit.
abbrev pub deaf : System
deaf = record {
  before = running;
  on_term = delivered;
  started_at = 100;
  poll = λ i. record { waited = none; probe = alive };
  late = λ i. 30;
  after_grace = running;
  on_kill = delivered;
}

-- A daemon that is gone at the second poll.
abbrev pub willing : System
willing = record deaf {
  poll = λ i. elim i [
    | zero ↦ record { waited = none; probe = alive }
    | _ ↦ record { waited = none; probe = no_process }
  ];
}

grace_period_ends_example :
    grace_loop
      (rounds (pos 2))
      pid
      deaf
      (deaf.started_at + grace_of (pos 2) * 1000)
      deaf.started_at
      0
    ≢ no_fuel
grace_period_ends_example = grace_period_ends pid (pos 2) deaf

stop_deaf : (stop_session pid (pos 1) true deaf).sent ≡ signal sigterm pid ∷ signal sigkill pid ∷ []
unfolding stop_session verify_session process_exists check_lock check_recorded terminate grace_loop
    has_exited probe_exited after_grace_period escalate
stop_deaf = refl

stop_session_signals_example :
    Escalation pid (stop_session pid (pos 1) true deaf).sent
    × ((stop_session pid (pos 1) true deaf).sent ≢ []
        → (is_positive pid ≡ true) × (verify_session deaf.before pid ≡ ok matches))
    × (was_killed (stop_session pid (pos 1) true deaf).sent ≡ true
        → (true ≡ true) × (verify_session deaf.after_grace pid ≡ ok matches))
stop_session_signals_example = stop_session_signals pid (pos 1) true deaf

stop_willing : (stop_session pid (pos 1) true willing).outcome ≡ ok success
unfolding stop_session verify_session process_exists check_lock check_recorded terminate grace_loop
    has_exited probe_exited after_grace_period escalate
stop_willing = refl

stop_session-evidence_example :
    (verify_session willing.before pid ≡ ok not_found)
    ⊎ IsGone pid (pos 1) willing (stop_session pid (pos 1) true willing).sent
stop_session-evidence_example =
    stop_session-evidence pid (pos 1) true willing success stop_willing refl

abbrev nothing_left : Survivors
nothing_left = record { of_data = []; of_root = [] }

stop_command-willing : stop_command (number pid) "" (pos 1) willing ≡ report_stop success
unfolding stop_command read_identity report_stop stop_session verify_session process_exists
    check_lock check_recorded terminate grace_loop has_exited probe_exited after_grace_period
    escalate
stop_command-willing = refl

teardown_run-MayDelete_example :
    ((teardown_run false true (number pid) (pos 1) willing nothing_left).removes_data ≡ true
      → MayDelete (number pid) (pos 1) willing)
    × ((teardown_run false true (number pid) (pos 1) willing nothing_left).removes_root ≡ (
        (teardown_run false true (number pid) (pos 1) willing nothing_left).removes_data && true))
teardown_run-MayDelete_example =
    teardown_run-MayDelete false true (number pid) (pos 1) willing nothing_left
