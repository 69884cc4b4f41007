-- ===== src/Daemon/Reap.antt =====
-- `_reap_timed_out_worker` and `_kill_timed_out_worker` of tunstrap/daemon.py, with the signals that
-- they send.
use tunstrap.Common.{Bool, true, false, not, ◌||◌, List, [], ◌∷◌, ℤ, is_positive, if◌then◌else◌}

pub data WorkerSignal : Type 0 where
  terminate kill : WorkerSignal

-- How `proc.wait(timeout=...)` ends behind a signal, and the signal itself may fail: `os_error`.
pub data Waited : Type 0 where
  exited expired os_error : Waited

-- What the `Popen` object answers: whether `poll()` sees the end of the worker at the start, behind
-- a failure of the first signal, before the second, and behind a failure of the second.
pub record Process : Type 0 where
  pub pid : ℤ
  pub ended : Bool
  pub on_terminate : Waited
  pub ended_then : Bool
  pub ended_before_kill : Bool
  pub on_kill : Waited
  pub ended_at_last : Bool

pub record Reaped : Type 0 where
  pub reaped : Bool
  pub signals : List WorkerSignal

unfoldable pub kill_timed_out_worker : Process → Reaped
kill_timed_out_worker p =
    if not (is_positive p.pid) || p.ended_before_kill
    then record { reaped = p.ended_before_kill; signals = [] }
    else elim p.on_kill [
      | exited ↦ record { reaped = true; signals = kill ∷ [] }
      | expired ↦ record { reaped = false; signals = kill ∷ [] }
      | os_error ↦ record { reaped = p.ended_at_last; signals = kill ∷ [] }
    ]

unfoldable pub reap_timed_out_worker : Process → Reaped
unfolding kill_timed_out_worker
reap_timed_out_worker p =
    let killed = kill_timed_out_worker p in
    if not (is_positive p.pid) || p.ended
    then record { reaped = p.ended; signals = [] }
    else elim p.on_terminate [
      | exited ↦ record { reaped = true; signals = terminate ∷ [] }
      | expired ↦ record { reaped = killed.reaped; signals = terminate ∷ killed.signals }
      | os_error ↦ record { reaped = p.ended_then; signals = terminate ∷ [] }
    ]
