-- ===== src/Identity/Locking.antt =====
-- When the lock is taken, and when a session counts as the recorded one.
use tunstrap.Common.{
  String, ◌≡◌, ◌≢◌, refl, ap, true, Option, none, some, ℤ, is_positive, ok, err, arith, same_int→eq,
}
use tunstrap.Identity.{
  matches, Host, no_process, won, blocked, LockFile, LockError, not_recorded, Recording,
  recorded_pid, leaves, check_recorded, verify_session, acquire_session_lock,
}

check_recorded-matches :
    (recorded : Option ℤ) (pid : ℤ) → check_recorded recorded pid ≡ matches → recorded ≡ some pid
unfolding check_recorded
check_recorded-matches none pid h = cc
check_recorded-matches (some recorded) pid h = ap some (same_int→eq recorded pid (ground arith))

-- A session verifies as a match only for a positive pid of a process that exists, while the lock is
-- a file that another open description holds, with that very pid recorded in it.
pub verify_session-matches :
    (host : Host) (pid : ℤ)
    → verify_session host pid ≡ ok matches
    → (is_positive pid ≡ true)
      × (host.probe pid ≢ no_process)
      × (host.lock_is_file ≡ true)
      × (host.flock ≡ blocked)
      × (host.recorded ≡ some pid)
unfolding verify_session
verify_session-matches host pid h = ground (arith, check_recorded-matches host.recorded pid)

-- The lock file is changed only when the lock is won, and then only a singly linked regular file of
-- this user's; every refusal before that leaves the file and what it records as they were.
pub acquire_session_lock-effect :
    (answer : Recording) (own_pid : String) (file : Option LockFile)
    → ((e : LockError)
        → (acquire_session_lock answer own_pid file).0 ≡ err e
        → e ≢ not_recorded
        → (acquire_session_lock answer own_pid file).1 ≡ file)
      × ((acquire_session_lock answer own_pid file).0 ≡ ok tt
          → (f : LockFile) × (file ≡ some f)
            × (f.is_regular ≡ true)
            × (f.is_own ≡ true)
            × (f.links ≡ 1)
            × (f.flock ≡ won)
            × ((acquire_session_lock answer own_pid file).1
                ≡ some (record f { flock = blocked; content = own_pid })))
unfolding acquire_session_lock
acquire_session_lock-effect answer own_pid none = (λ e h other. refl, λ h. cc)
acquire_session_lock-effect recorded_pid own_pid (some f) = (
  λ e h other. ground arith,
  λ h. (f, refl, ground arith, ground arith, ground arith, ground arith, ground arith),
)
acquire_session_lock-effect (leaves rest) own_pid (some f) = (
  λ e h other. ground arith,
  λ h. (f, refl, ground arith, ground arith, ground arith, ground arith, ground arith),
)
