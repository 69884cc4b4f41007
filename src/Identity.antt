-- ===== src/Identity.antt =====
-- tunstrap/identity.py: the lock of a session directory, and whether a recorded process holds it.
-- What the system calls answer is a parameter. A call whose exception no handler names raises it.
pub mod Locking
use tunstrap.Common.{
  ℕ, String, Bool, true, false, not, ◌||◌, Option, none, some, ℤ, pos, is_positive, same_int,
  Result, ok, err, ◌==◌, if◌then◌else◌,
}

-- `IdentityCheckResult`
pub data IdentityCheck : Type 0 where
  matches mismatch not_found unavailable : IdentityCheck

-- An `OSError`, a `PermissionError` or a `UnicodeDecodeError` that is not handled.
pub data Raised : Type 0 where
  os_error permission_error unicode_decode_error : Raised

-- `os.kill(pid, 0)`
pub data Probe : Type 0 where
  alive no_process not_permitted : Probe

-- `fcntl.flock(fd, LOCK_EX | LOCK_NB)`
pub data Flock : Type 0 where
  won blocked broken : Flock

-- The answers of the system at one moment: signal 0, whether the lock is a file, whether it opens,
-- its `flock`, and the number in it (`none` for one that cannot be read or is no number).
pub record Host : Type 0 where
  pub probe : ℤ → Probe
  pub lock_is_file : Bool
  pub lock_opens : Bool
  pub flock : Flock
  pub recorded : Option ℤ

-- `_process_exists`
unfoldable pub process_exists : Host → ℤ → Bool
process_exists host pid =
    if not (is_positive pid)
    then false
    else elim (host.probe pid) [ no_process ↦ false | not_permitted ↦ true | alive ↦ true ]

-- The branch of `_check_lock` on which the lock is held.
unfoldable pub check_recorded : Option ℤ → ℤ → IdentityCheck
check_recorded none pid = unavailable
check_recorded (some recorded) pid = if same_int recorded pid then matches else mismatch

-- `_check_lock`
unfoldable pub check_lock : Host → ℤ → Result Raised IdentityCheck
unfolding check_recorded
check_lock host pid = if not host.lock_opens then ok unavailable else elim host.flock [
  | blocked ↦ ok (check_recorded host.recorded pid)
  | won ↦ ok not_found
  | broken ↦ err os_error
]

unfoldable pub verify_session : Host → ℤ → Result Raised IdentityCheck
unfolding process_exists check_lock
verify_session host pid =
    if not (process_exists host pid)
    then ok not_found
    else if not host.lock_is_file
    then ok not_found
    else check_lock host pid

-- The inode behind `session.lock`, as `fstat` and `flock` see it.
pub record LockFile : Type 0 where
  pub is_regular : Bool
  pub is_own : Bool
  pub links : ℕ
  pub flock : Flock
  pub content : String

pub data LockError : Type 0 where
  cannot_open unsafe_file held flock_failed not_recorded : LockError

-- The record behind the flock, by `ftruncate`, `write_all` and `fsync`: it is made, or an `OSError`
-- leaves some text in the file.
pub data Recording : Type 0 where
  recorded_pid : Recording
  leaves : String → Recording

-- The lock is won; when the record fails, the open descriptor goes on holding it.
abbrev pub record_pid :
    Recording → String → LockFile → Result LockError (Unit {0}) × Option LockFile
record_pid recorded_pid own_pid f = (ok tt, some (record f { flock = blocked; content = own_pid }))
record_pid (leaves rest) own_pid f =
    (err not_recorded, some (record f { flock = blocked; content = rest }))

-- `acquire_session_lock`: whether it returns, and the file as it leaves it; `none` for a path that
-- does not open (a symbolic link among them). The text is `f"{os.getpid()}\n"`.
unfoldable pub acquire_session_lock :
    Recording → String → Option LockFile → Result LockError (Unit {0}) × Option LockFile
acquire_session_lock answer own_pid none = (err cannot_open, none)
acquire_session_lock answer own_pid (some f) =
    if not f.is_regular || not f.is_own || not (f.links == 1)
    then (err unsafe_file, some f)
    else elim f.flock [
      | won ↦ record_pid answer own_pid f
      | blocked ↦ (err held, some f)
      | broken ↦ (err flock_failed, some f)
    ]
