-- ===== src/Daemon/Spawn.antt =====
-- `spawn_daemon`, `_open_log_target` and `_worker_env` of tunstrap/daemon.py. What the system answers
-- is a record; the result says what is left of the descriptors and of a root that was minted here.
use tunstrap.Common.{
  ℕ, String, Bool, true, false, Option, none, some, List, ℤ, is_positive, Result, ok, err,
  if◌then◌else◌,
}
use tunstrap.Common.Dict.{Dict, erase}
use tunstrap.Errors.{
  text, number, end, set_default, TunstrapError, Raised, tunstrap_error, exception, is_handshake,
}
use tunstrap.Daemon.Reap.{Process}
use tunstrap.Daemon.Frame.{Arrival, Frame, Message, handshake, read_ipc_response}

pub data LogTarget : Type 0 where
  devnull log_file : LogTarget

-- How the schema goes down the worker's stdin: a broken pipe is an `OSError` too, and `raises` is
-- another exception, of its serialisation for instance.
pub data Sent : Type 0 where
  accepted os_error : Sent
  raises : String → Sent

-- The answers of `open`, `mkdtemp` (its real path), `Popen` (with a stdin or without), the pipes and
-- `rmdir`, and the clock when the parent begins to read. A failure is the name of its exception.
pub record System : Type 0 where
  pub log_opens : Bool
  pub minted : Result String String
  pub popen : Result String Process
  pub has_stdin : Bool
  pub sent : Sent
  pub now : ℕ
  pub arrivals : List Arrival
  pub rmdir_works : Bool

pub record Spawned : Type 0 where
  pub outcome : Result Raised Message
  pub worker : Option Process
  pub read_closed : Bool
  pub write_closed : Bool
  pub root_left : Option String

-- `_open_log_target`, with whether `open` works
unfoldable pub open_log_target : Bool → Option String → Result Raised LogTarget
open_log_target opens none = ok devnull
open_log_target true (some path) = ok log_file
open_log_target false (some path) = err (exception "OSError")

-- `_worker_env`
unfoldable pub worker_env : Option String → Dict String → Dict String
worker_env none env = env
worker_env (some name) env = erase name env

-- What the handler of `DaemonHandshakeError` adds to the details.
unfoldable pub add_handles : String → ℤ → TunstrapError → TunstrapError
add_handles root pid e =
    let details = set_default "session_dir" (text root) e.details in
    record {
      kind = e.kind;
      message = e.message;
      details = if is_positive pid then set_default "pid" (number pid) details else details;
    }

unfoldable pub with_handles : String → ℤ → Result Raised Message → Result Raised Message
unfolding add_handles
with_handles root pid (err (tunstrap_error e)) =
    if is_handshake e.kind
    then err (tunstrap_error (add_handles root pid e))
    else err (tunstrap_error e)
with_handles root pid outcome = outcome

pub record Conversation : Type 0 where
  pub outcome : Result Raised Message
  pub read_closed : Bool

-- The part below the launch, with its `try` inside the outer one; `_read_ipc_response` closes the
-- read end on every path.
unfoldable pub converse : (List ℕ → Frame) → ℕ → System → Process → Bool → Sent → Conversation
converse decode timeout s p false sent = record {
  outcome = err (handshake "worker stdin pipe unavailable" end);
  read_closed = true;
}
converse decode timeout s p true (raises name) = record {
  outcome = err (exception name);
  read_closed = false;
}
converse decode timeout s p true accepted = record {
  outcome = read_ipc_response decode timeout s.now p s.arrivals;
  read_closed = true;
}
converse decode timeout s p true os_error = record {
  outcome = read_ipc_response decode timeout s.now p s.arrivals;
  read_closed = true;
}

-- A root that was minted here, if any.
unfoldable pub minted_root : Option String → String → Option String
minted_root none root = some root
minted_root (some dir) root = none

-- From `Popen` on, and its `except` and `finally` clauses.
unfoldable pub launch :
    (List ℕ → Frame) → ℕ → System → Option String → String → Result String Process → Spawned
launch decode timeout s session_dir root (err name) = record {
  outcome = err (exception name);
  worker = none;
  read_closed = true;
  write_closed = true;
  root_left = if s.rmdir_works then none else minted_root session_dir root;
}
launch decode timeout s session_dir root (ok p) =
    let said = converse decode timeout s p s.has_stdin s.sent in
    record {
      outcome = with_handles root p.pid said.outcome;
      worker = some p;
      read_closed = said.read_closed;
      write_closed = true;
      root_left = minted_root session_dir root;
    }

unfoldable pub worker_root : System → Option String → Result String String
worker_root s none = s.minted
worker_root s (some dir) = ok dir

unfoldable pub in_root :
    (List ℕ → Frame) → ℕ → System → Option String → Result String String → Spawned
unfolding launch
in_root decode timeout s session_dir (err name) = record {
  outcome = err (exception name);
  worker = none;
  read_closed = true;
  write_closed = true;
  root_left = none;
}
in_root decode timeout s session_dir (ok root) = launch decode timeout s session_dir root s.popen

unfoldable pub with_log :
    (List ℕ → Frame) → ℕ → System → Option String → Result Raised LogTarget → Spawned
unfolding in_root worker_root
with_log decode timeout s session_dir (err e) = record {
  outcome = err e;
  worker = none;
  read_closed = false;
  write_closed = false;
  root_left = none;
}
with_log decode timeout s session_dir (ok target) =
    in_root decode timeout s session_dir (worker_root s session_dir)

-- `spawn_daemon`
unfoldable pub spawn_daemon :
    (List ℕ → Frame) → ℕ → System → Option String → Option String → Spawned
unfolding with_log open_log_target
spawn_daemon decode timeout s log session_dir =
    with_log decode timeout s session_dir (open_log_target s.log_opens log)
