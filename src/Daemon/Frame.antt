-- ===== src/Daemon/Frame.antt =====
-- `_read_ipc_response` of tunstrap/daemon.py. What arrives in the pipe is a schedule.
use tunstrap.Common.{
  ℕ, ◌+◌, ◌*◌, String, Bool, true, false, Option, List, [], ◌∷◌, ◌++◌, pos, Result, ok, err, ltb,
  leb, contains, ◌||◌, if◌then◌else◌,
}
use tunstrap.Errors.{
  Detail, Entries, text, number, end, entry, TunstrapError, make_error, handshake_error,
  handshake_timeout, Raised, tunstrap_error, exception,
}
use tunstrap.Daemon.Reap.{Process, reap_timed_out_worker}

-- What `select` and `os.read` give once something is ready; no bytes are the end of the pipe.
pub data Ready : Type 0 where
  bytes : List ℕ → Ready
  failed : ℕ → Ready

-- It is ready so long after the parent began to wait for it.
pub data Arrival : Type 0 where
  arrival : ℕ → Ready → Arrival

-- How the loop ends.
pub data Reading : Type 0 where
  whole : List ℕ → Reading
  timed_out : Reading
  os_error : ℕ → Reading

-- A pass of the loop: the deadline is looked at first, and `select` waits no longer than to it.
unfoldable pub before_deadline : ℕ → ℕ → ℕ → Reading → Reading
before_deadline deadline now after next =
    if leb deadline now || ltb deadline (now + after) then timed_out else next

-- The loop: at the end of the schedule nothing more arrives before the deadline.
unfoldable pub read_parts : ℕ → ℕ → List ℕ → List Arrival → Reading
unfolding before_deadline
read_parts deadline now raw [] = timed_out
read_parts deadline now raw (arrival after (bytes []) ∷ more) =
    before_deadline deadline now after (whole raw)
read_parts deadline now raw (arrival after (bytes (b ∷ bs)) ∷ more) =
    before_deadline deadline now after (read_parts deadline (now + after) (raw ++ (b ∷ bs)) more)
read_parts deadline now raw (arrival after (failed errno) ∷ more) =
    before_deadline deadline now after (os_error errno)

-- The message, as the parent returns it: its kind, and its payload if it has one.
pub record Message : Type 0 where
  pub kind : String
  pub payload : Option String

-- What `raw.decode`, `json.loads`, `message.get` and the test of the kind make of the bytes: text
-- that is not UTF-8, text that is not JSON, JSON that is no object, an object whose kind cannot be
-- looked up in a set, an object whose kind is no text (with its `str`), or an object with its kind
-- and payload.
pub data Frame : Type 0 where
  not_utf8 not_object unhashable_kind : Frame
  not_json : ℕ → Frame
  other_kind : String → Frame
  object : String → Option String → Frame

abbrev pub known_kinds : List String
known_kinds = "success" ∷ "required_failure" ∷ "daemon_error" ∷ "session_active" ∷ []

abbrev pub handshake : String → Entries → Raised
handshake message details = tunstrap_error (make_error handshake_error message details)

abbrev pub unexpected_kind : String → Raised
unexpected_kind kind = handshake "unexpected IPC message kind" (entry "kind" (text kind) end)

-- The tests behind the decoding.
unfoldable pub accept_frame : Frame → Result Raised Message
accept_frame not_utf8 = err (exception "UnicodeDecodeError")
accept_frame (not_json position) =
    err
      (handshake "worker IPC produced invalid JSON" (entry "position" (number (pos position)) end))
accept_frame not_object = err (exception "AttributeError")
accept_frame unhashable_kind = err (exception "TypeError")
accept_frame (other_kind kind) = err (unexpected_kind kind)
accept_frame (object kind payload) =
    if contains known_kinds kind
    then ok (record { kind = kind; payload = payload })
    else err (unexpected_kind kind)

abbrev pub flag : Bool → Detail
flag true = text "true"
flag false = text "false"

unfoldable pub timeout_error : ℕ → Process → TunstrapError
timeout_error timeout p = make_error handshake_timeout "worker IPC startup response timed out" (
    entry "timeout_seconds" (number (pos timeout)) (
      entry "worker_reaped" (flag (reap_timed_out_worker p).reaped)
        (entry "pid" (number p.pid) end)))

-- The part behind the loop.
unfoldable pub accept_reading : (List ℕ → Frame) → ℕ → Process → Reading → Result Raised Message
unfolding accept_frame timeout_error
accept_reading decode timeout p timed_out = err (tunstrap_error (timeout_error timeout p))
accept_reading decode timeout p (os_error errno) =
    err (handshake "failed to read worker IPC pipe" (entry "errno" (number (pos errno)) end))
accept_reading decode timeout p (whole []) =
    err (handshake "worker IPC pipe closed without a message" end)
accept_reading decode timeout p (whole (b ∷ bs)) = accept_frame (decode (b ∷ bs))

-- `_read_ipc_response`, begun at a time
unfoldable pub read_ipc_response :
    (List ℕ → Frame) → ℕ → ℕ → Process → List Arrival → Result Raised Message
unfolding read_parts accept_reading
read_ipc_response decode timeout now p arrivals =
    accept_reading decode timeout p (read_parts (now + timeout * 1000) now [] arrivals)
