-- ===== src/Start.antt =====
-- tunstrap/cli.py: the command `start`, from its schema to its exit code, composed with
-- `spawn_daemon` of tunstrap/daemon.py.
pub mod Recovered
use tunstrap.Common.{
  ℕ, String, Bool, true, false, not, ◌||◌, Option, none, some, List, [], ◌∷◌, ℤ, is_positive,
  Result, ok, err, if◌then◌else◌, ◌=t=◌,
}
use tunstrap.Errors.{
  Detail, Entries, text, number, end, entry, get, TunstrapError, make_error, daemon_error, Raised,
  tunstrap_error, usage_error, exception, base_exception, is_handshake, exit_code_for,
}
use tunstrap.Daemon.Frame.{Frame, Message}
use tunstrap.Daemon.Spawn.{System, spawn_daemon}
use tunstrap.Run.Arguments.{Settings}
use tunstrap.Run.Command.{Exit, exit, escapes}

-- A value of the success payload, as far as `isinstance` tells; `nothing` is a missing key.
pub data Value : Type 0 where
  nothing something_else : Value
  str : String → Value
  int : ℤ → Value

-- `payload.get("session_dir")` and `payload.get("pid")`, of a payload that is a dict.
pub record Fields : Type 0 where
  pub session_dir : Value
  pub pid : Value

-- The notice of `_warn_preserved`: the directory to stop, and the root to delete behind that.
pub record Notice : Type 0 where
  pub session_dir : String
  pub minted : Option String

-- What goes to stdout or, as an error, to the stream of the format.
pub data Output : Type 0 where
  silence result : Output
  worker_error : String → Output
  error : TunstrapError → Output

pub record StartResult : Type 0 where
  pub ending : Exit
  pub output : Output
  pub notices : List Notice

-- The pid of a usable handle; a `bool` is `something_else`.
unfoldable pub usable : Value → Value → Option (String × ℤ)
usable (str dir) (int pid) = if is_positive pid then some (dir, pid) else none
usable _ _ = none

abbrev pub handles_of : Option Fields → Option (String × ℤ)
handles_of none = none
handles_of (some f) = usable f.session_dir f.pid

abbrev pub fields_of : (String → Option Fields) → Option String → Option Fields
fields_of fields none = none
fields_of fields (some payload) = fields payload

-- `_start_recovery_handles`
unfoldable pub start_recovery_handles : (String → Option Fields) → Message → Option (String × ℤ)
unfolding usable
start_recovery_handles fields m =
    if m.kind =t= "success" then handles_of (fields_of fields m.payload) else none

abbrev pub failure : Entries → TunstrapError
failure details = make_error daemon_error "unexpected failure during start" details

-- `_report_start_post_spawn_failure`, and the exit behind it
unfoldable pub report_start_post_spawn_failure :
    String → Option (String × ℤ) → Option String → StartResult
report_start_post_spawn_failure type_name (some (dir, pid)) supplied = record {
  ending = exit 4;
  output = error (
      failure (
        entry "type" (text type_name)
          (entry "session_dir" (text dir) (entry "pid" (number pid) end))));
  notices = record { session_dir = dir; minted = none } ∷ [];
}
report_start_post_spawn_failure type_name none (some dir) = record {
  ending = exit 4;
  output = error (failure (entry "type" (text type_name) (entry "session_dir" (text dir) end)));
  notices = record { session_dir = dir; minted = none } ∷ [];
}
report_start_post_spawn_failure type_name none none = record {
  ending = exit 4;
  output = error (failure (entry "type" (text type_name) end));
  notices = [];
}

abbrev pub minted_unless : Option String → String → Option String
minted_unless none dir = some dir
minted_unless (some supplied) dir = none

-- The notice of `_report_start_handshake_failure`.
unfoldable pub handshake_notices : Option String → Option Detail → List Notice
handshake_notices supplied (some (text dir)) =
    record { session_dir = dir; minted = minted_unless supplied dir } ∷ []
handshake_notices supplied _ = []

-- The handlers of `start_command`.
unfoldable pub on_error : Option String → Raised → StartResult
unfolding handshake_notices
on_error supplied usage_error = record {
  ending = escapes usage_error;
  output = silence;
  notices = [];
}
on_error supplied base_exception = record {
  ending = escapes base_exception;
  output = silence;
  notices = [];
}
on_error supplied (exception name) = record {
  ending = exit 4;
  output = error (failure (entry "type" (text name) end));
  notices = [];
}
on_error supplied (tunstrap_error e) = record {
  ending = exit (exit_code_for e.kind);
  output = error e;
  notices =
      if is_handshake e.kind then handshake_notices supplied (get "session_dir" e.details) else [];
}

-- An exception of `_emit_start_result`: only one that is an `Exception` is reported. An error of the
-- tool is named by its base class.
unfoldable pub on_emit_failure : Option (String × ℤ) → Option String → Raised → StartResult
unfolding report_start_post_spawn_failure
on_emit_failure handles supplied (exception name) =
    report_start_post_spawn_failure name handles supplied
on_emit_failure handles supplied (tunstrap_error e) =
    report_start_post_spawn_failure "TunstrapError" handles supplied
on_emit_failure handles supplied usage_error =
    report_start_post_spawn_failure "UsageError" handles supplied
on_emit_failure handles supplied base_exception = record {
  ending = escapes base_exception;
  output = silence;
  notices = [];
}

-- The exit code of a message that is no success; another kind returns, and so exits with 0.
unfoldable pub code_of : String → ℕ
code_of kind =
    if kind =t= "required_failure"
    then 2
    else if kind =t= "daemon_error"
    then 4
    else if kind =t= "session_active"
    then 3
    else 0

-- `_emit_start_result` and its handler: what validating, rendering and writing raise is an answer.
unfoldable pub emit :
    Option (String × ℤ)
    → Option String
    → Option Raised
    → Bool
    → String
    → Option String
    → StartResult
unfolding on_emit_failure code_of
emit handles supplied (some e) success kind (some payload) = on_emit_failure handles supplied e
emit handles supplied raised success kind none =
    on_emit_failure handles supplied (exception "KeyError")
emit handles supplied none true kind (some payload) = record {
  ending = exit 0;
  output = result;
  notices = [];
}
emit handles supplied none false kind (some payload) = record {
  ending = exit (code_of kind);
  output = worker_error payload;
  notices = [];
}

-- Everything outside: the schema, the decoding of a frame and of a payload, the worker, and what the
-- emission of the result raises.
pub record World : Type 0 where
  pub schema : Result Raised Settings
  pub decode : List ℕ → Frame
  pub fields : String → Option Fields
  pub system : System
  pub emission : Option Raised

unfoldable pub on_spawn : World → Option String → Result Raised Message → StartResult
unfolding emit on_error start_recovery_handles
on_spawn w supplied (err e) = on_error supplied e
on_spawn w supplied (ok m) =
    emit (start_recovery_handles w.fields m) supplied w.emission (m.kind =t= "success") m.kind
      m.payload

unfoldable pub with_schema : World → Option String → Result Raised Settings → StartResult
unfolding on_spawn
with_schema w supplied (err e) = on_error supplied e
with_schema w supplied (ok schema) =
    on_spawn w supplied
      (spawn_daemon w.decode schema.startup_timeout_seconds w.system schema.log_file
        supplied).outcome

-- `start_command`, with whether there are words behind `--`
unfoldable pub start_command : World → Bool → Option String → StartResult
unfolding with_schema
start_command w extra supplied =
    if extra then on_error supplied usage_error else with_schema w supplied w.schema
