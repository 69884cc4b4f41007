-- ===== src/Examples/Runs.antt =====
-- Runs of a command: a child that fails behind a tunnel, a handshake that breaks, and a session that
-- belongs to somebody else.
use tunstrap.Common.{
  ltb, if◌then◌else◌, ℕ, ◌≡◌, refl, String, true, false, none, some, [], ◌∷◌, List, pos, negsuc, ok,
  All,
}
use tunstrap.Examples.Ending.{willing}
use tunstrap.Run.Releases.{Leads}
use tunstrap.Environment.{Exported, validate_output_var, build_child_env}
use tunstrap.Lifecycle.{number}
use tunstrap.Daemon.Reap.{Process, exited}
use tunstrap.Daemon.Frame.{Frame, object, not_json, bytes, arrival}
use tunstrap.Daemon.Spawn.{System, accepted, with_handles, converse, spawn_daemon}
use tunstrap.Errors.{is_handshake, make_error, exit_code_for}
use tunstrap.Run.Arguments.{Settings, Flags, prepare}
use tunstrap.Run.Child.{started, Surroundings, Ending}
use tunstrap.Run.Command.{World, exit, on_message, on_spawn, run_command}
use tunstrap.Daemon.Frame.{accept_frame, read_ipc_response}
use tunstrap.Run.Ownership.{Held, nothing}
use tunstrap.Run.Settled.{RunFate, run_command_settles}
use tunstrap.Run.Promises.{Keeps}
use tunstrap.Run.Safety.{run_command_safe}

abbrev pub settings : Settings
settings = record {
  materialize = false;
  log_file = none;
  startup_timeout_seconds = 30;
  shutdown_grace_seconds = 10;
}

abbrev flags : Flags
flags = record {
  conn_flags = false;
  auto_stop_idle_seconds = none;
  materialize = false;
  log_file = none;
  input_env = some "MY_INPUT";
  output_var = some "TF_VAR_tunnel";
  session_dir = none;
  grace_seconds = 10;
  grace_seconds_set = false;
  suppress_kubeconfig = false;
}

abbrev worker : Process
worker = record {
  pid = pos 4711;
  ended = false;
  on_terminate = exited;
  ended_then = true;
  ended_before_kill = true;
  on_kill = exited;
  ended_at_last = true;
}

abbrev frame : List ℕ → Frame
frame [] = not_json 0
frame (byte ∷ rest) =
    if ltb byte 66
    then object "session_active" (some "payload")
    else if ltb byte 83
    then not_json 0
    else object "success" (some "payload")

-- The worker writes the given byte and closes the pipe.
abbrev answers : ℕ → System
answers byte = record {
  log_opens = true;
  minted = ok "/tmp/tunstrap-1";
  popen = ok worker;
  has_stdin = true;
  sent = accepted;
  now = 0;
  arrivals = arrival 700 (bytes (byte ∷ [])) ∷ arrival 1 (bytes []) ∷ [];
  rmdir_works = true;
}

abbrev exported : Exported
exported = record {
  session_dir = "/tmp/tunstrap-run-1";
  pid = 4711;
  output_file = "/tmp/tunstrap-run-1/tunnel-data/output.json";
  kube_paths = [];
  projection = "{}";
}

-- The child is killed by SIGTERM.
abbrev surroundings : Surroundings
surroundings = record {
  validated = ok exported;
  written = none;
  inherited = ("MY_INPUT", "secret") ∷ ("HOME", "/root") ∷ [];
  launch = started (ok (negsuc 14));
  saving = none;
  restoring = none;
}

abbrev quiet_ending : Ending
quiet_ending = record {
  has_loss = false;
  file = number (pos 4711);
  system = willing;
  left = record { of_data = []; of_root = [] };
}

abbrev world : ℕ → World
world byte = record {
  channels = record {
    build_schema_from_env = λ var. ok settings;
    build_flag_schema = λ connection f force. ok settings;
  };
  matches = λ name. true;
  made = ok "/tmp/tunstrap-run-1";
  decode = frame;
  system = answers byte;
  surroundings = surroundings;
  ending = quiet_ending;
}

abbrev tofu : List String
tofu = "--" ∷ "tofu" ∷ "plan" ∷ []

killed_child : (run_command (world 83) flags tofu).ending ≡ exit 143
unfolding run_command on_message on_spawn accept_frame prepare validate_output_var spawn_daemon
    with_handles converse read_ipc_response is_handshake make_error exit_code_for build_child_env
killed_child = refl

own_session : (run_command (world 65) flags tofu).ending ≡ exit 3
unfolding run_command on_message on_spawn accept_frame prepare validate_output_var spawn_daemon
    with_handles converse read_ipc_response is_handshake make_error exit_code_for build_child_env
own_session = refl

broken_handshake : (run_command (world 66) flags tofu).ending ≡ exit 4
unfolding run_command on_message on_spawn accept_frame prepare validate_output_var spawn_daemon
    with_handles converse read_ipc_response is_handshake make_error exit_code_for build_child_env
broken_handshake = refl

run_command_settles_example :
    (held : Held) × Leads (some nothing) (run_command (world 83) flags tofu).events held
    × RunFate (world 83) flags tofu held
run_command_settles_example = run_command_settles (world 83) flags tofu

run_command_safe_example : All (Keeps (world 83) flags) (run_command (world 83) flags tofu).events
run_command_safe_example = run_command_safe (world 83) flags tofu
