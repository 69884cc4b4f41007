-- ===== src/Run/Command.antt =====
-- `_run_command` of tunstrap/cli.py, composed of the validation window, `spawn_daemon` of
-- tunstrap/daemon.py and the supervision of the child.
use tunstrap.Common.{
  ℕ, String, Bool, true, false, Option, none, some, List, [], ◌∷◌, ◌++◌, Result, ok, err,
  if◌then◌else◌, ◌=t=◌,
}
use tunstrap.Errors.{Raised, tunstrap_error, base_exception, exit_code_for, is_handshake}
use tunstrap.Daemon.Frame.{Frame, Message}
use tunstrap.Daemon.Reap.{Process}
use tunstrap.Daemon.Spawn.{System, spawn_daemon}
use tunstrap.Run.Arguments.{Channels, Flags, Prepared, prepare}
use tunstrap.Run.Child.{
  Event, made_root, spawned, discarded, reported, Surroundings, Ending, tear_down, supervise_child,
}

-- `sys.exit` with a code, or an exception that leaves the command.
pub data Exit : Type 0 where
  exit : ℕ → Exit
  escapes : Raised → Exit

pub record RunResult : Type 0 where
  pub ending : Exit
  pub events : List Event

-- Everything outside: the input channels, the pattern of a name, the directory that `mkdtemp`
-- makes, the decoding of a frame, the worker, and the part behind the spawn.
pub record World : Type 0 where
  pub channels : Channels
  pub matches : String → Bool
  pub made : Result Raised String
  pub decode : List ℕ → Frame
  pub system : System
  pub surroundings : Surroundings
  pub ending : Ending

unfoldable pub fail_before_child : Raised → List Event → RunResult
fail_before_child (tunstrap_error e) events = record {
  ending = exit (exit_code_for e.kind);
  events = events ++ reported ∷ [];
}
fail_before_child e events = record { ending = escapes e; events = events }

-- The handlers around `_supervise_child`, of which the first list is what was done before.
unfoldable pub finish : List Event → List Event → Result Raised ℕ → RunResult
finish before events (ok code) = record { ending = exit code; events = before ++ events }
finish before events (err (tunstrap_error e)) = record {
  ending = exit (exit_code_for e.kind);
  events = before ++ (events ++ reported ∷ []);
}
finish before events (err base_exception) = record {
  ending = escapes base_exception;
  events = before ++ events;
}
finish before events (err e) = record {
  ending = exit 4;
  events = before ++ (events ++ reported ∷ []);
}

abbrev pub made_here : Result Raised String → Result Raised (String × Option String)
made_here (ok root) = ok (root, some root)
made_here (err e) = err e

-- `_mint_session_dir`: the path to use, and the root that was made
unfoldable pub mint_session_dir :
    Result Raised String → Option String → Result Raised (String × Option String)
mint_session_dir made (some dir) = ok (dir, none)
mint_session_dir made none = made_here made

abbrev pub is_minted : Option String → Bool
is_minted none = false
is_minted (some root) = true

abbrev pub minting : Option String → List Event
minting none = []
minting (some root) = made_root root ∷ []

-- `_discard_minted_root`
unfoldable pub discard_minted_root : Option String → List Event
discard_minted_root none = []
discard_minted_root (some root) = discarded root ∷ []

-- The exit codes of the answers of a worker that are no success.
unfoldable pub worker_exit : String → ℕ
worker_exit kind =
    if kind =t= "required_failure" then 2 else if kind =t= "session_active" then 3 else 4

-- What follows the message of a worker.
unfoldable pub on_message :
    World
    → Flags
    → Prepared
    → Option String
    → List Event
    → Bool
    → Option String
    → String
    → RunResult
unfolding finish supervise_child tear_down discard_minted_root worker_exit
on_message w f p root before success none kind = record {
  ending = exit 4;
  events = before ++ tear_down w.ending p.grace (is_minted root) ∷ reported ∷ [];
}
on_message w f p root before false (some payload) kind = record {
  ending = exit (worker_exit kind);
  events = before ++ (discard_minted_root root ++ reported ∷ []);
}
on_message w f p root before true (some payload) kind =
    let s = supervise_child f p.cmd w.surroundings w.ending p.grace (is_minted root) in
    finish before s.events s.outcome

-- What follows `spawn_daemon`.
unfoldable pub on_spawn :
    World → Flags → Prepared → Option String → List Event → Result Raised Message → RunResult
unfolding on_message fail_before_child
on_spawn w f p root before (ok m) =
    on_message w f p root before (m.kind =t= "success") m.payload m.kind
on_spawn w f p root before (err (tunstrap_error e)) =
    if is_handshake e.kind
    then fail_before_child (tunstrap_error e)
        (before ++ tear_down w.ending p.grace (is_minted root) ∷ [])
    else fail_before_child (tunstrap_error e) (before ++ discard_minted_root root)
on_spawn w f p root before (err e) = record { ending = escapes e; events = before }

abbrev pub launching : Option Process → List Event
launching none = []
launching (some p) = spawned ∷ []

-- The spawn window.
unfoldable pub spawn_window :
    World → Flags → Prepared → Result Raised (String × Option String) → RunResult
unfolding on_spawn
spawn_window w f p (err e) = record { ending = escapes e; events = [] }
spawn_window w f p (ok (path, root)) =
    let s =
      spawn_daemon w.decode p.schema.startup_timeout_seconds w.system p.schema.log_file
        (some path) in
    on_spawn w f p root (minting root ++ launching s.worker) s.outcome

unfoldable pub when_prepared : World → Flags → Result Raised Prepared → RunResult
unfolding fail_before_child spawn_window mint_session_dir
when_prepared w f (err e) = fail_before_child e []
when_prepared w f (ok p) = spawn_window w f p (mint_session_dir w.made f.session_dir)

-- `_run_command`
unfoldable pub run_command : World → Flags → List String → RunResult
unfolding when_prepared
run_command w f args = when_prepared w f (prepare w.channels w.matches f args)
