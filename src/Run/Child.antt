-- ===== src/Run/Child.antt =====
-- `_run_child` and `_supervise_child` of tunstrap/cli.py, with `_teardown_run` at the end.
use tunstrap.Common.{
  ℕ, suc, ◌+◌, String, Bool, Option, none, some, List, [], ◌∷◌, ◌++◌, ℤ, pos, negsuc, Result, ok,
  err,
}
use tunstrap.Common.Dict.{Dict}
use tunstrap.Errors.{Raised, exception}
use tunstrap.Environment.{EnvError, Exported, build_child_env}
use tunstrap.Lifecycle.{PidFile, Survivors, Teardown, teardown_run}
use tunstrap.Stop.{System}
use tunstrap.Run.Arguments.{Flags}

-- What `run` does outside its own process: it makes a directory, starts the worker, starts the child
-- with an environment, tears the session down, removes a directory that it made, or writes an error
-- to stderr.
pub data Event : Type 0 where
  made_root : String → Event
  spawned : Event
  child_started : List String → Dict String → Event
  torn_down : Teardown → Event
  discarded : String → Event
  reported : Event

-- How `subprocess.Popen` of the child ends: it may fail, or the child ends with a return code, or
-- the parent's wait for it raises.
pub data Launch : Type 0 where
  os_error : Launch
  raises : Raised → Launch
  started : Result Raised ℤ → Launch

-- What the part behind the spawn meets: the success payload as `OutputSchema` reads it, what
-- `write_materialized_output` raises, the inherited environment, the child, and the saving and
-- restoring of the signal handlers.
pub record Surroundings : Type 0 where
  pub validated : Result Raised Exported
  pub written : Option Raised
  pub inherited : Dict String
  pub launch : Launch
  pub saving : Option Raised
  pub restoring : Option Raised

-- What the teardown meets.
pub record Ending : Type 0 where
  pub has_loss : Bool
  pub file : PidFile
  pub system : System
  pub left : Survivors

pub record Supervised : Type 0 where
  pub outcome : Result Raised ℕ
  pub events : List Event

-- A child that was killed by a signal has a negative return code.
unfoldable pub child_code : ℤ → ℕ
child_code (pos n) = n
child_code (negsuc n) = 128 + suc n

abbrev pub coded : Result Raised ℤ → Result Raised ℕ
unfolding child_code
coded (ok n) = ok (child_code n)
coded (err e) = err e

-- `Popen` and what follows.
unfoldable pub launch_child : List String → Dict String → Launch → Supervised
unfolding coded
launch_child cmd env os_error = record { outcome = ok 127; events = reported ∷ [] }
launch_child cmd env (raises e) = record { outcome = err e; events = [] }
launch_child cmd env (started end) = record {
  outcome = coded end;
  events = child_started cmd env ∷ [];
}

abbrev pub stopped_by : Raised → Supervised
stopped_by e = record { outcome = err e; events = [] }

unfoldable pub with_env : List String → Launch → Result EnvError (Dict String) → Supervised
unfolding launch_child
with_env cmd l (err e) = stopped_by (exception "ValueError")
with_env cmd l (ok env) = launch_child cmd env l

unfoldable pub with_output :
    Flags → List String → Surroundings → Option Raised → Result Raised Exported → Supervised
unfolding with_env
with_output f cmd w written (err e) = stopped_by e
with_output f cmd w (some e) (ok out) = stopped_by e
with_output f cmd w none (ok out) =
    with_env cmd w.launch
      (build_child_env out f.output_var f.input_env f.suppress_kubeconfig w.inherited)

-- `_run_child`
unfoldable pub run_child : Flags → List String → Surroundings → Supervised
unfolding with_output
run_child f cmd w = with_output f cmd w w.written w.validated

-- The `try` of `_supervise_child`.
unfoldable pub under_handlers : Flags → List String → Surroundings → Option Raised → Supervised
unfolding run_child
under_handlers f cmd w none = run_child f cmd w
under_handlers f cmd w (some e) = stopped_by e

abbrev pub restored : Option Raised → Result Raised ℕ → Result Raised ℕ
restored none outcome = outcome
restored (some e) outcome = err e

-- `_teardown_run` with a root that `run` made, or without one.
unfoldable pub tear_down : Ending → ℕ → Bool → Event
tear_down e grace minted =
    torn_down (teardown_run e.has_loss minted e.file (pos grace) e.system e.left)

-- `_supervise_child`
unfoldable pub supervise_child : Flags → List String → Surroundings → Ending → ℕ → Bool → Supervised
unfolding under_handlers tear_down
supervise_child f cmd w e grace minted =
    let run = under_handlers f cmd w w.saving in
    record {
      outcome = restored w.restoring run.outcome;
      events = run.events ++ tear_down e grace minted ∷ [];
    }
