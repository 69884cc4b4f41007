-- ===== src/Worker/Entry.antt =====
-- `main` and `_run` of tunstrap/_worker.py: the life of a worker as the list of what it does, with
-- the frames that it writes to its parent. The session directory is made by `SessionDir.create`.
use tunstrap.Common.{ℕ, String, Bool, true, false, List, [], ◌∷◌, Result, ok, err}
use tunstrap.Session.Create.{Failure, session_error, session_active, os_error}
use tunstrap.Worker.Supervise.{Node, Event, Disposal, Ending, waiting, shut_down, supervise}

-- What a worker does: it writes a frame of a kind, closes the pipe, records its identity, calls
-- `stop_all`, cleans the session up, or disposes of it at the end of its watch.
pub data Act : Type 0 where
  framed : String → Act
  closed identified stopped cleaned : Act
  disposed : Disposal → Act

-- It exits with a code, an exception ends it, or it still watches.
pub data Exit : Type 0 where
  exits : ℕ → Exit
  crashes watches : Exit

pub record Life : Type 0 where
  pub acts : List Act
  pub exit : Exit

-- How a frame is written: it raises an `OSError`, or a `DaemonError` behind a short write.
pub data Sending : Type 0 where
  sent broken short : Sending

-- How the schema is read: an error of the four that `_run` names, or another.
pub data Reading : Type 0 where
  valid refused unexpected : Reading

-- What `start_all_and_build_output` gives: an `OutputSchema` with the nodes that live, an
-- `ErrorOutput`, or an `Exception`.
pub data Building : Type 0 where
  built : List Node → Building
  required_failed raised : Building

-- What a worker meets; the events are those of its watch.
pub record Surroundings : Type 0 where
  pub created : Result Failure Bool
  pub identity_written : Bool
  pub reading : Reading
  pub building : Building
  pub sending : Sending
  pub events : List Event

abbrev pub ends : List Act → Exit → Life
ends acts exit = record { acts = acts; exit = exit }

abbrev pub then_does : Act → Life → Life
then_does act life = record { acts = act ∷ life.acts; exit = life.exit }

-- `_report_pre_run_failure`, with what follows it: an `OSError` is passed over.
unfoldable pub report_pre_run_failure : Sending → Life → Life
report_pre_run_failure sent next = then_does (framed "daemon_error") next
report_pre_run_failure broken next = next
report_pre_run_failure short next = ends [] crashes

-- `_write_message` where nothing is caught, with what follows it.
unfoldable pub write_message : String → Sending → Life → Life
write_message kind sent next = then_does (framed kind) next
write_message kind broken next = ends [] crashes
write_message kind short next = ends [] crashes

-- `_supervise`, which closes the tunnels before it disposes of the session.
unfoldable pub supervised : Ending → Life
supervised (waiting s) = ends [] watches
supervised (shut_down disposal s) = ends (stopped ∷ disposed disposal ∷ []) (exits 0)

abbrev pub failed : Life
failed = ends (closed ∷ cleaned ∷ []) (exits 4)

-- Behind `start_all_and_build_output`.
unfoldable pub on_building : Sending → List Event → Building → Life
unfolding report_pre_run_failure write_message supervised
on_building sending events raised = then_does stopped (report_pre_run_failure sending failed)
on_building sending events required_failed =
    then_does stopped
      (write_message "required_failure" sending (ends (closed ∷ cleaned ∷ []) (exits 2)))
on_building sending events (built live) =
    write_message "success" sending (then_does closed (supervised (supervise events live)))

-- `_run`
unfoldable pub run : Sending → List Event → Building → Reading → Life
unfolding on_building report_pre_run_failure
run sending events building refused = report_pre_run_failure sending failed
run sending events building unexpected = ends [] crashes
run sending events building valid = on_building sending events building

-- `main` behind `write_identity`: whether it works, and `_run`.
unfoldable pub with_session : Sending → Life → Bool → Life
unfolding report_pre_run_failure
with_session sending next false =
    then_does cleaned (report_pre_run_failure sending (ends [] (exits 4)))
with_session sending next true = then_does identified next

-- The frame of a session that is somebody else's: an `OSError` is passed over.
unfoldable pub report_session_active : Sending → Life
report_session_active sent = ends (framed "session_active" ∷ closed ∷ []) (exits 3)
report_session_active broken = ends [] (exits 3)
report_session_active short = ends [] crashes

-- `main` behind `SessionDir.create`
unfoldable pub on_created : Sending → Life → Bool → Result Failure Bool → Life
unfolding with_session report_session_active report_pre_run_failure
on_created sending next identity_written (err session_active) = report_session_active sending
on_created sending next identity_written (err session_error) =
    report_pre_run_failure sending (ends [] (exits 4))
on_created sending next identity_written (err os_error) =
    report_pre_run_failure sending (ends [] (exits 4))
on_created sending next identity_written (ok generated) = with_session sending next identity_written

-- `main`
unfoldable pub main : Surroundings → Life
unfolding on_created run
main w =
    on_created w.sending (run w.sending w.events w.building w.reading) w.identity_written w.created
