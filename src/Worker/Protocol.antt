-- ===== src/Worker/Protocol.antt =====
-- What a worker tells its parent agrees with how it ends.
use tunstrap.Common.{
  zero, suc, String, ◌≡◌, refl, ◌⊎◌, inl, inr, Bool, true, false, List, [], ◌∷◌, Result, ok, err,
  contains, ◌=t=◌,
}
use tunstrap.Session.Create.{Failure, session_error, session_active, os_error}
use tunstrap.Worker.Supervise.{Event, Ending, waiting, shut_down, supervise}
use tunstrap.Daemon.Frame.{known_kinds}
use tunstrap.Run.Command.{worker_exit}
use tunstrap.Worker.Entry.{
  Act, framed, closed, identified, stopped, cleaned, disposed, Exit, exits, crashes, watches, Life,
  Sending, sent, broken, short, Reading, valid, refused, unexpected, Building, built,
  required_failed, raised, Surroundings, ends, then_does, failed, report_pre_run_failure,
  write_message, supervised, on_building, run, with_session, report_session_active, on_created,
  main,
}

abbrev pub frames : List Act → List String
frames [] = []
frames (framed kind ∷ acts) = kind ∷ frames acts
frames (closed ∷ acts) = frames acts
frames (identified ∷ acts) = frames acts
frames (stopped ∷ acts) = frames acts
frames (cleaned ∷ acts) = frames acts
frames (disposed d ∷ acts) = frames acts

abbrev pub lets_go : List Act → Bool
lets_go [] = false
lets_go (cleaned ∷ acts) = true
lets_go (disposed d ∷ acts) = true
lets_go (framed kind ∷ acts) = lets_go acts
lets_go (closed ∷ acts) = lets_go acts
lets_go (identified ∷ acts) = lets_go acts
lets_go (stopped ∷ acts) = lets_go acts

abbrev pub is_created : Result Failure Bool → Bool
is_created (ok generated) = true
is_created (err e) = false

-- Why an exception leaves a worker: the pipe fails, or the schema is not read as `_run` expects.
abbrev pub IsCrash : Sending → Reading → Type 0
IsCrash sending reading = (sending ≡ broken) ⊎ ((sending ≡ short) ⊎ (reading ≡ unexpected))

-- The frames of a life, by its exit: `created` says whether a session directory was made, `sending`
-- how a frame is written, and `reading` how the schema is read.
abbrev pub Tells : Bool → Sending → Reading → Exit → List Act → Type 0
Tells created sending reading crashes acts = (frames acts ≡ []) × IsCrash sending reading
Tells created sending reading watches acts = (frames acts ≡ "success" ∷ []) × (lets_go acts ≡ false)
Tells created sending reading (exits zero) acts =
    (frames acts ≡ "success" ∷ []) × (lets_go acts ≡ true)
Tells created sending reading (exits (suc n)) acts =
    (((frames acts ≡ []) × (sending ≡ broken))
      ⊎ ((kind : String) × (frames acts ≡ kind ∷ [])
          × (contains known_kinds kind ≡ true)
          × ((kind =t= "success") ≡ false)
          × (worker_exit kind ≡ suc n)))
    × (created ≡ true → lets_go acts ≡ true)

abbrev TellsOf : Bool → Sending → Reading → Life → Type 0
TellsOf created sending reading life = Tells created sending reading life.exit life.acts

supervised-Tells :
    (reading : Reading) (e : Ending)
    → TellsOf true sent reading (then_does (framed "success") (then_does closed (supervised e)))
unfolding supervised
supervised-Tells reading (waiting s) = (refl, refl)
supervised-Tells reading (shut_down d s) = (refl, refl)

failed-Tells :
    (sending : Sending) (reading : Reading)
    → TellsOf true sending reading (report_pre_run_failure sending failed)
unfolding report_pre_run_failure worker_exit
failed-Tells sent reading = (inr ("daemon_error", refl, refl, refl, refl), λ c. refl)
failed-Tells broken reading = (inl (refl, refl), λ c. refl)
failed-Tells short reading = (refl, inr (inl refl))

on_building-Tells :
    (sending : Sending) (reading : Reading) (events : List Event) (b : Building)
    → TellsOf true sending reading (on_building sending events b)
unfolding on_building write_message report_pre_run_failure worker_exit
on_building-Tells sent reading events raised =
    (inr ("daemon_error", refl, refl, refl, refl), λ c. refl)
on_building-Tells broken reading events raised = (inl (refl, refl), λ c. refl)
on_building-Tells short reading events raised = (refl, inr (inl refl))
on_building-Tells sent reading events required_failed =
    (inr ("required_failure", refl, refl, refl, refl), λ c. refl)
on_building-Tells broken reading events required_failed = (refl, inl refl)
on_building-Tells short reading events required_failed = (refl, inr (inl refl))
on_building-Tells sent reading events (built live) =
    supervised-Tells reading (supervise events live)
on_building-Tells broken reading events (built live) = (refl, inl refl)
on_building-Tells short reading events (built live) = (refl, inr (inl refl))

run-Tells :
    (sending : Sending) (events : List Event) (b : Building) (reading : Reading)
    → TellsOf true sending reading (run sending events b reading)
unfolding run
run-Tells sending events b refused = failed-Tells sending refused
run-Tells sending events b unexpected = (refl, inr (inr refl))
run-Tells sending events b valid = on_building-Tells sending valid events b

identified-Tells :
    (sending : Sending) (reading : Reading) (life : Life)
    → TellsOf true sending reading life
    → TellsOf true sending reading (then_does identified life)
identified-Tells sending reading life h = by_exit life.exit refl h
  where
    by_exit :
        (e : Exit)
        → life.exit ≡ e
        → Tells true sending reading e life.acts
        → Tells true sending reading e (identified ∷ life.acts)
    by_exit crashes same h = h
    by_exit watches same h = h
    by_exit (exits zero) same h = h
    by_exit (exits (suc n)) same h = h

without_session-Tells :
    (sending : Sending) (reading : Reading)
    → TellsOf false sending reading (report_pre_run_failure sending (ends [] (exits 4)))
unfolding report_pre_run_failure worker_exit
without_session-Tells sent reading = (inr ("daemon_error", refl, refl, refl, refl), λ c. cc)
without_session-Tells broken reading = (inl (refl, refl), λ c. cc)
without_session-Tells short reading = (refl, inr (inl refl))

on_created-Tells :
    (sending : Sending) (reading : Reading) (next : Life) (identity_written : Bool)
    (created : Result Failure Bool)
    → TellsOf true sending reading next
    → TellsOf
        (is_created created)
        sending
        reading
        (on_created sending next identity_written created)
unfolding on_created with_session report_session_active report_pre_run_failure worker_exit
on_created-Tells sending reading next i (err session_error) h =
    without_session-Tells sending reading
on_created-Tells sending reading next i (err os_error) h = without_session-Tells sending reading
on_created-Tells sent reading next i (err session_active) h =
    (inr ("session_active", refl, refl, refl, refl), λ c. cc)
on_created-Tells broken reading next i (err session_active) h = (inl (refl, refl), λ c. cc)
on_created-Tells short reading next i (err session_active) h = (refl, inr (inl refl))
on_created-Tells sending reading next true (ok g) h = identified-Tells sending reading next h
on_created-Tells sent reading next false (ok g) h =
    (inr ("daemon_error", refl, refl, refl, refl), λ c. refl)
on_created-Tells broken reading next false (ok g) h = (inl (refl, refl), λ c. refl)
on_created-Tells short reading next false (ok g) h = (refl, inr (inl refl))

-- A worker writes one frame at most, of one of the four kinds that the parent knows. It says
-- `success` exactly if it goes on to watch its tunnels, or has done so and exits with 0 with its
-- session disposed of. When it exits with another code, it has written no frame, and then the pipe
-- is broken, or one whose kind is no success and for which `run` exits with the same code, and if it
-- had made a session directory, it has cleaned it up. A worker that an exception ends wrote no frame,
-- and then the pipe is broken or takes short writes only, or the schema met an error that `_run` does
-- not name.
pub main-Tells :
    (w : Surroundings)
    → Tells (is_created w.created) w.sending w.reading (main w).exit (main w).acts
unfolding main
main-Tells w =
    on_created-Tells w.sending w.reading (run w.sending w.events w.building w.reading)
      w.identity_written w.created (run-Tells w.sending w.events w.building w.reading)
