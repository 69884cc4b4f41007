-- ===== src/Daemon/Seam.antt =====
-- What a failed start leaves behind, before the launch of the worker and after it.
use tunstrap.Common.{
  ℕ, String, ◌≡◌, refl, sym, ◌⊎◌, inl, inr, Bool, true, false, Option, none, some, List, ℤ, Result,
  ok, err,
}
use tunstrap.Errors.{
  exception, end, get, is_secret, scrub, scrub_entries, handshake_error, make_error, Raised,
  is_handshake,
}
use tunstrap.Daemon.Reap.{Process}
use tunstrap.Daemon.Frame.{Frame, Message}
use tunstrap.Daemon.Spawn.{
  LogTarget, Sent, accepted, os_error as broken, raises, System, Spawned, open_log_target,
  with_handles, converse, minted_root, launch, worker_root, in_root, with_log, spawn_daemon,
}
use tunstrap.Daemon.Recovery.{
  IsLaunchFailure, with_handles-bare, read_ipc_response-failure, err_injective,
}

converse-failure :
    (decode : List ℕ → Frame) (timeout : ℕ) (s : System) (p : Process) (root : String)
    (has_stdin : Bool) (sent : Sent) (e : Raised)
    → with_handles root p.pid (converse decode timeout s p has_stdin sent).outcome ≡ err e
    → IsLaunchFailure sent root p.pid e
unfolding converse make_error scrub scrub_entries is_secret is_handshake get with_handles
converse-failure decode timeout s p root false sent e h = inl (
    with_handles-bare root p.pid _ e
      (make_error handshake_error "worker stdin pipe unavailable" end, refl, refl, refl, refl) h)
converse-failure decode timeout s p root true (raises name) e h =
    inr (inr (name, refl, sym (err_injective h)))
converse-failure decode timeout s p root true accepted e h =
    read_ipc_response-failure decode timeout s.now p s.arrivals root accepted e h
converse-failure decode timeout s p root true broken e h =
    read_ipc_response-failure decode timeout s.now p s.arrivals root broken e h

launched_outcome :
    (sent : Sent) (root : String) (pid : ℤ) (outcome : Result Raised Message)
    → ((e : Raised) → outcome ≡ err e → IsLaunchFailure sent root pid e)
    → ((m : Message) × (outcome ≡ ok m))
      ⊎ ((e : Raised) × (outcome ≡ err e) × IsLaunchFailure sent root pid e)
launched_outcome sent root pid (ok m) h = inl (m, refl)
launched_outcome sent root pid (err e) h = inr (e, refl, h e refl)

-- What holds of a start: without a worker it is an exception, and with one it is a message, or an error
-- of the launch.
abbrev pub IsSeam : System → Option String → Spawned → Type 0
IsSeam s session_dir r =
    ((r.worker ≡ none)
      × ((name : String) × (r.outcome ≡ err (exception name)))
      × (s.rmdir_works ≡ true → r.root_left ≡ none))
    ⊎ ((p : Process) × (root : String) × (r.worker ≡ some p)
        × (worker_root s session_dir ≡ ok root)
        × (r.root_left ≡ minted_root session_dir root)
        × (r.write_closed ≡ true)
        × (((m : Message) × (r.outcome ≡ ok m))
            ⊎ ((e : Raised) × (r.outcome ≡ err e) × IsLaunchFailure s.sent root p.pid e)))

launch-IsSeam :
    (decode : List ℕ → Frame) (timeout : ℕ) (s : System) (session_dir : Option String)
    (root : String) (popen : Result String Process)
    → worker_root s session_dir ≡ ok root
    → IsSeam s session_dir (launch decode timeout s session_dir root popen)
unfolding launch
launch-IsSeam decode timeout s session_dir root (err name) h =
    inl (refl, (name, refl), λ works. rw works refl)
launch-IsSeam decode timeout s session_dir root (ok p) h = inr (
  p,
  root,
  refl,
  h,
  refl,
  refl,
  launched_outcome s.sent root p.pid _
      (λ e. converse-failure decode timeout s p root s.has_stdin s.sent e),
)

in_root-IsSeam :
    (decode : List ℕ → Frame) (timeout : ℕ) (s : System) (session_dir : Option String)
    (minted : Result String String)
    → worker_root s session_dir ≡ minted
    → IsSeam s session_dir (in_root decode timeout s session_dir minted)
unfolding in_root
in_root-IsSeam decode timeout s session_dir (err name) h = inl (refl, (name, refl), λ works. refl)
in_root-IsSeam decode timeout s session_dir (ok root) h =
    launch-IsSeam decode timeout s session_dir root s.popen h

-- A start without a worker raises an exception, no error of the tool, and leaves no root that it minted when `rmdir` works.
-- Once a worker is launched, the write end is closed here, a minted root stays, and the result is
-- a message, or a handshake error that names the directory and, if it is positive, the worker's pid,
-- or what the decoding of the frame raises, or what the sending of the schema raises.
pub spawn_daemon-IsSeam :
    (decode : List ℕ → Frame) (timeout : ℕ) (s : System) (log session_dir : Option String)
    → IsSeam s session_dir (spawn_daemon decode timeout s log session_dir)
unfolding spawn_daemon with_log open_log_target
spawn_daemon-IsSeam decode timeout s log session_dir = go s.log_opens log
  where
    go :
        (opens : Bool) (path : Option String)
        → IsSeam s session_dir (with_log decode timeout s session_dir (open_log_target opens path))
    go opens none = in_root-IsSeam decode timeout s session_dir (worker_root s session_dir) refl
    go true (some path) =
        in_root-IsSeam decode timeout s session_dir (worker_root s session_dir) refl
    go false (some path) = inl (refl, ("OSError", refl), λ works. refl)

-- Whichever way the start ends, once the log file is open the write end of the pipe is closed here,
-- and the read end too, unless the sending of the schema raises what is no `OSError`.
pub spawn_daemon_closes :
    (decode : List ℕ → Frame) (timeout : ℕ) (s : System) (log session_dir : Option String)
    (target : LogTarget)
    → open_log_target s.log_opens log ≡ ok target
    → ((spawn_daemon decode timeout s log session_dir).write_closed ≡ true)
      × (((spawn_daemon decode timeout s log session_dir).read_closed ≡ true)
          ⊎ ((name : String) × (s.sent ≡ raises name)))
unfolding spawn_daemon with_log converse launch in_root
spawn_daemon_closes decode timeout s log session_dir target h =
    rw h (by_root (worker_root s session_dir))
  where
    by_sent :
        (p : Process) (has_stdin : Bool) (sent : Sent)
        → ((converse decode timeout s p has_stdin sent).read_closed ≡ true)
          ⊎ ((name : String) × (sent ≡ raises name))
    by_sent p false sent = inl refl
    by_sent p true accepted = inl refl
    by_sent p true broken = inl refl
    by_sent p true (raises name) = inr (name, refl)

    by_popen :
        (root : String) (popen : Result String Process)
        → ((launch decode timeout s session_dir root popen).write_closed ≡ true)
          × (((launch decode timeout s session_dir root popen).read_closed ≡ true)
              ⊎ ((name : String) × (s.sent ≡ raises name)))
    by_popen root (err e) = (refl, inl refl)
    by_popen root (ok p) = (refl, by_sent p s.has_stdin s.sent)

    by_root :
        (root : Result String String)
        → ((in_root decode timeout s session_dir root).write_closed ≡ true)
          × (((in_root decode timeout s session_dir root).read_closed ≡ true)
              ⊎ ((name : String) × (s.sent ≡ raises name)))
    by_root (err e) = (refl, inl refl)
    by_root (ok root) = by_popen root s.popen
