-- ===== src/Examples/Handshakes.antt =====
-- A worker that answers in two pieces, and the error of a start that it does not answer.
use tunstrap.Common.{
  ltb, if◌then◌else◌, ℕ, ◌≡◌, ◌≤◌, ◌<◌, ◌*◌, refl, String, true, false, none, some, Option, [], ◌∷◌,
  List, pos, ok, contains,
}
use tunstrap.Errors.{
  Entries, is_secret, text, number, dict, list, nil, item, end, entry, schema_validation,
  make_error,
}
use tunstrap.Errors.Scrubbing.{entries_have_secret, make_error_clean}
use tunstrap.Daemon.Reap.{Process, expired, exited}
use tunstrap.Daemon.Frame.{
  Frame, object, not_json, bytes, arrival, Arrival, Message, known_kinds, accept_frame,
  read_ipc_response,
}
use tunstrap.Daemon.Handshake.{written, spent, read_ipc_response_lem}
use tunstrap.Daemon.Spawn.{System, accepted, spawn_daemon}
use tunstrap.Daemon.Seam.{IsSeam, spawn_daemon-IsSeam}

abbrev details : Entries
details = entry "value" (text "root@host") (
    entry "nodes"
      (list (
        item (dict (entry "ssh_pkey" (text "-----BEGIN") (entry "port" (number (pos 22)) end)))
          nil))
      (entry "ssh_password" (text "hunter2") end))

details_are_secret : entries_have_secret details ≡ true
unfolding entries_have_secret is_secret
details_are_secret = refl

make_error_clean_example :
    entries_have_secret (make_error schema_validation "bad input" details).details ≡ false
make_error_clean_example = make_error_clean schema_validation "bad input" details

abbrev pub worker : Process
worker = record {
  pid = pos 4711;
  ended = false;
  on_terminate = expired;
  ended_then = false;
  ended_before_kill = false;
  on_kill = exited;
  ended_at_last = true;
}

abbrev pub frame : List ℕ → Frame
frame (b ∷ c ∷ []) = if ltb b c then object "success" (some "payload") else not_json 0
frame _ = not_json 0

abbrev in_two_pieces : List Arrival
in_two_pieces =
    arrival 700 (bytes (83 ∷ [])) ∷ arrival 20 (bytes (85 ∷ [])) ∷ arrival 1 (bytes []) ∷ []

read_in_time :
    read_ipc_response frame 30 5 worker in_two_pieces
    ≡ ok (record { kind = "success"; payload = some "payload" })
unfolding read_ipc_response accept_frame
read_in_time = refl

read_ipc_response_lem_example :
    ((m : Message)
      → read_ipc_response frame 30 5 worker in_two_pieces ≡ ok m
      → (w : List ℕ) × (written in_two_pieces ≡ some w)
        × (spent in_two_pieces ≤ 30 * 1000)
        × (frame w ≡ object m.kind m.payload)
        × (contains known_kinds m.kind ≡ true))
    × ((b : ℕ) (bs : List ℕ) (kind : String) (payload : Option String)
        → written in_two_pieces ≡ some (b ∷ bs)
        → spent in_two_pieces < 30 * 1000
        → frame (b ∷ bs) ≡ object kind payload
        → contains known_kinds kind ≡ true
        → read_ipc_response frame 30 5 worker in_two_pieces
          ≡ ok (record { kind = kind; payload = payload }))
read_ipc_response_lem_example = read_ipc_response_lem frame 30 5 worker in_two_pieces

-- Nothing arrives.
abbrev pub silent : System
silent = record {
  log_opens = true;
  minted = ok "/tmp/tunstrap-1";
  popen = ok worker;
  has_stdin = true;
  sent = accepted;
  now = 0;
  arrivals = [];
  rmdir_works = true;
}

spawn_daemon-IsSeam_example :
    IsSeam silent none (spawn_daemon frame 30 silent (some "/tmp/log") none)
spawn_daemon-IsSeam_example = spawn_daemon-IsSeam frame 30 silent (some "/tmp/log") none
