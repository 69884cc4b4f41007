-- ===== src/Daemon/Handshake.antt =====
-- What the parent reads of the worker's frame before its deadline.
use tunstrap.Common.{
  String, Result, ok, contains, ℕ, ◌+◌, ◌*◌, ◌≤◌, ◌<◌, ◌≡◌, refl, sym, ap, ◌∙◌, inl, inr,
  Bool-cases, true, Option, none, some, List, [], ◌∷◌, ◌++◌, arith,
}
use mathlib.Core.List.{append_assoc, append-nil}
use tunstrap.Daemon.Frame.{
  bytes, failed, Arrival, arrival, before_deadline, Reading, whole, timed_out, os_error, read_parts,
  Frame, not_utf8, not_json, not_object, unhashable_kind, other_kind, object, known_kinds, Message,
  accept_frame, accept_reading, read_ipc_response,
}
use tunstrap.Daemon.Reap.{Process}

abbrev prefixed : List ℕ → Option (List ℕ) → Option (List ℕ)
prefixed chunk none = none
prefixed chunk (some rest) = some (chunk ++ rest)

-- What the worker wrote up to the end of the pipe, if nothing fails before that.
unfoldable pub written : List Arrival → Option (List ℕ)
written [] = none
written (arrival after (bytes []) ∷ more) = some []
written (arrival after (bytes (b ∷ bs)) ∷ more) = prefixed (b ∷ bs) (written more)
written (arrival after (failed errno) ∷ more) = none

-- How long it takes until the end of the pipe.
unfoldable pub spent : List Arrival → ℕ
spent [] = 0
spent (arrival after (bytes []) ∷ more) = after
spent (arrival after (bytes (b ∷ bs)) ∷ more) = after + spent more
spent (arrival after (failed errno) ∷ more) = after

some_injective : {a b : List ℕ} → some a ≡ some b → a ≡ b
some_injective h = cc

unprefixed :
    (chunk rest : List ℕ) (more : Option (List ℕ))
    → prefixed chunk more ≡ some rest
    → (tail : List ℕ) × (more ≡ some tail) × (rest ≡ chunk ++ tail)
unprefixed chunk rest none h = cc
unprefixed chunk rest (some tail) h = (tail, refl, sym (some_injective h))

whole_injective : {a b : List ℕ} → whole a ≡ whole b → a ≡ b
whole_injective h = cc

in_time :
    (deadline now after : ℕ) (next : Reading) (message : List ℕ)
    → before_deadline deadline now after next ≡ whole message
    → (next ≡ whole message) × (now + after ≤ deadline)
unfolding before_deadline
in_time deadline now after next message h = ground arith

before_deadline-eq :
    (deadline now after : ℕ) (next : Reading)
    → now < deadline
    → now + after ≤ deadline
    → before_deadline deadline now after next ≡ next
unfolding before_deadline
before_deadline-eq deadline now after next h g = ground arith

-- A whole message is all that the worker wrote, and its end came in time.
read_parts_sound :
    (deadline now : ℕ) (raw message : List ℕ) (arrivals : List Arrival)
    → read_parts deadline now raw arrivals ≡ whole message
    → (rest : List ℕ) × (written arrivals ≡ some rest)
      × (message ≡ raw ++ rest)
      × (now + spent arrivals ≤ deadline)
unfolding read_parts written spent
read_parts_sound deadline now raw message [] h = cc
read_parts_sound deadline now raw message (arrival after (bytes []) ∷ more) h =
    let (same, bound) = in_time deadline now after (whole raw) message h in
    ([], refl, sym (whole_injective same) ∙ sym (append-nil raw), bound)
read_parts_sound deadline now raw message (arrival after (bytes (b ∷ bs)) ∷ more) h =
    let (here, _) =
      in_time deadline now after (read_parts deadline (now + after) (raw ++ (b ∷ bs)) more) message
        h in
    let (rest, all, eq, bound) =
      read_parts_sound deadline (now + after) (raw ++ (b ∷ bs)) message more here in
    ((b ∷ bs) ++ rest, ap (prefixed (b ∷ bs)) all, eq ∙ append_assoc raw (b ∷ bs) rest, omega arith)
read_parts_sound deadline now raw message (arrival after (failed errno) ∷ more) h =
    let both = in_time deadline now after (os_error errno) message h in cc

-- What is written in time is read whole.
read_parts_complete :
    (deadline now : ℕ) (raw rest : List ℕ) (arrivals : List Arrival)
    → written arrivals ≡ some rest
    → now + spent arrivals < deadline
    → read_parts deadline now raw arrivals ≡ whole (raw ++ rest)
unfolding read_parts written spent
read_parts_complete deadline now raw rest [] h g = cc
read_parts_complete deadline now raw rest (arrival after (bytes []) ∷ more) h g =
    before_deadline-eq deadline now after (whole raw) (omega arith) (omega arith)
    ∙ ap whole (sym (append-nil raw) ∙ ap (λ x. raw ++ x) (some_injective h))
read_parts_complete deadline now raw rest (arrival after (bytes (b ∷ bs)) ∷ more) h g =
    let (tail, all, eq) = unprefixed (b ∷ bs) rest (written more) h in
    before_deadline-eq deadline now after (read_parts deadline (now + after) (raw ++ (b ∷ bs)) more)
      (omega arith) (omega arith)
    ∙ read_parts_complete deadline (now + after) (raw ++ (b ∷ bs)) tail more all (omega arith)
    ∙ ap whole (append_assoc raw (b ∷ bs) tail ∙ ap (λ x. raw ++ x) (sym eq))
read_parts_complete deadline now raw rest (arrival after (failed errno) ∷ more) h g = cc

ok_injective : {E : Type 0} {x y : Message} → ◌≡◌ {A = Result E Message} (ok x) (ok y) → x ≡ y
ok_injective h = cc

accept_frame-ok :
    (f : Frame) (m : Message)
    → accept_frame f ≡ ok m
    → (f ≡ object m.kind m.payload) × (contains known_kinds m.kind ≡ true)
unfolding accept_frame
accept_frame-ok not_utf8 m h = cc
accept_frame-ok not_object m h = cc
accept_frame-ok unhashable_kind m h = cc
accept_frame-ok (not_json n) m h = cc
accept_frame-ok (other_kind k) m h = cc
accept_frame-ok (object kind payload) m h = elim (Bool-cases (contains known_kinds kind)) [
  | inl known ↦
      let same = ok_injective (rw known at h) in
      (
        ap (λ (n : Message). object n.kind n.payload) same,
        ap (λ (n : Message). contains known_kinds n.kind) (sym same) ∙ known,
      )
  | inr unknown ↦ cc (rw unknown at h)
]

accept_reading-ok :
    (decode : List ℕ → Frame) (timeout : ℕ) (p : Process) (r : Reading) (m : Message)
    → accept_reading decode timeout p r ≡ ok m
    → (w : List ℕ) × (r ≡ whole w)
      × (decode w ≡ object m.kind m.payload)
      × (contains known_kinds m.kind ≡ true)
unfolding accept_reading
accept_reading-ok decode timeout p timed_out m h = cc
accept_reading-ok decode timeout p (os_error errno) m h = cc
accept_reading-ok decode timeout p (whole []) m h = cc
accept_reading-ok decode timeout p (whole (b ∷ bs)) m h =
    let (decoded, known) = accept_frame-ok (decode (b ∷ bs)) m h in (b ∷ bs, refl, decoded, known)

accepted :
    (decode : List ℕ → Frame) (timeout : ℕ) (p : Process) (b : ℕ) (bs : List ℕ) (kind : String)
    (payload : Option String)
    → decode (b ∷ bs) ≡ object kind payload
    → contains known_kinds kind ≡ true
    → accept_reading decode timeout p (whole (b ∷ bs))
      ≡ ok (record { kind = kind; payload = payload })
unfolding accept_reading accept_frame
accepted decode timeout p b bs kind payload decoded known = rw decoded (rw known refl)

-- The parent returns a message only when all the bytes that the worker wrote up to the end of the
-- pipe, which came no later than the deadline, decode to an object with that kind and payload, and
-- the kind is one of the four. When the end comes before the deadline, an object of one of the four
-- kinds that the written bytes, at least one, decode to is returned, however the pipe cuts it.
pub read_ipc_response_lem :
    (decode : List ℕ → Frame) (timeout now : ℕ) (p : Process) (arrivals : List Arrival)
    → ((m : Message)
        → read_ipc_response decode timeout now p arrivals ≡ ok m
        → (w : List ℕ) × (written arrivals ≡ some w)
          × (spent arrivals ≤ timeout * 1000)
          × (decode w ≡ object m.kind m.payload)
          × (contains known_kinds m.kind ≡ true))
      × ((b : ℕ) (bs : List ℕ) (kind : String) (payload : Option String)
          → written arrivals ≡ some (b ∷ bs)
          → spent arrivals < timeout * 1000
          → decode (b ∷ bs) ≡ object kind payload
          → contains known_kinds kind ≡ true
          → read_ipc_response decode timeout now p arrivals
            ≡ ok (record { kind = kind; payload = payload }))
unfolding read_ipc_response
read_ipc_response_lem decode timeout now p arrivals = (sound, complete)
  where
    sound :
        (m : Message)
        → read_ipc_response decode timeout now p arrivals ≡ ok m
        → (w : List ℕ) × (written arrivals ≡ some w)
          × (spent arrivals ≤ timeout * 1000)
          × (decode w ≡ object m.kind m.payload)
          × (contains known_kinds m.kind ≡ true)
    sound m h =
        let (w, read, decoded, known) =
          accept_reading-ok decode timeout p (read_parts (now + timeout * 1000) now [] arrivals) m
            h in
        let (rest, all, eq, bound) =
          read_parts_sound (now + timeout * 1000) now [] w arrivals read in
        (w, all ∙ ap some (sym eq), omega arith, decoded, known)

    complete :
        (b : ℕ) (bs : List ℕ) (kind : String) (payload : Option String)
        → written arrivals ≡ some (b ∷ bs)
        → spent arrivals < timeout * 1000
        → decode (b ∷ bs) ≡ object kind payload
        → contains known_kinds kind ≡ true
        → read_ipc_response decode timeout now p arrivals
          ≡ ok (record { kind = kind; payload = payload })
    complete b bs kind payload all bound decoded known =
        ap (accept_reading decode timeout p)
          (read_parts_complete (now + timeout * 1000) now [] (b ∷ bs) arrivals all (omega arith))
        ∙ accepted decode timeout p b bs kind payload decoded known
