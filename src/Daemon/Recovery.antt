-- ===== src/Daemon/Recovery.antt =====
-- The errors of a start behind the launch: what they say of the worker.
use tunstrap.Common.{
  ℕ, String, ◌≡◌, refl, sym, ap, ◌∙◌, ◌⊎◌, inl, inr, Bool-cases, Bool, true, false, none, some,
  List, [], ◌∷◌, ℤ, is_positive, Result, ok, err, contains, if◌then◌else◌,
}
use mathlib.Core.Path.{subst}
use tunstrap.Errors.{
  Entries, text, number, get, is_secret, scrub, scrub_entries, set_default, TunstrapError,
  make_error, Raised, tunstrap_error, exception, is_handshake,
}
use tunstrap.Errors.Scrubbing.{get-set_default, get-set_default_other, or_detail}
use tunstrap.Daemon.Reap.{Process}
use tunstrap.Daemon.Frame.{
  Arrival, Frame, Reading, whole, timed_out, os_error, not_utf8, not_json, not_object,
  unhashable_kind, other_kind, object, known_kinds, Message, accept_frame, timeout_error,
  accept_reading, read_ipc_response,
}
use tunstrap.Daemon.Spawn.{Sent, raises, add_handles, with_handles}

-- The errors that are no handshake error: what the decoding of the frame raises.
abbrev pub UndecodableFrame : Raised → Type 0
UndecodableFrame e =
    (e ≡ exception "UnicodeDecodeError")
    ⊎ ((e ≡ exception "AttributeError") ⊎ (e ≡ exception "TypeError"))

-- A handshake error that names neither a directory nor another process.
abbrev IsBare : ℤ → Raised → Type 0
IsBare pid raised =
    (e : TunstrapError) × (raised ≡ tunstrap_error e)
    × (is_handshake e.kind ≡ true)
    × (get "session_dir" e.details ≡ none)
    × (or_detail (get "pid" e.details) (number pid) ≡ number pid)

-- A handshake error that names the directory, and the process if its number is one.
abbrev pub IsRecoverable : String → ℤ → Raised → Type 0
IsRecoverable root pid raised =
    (e : TunstrapError) × (raised ≡ tunstrap_error e)
    × (is_handshake e.kind ≡ true)
    × (get "session_dir" e.details ≡ some (text root))
    × (is_positive pid ≡ true → get "pid" e.details ≡ some (number pid))

pub err_injective : {a b : Raised} → ◌≡◌ {A = Result Raised Message} (err a) (err b) → a ≡ b
err_injective h = cc

accept_frame-err :
    (f : Frame) (pid : ℤ) (e : Raised) → accept_frame f ≡ err e → IsBare pid e ⊎ UndecodableFrame e
unfolding accept_frame make_error scrub scrub_entries is_secret is_handshake get
accept_frame-err not_utf8 pid e h = inr (inl (sym (err_injective h)))
accept_frame-err not_object pid e h = inr (inr (inl (sym (err_injective h))))
accept_frame-err unhashable_kind pid e h = inr (inr (inr (sym (err_injective h))))
accept_frame-err (not_json n) pid e h = inl (_, sym (err_injective h), refl, refl, refl)
accept_frame-err (other_kind k) pid e h = inl (_, sym (err_injective h), refl, refl, refl)
accept_frame-err (object kind payload) pid e h = elim (Bool-cases (contains known_kinds kind)) [
  | inl known ↦ cc (rw known at h)
  | inr unknown ↦ inl (_, sym (err_injective (rw unknown at h)), refl, refl, refl)
]

accept_reading-err :
    (decode : List ℕ → Frame) (timeout : ℕ) (p : Process) (r : Reading) (e : Raised)
    → accept_reading decode timeout p r ≡ err e
    → IsBare p.pid e ⊎ UndecodableFrame e
unfolding accept_reading timeout_error make_error scrub scrub_entries is_secret is_handshake get
accept_reading-err decode timeout p timed_out e h = inl (_, sym (err_injective h), refl, refl, refl)
accept_reading-err decode timeout p (os_error errno) e h =
    inl (_, sym (err_injective h), refl, refl, refl)
accept_reading-err decode timeout p (whole []) e h =
    inl (_, sym (err_injective h), refl, refl, refl)
accept_reading-err decode timeout p (whole (b ∷ bs)) e h =
    accept_frame-err (decode (b ∷ bs)) p.pid e h

-- How the part behind the launch fails.
abbrev pub IsLaunchFailure : Sent → String → ℤ → Raised → Type 0
IsLaunchFailure sent root pid e =
    IsRecoverable root pid e
    ⊎ (UndecodableFrame e ⊎ ((name : String) × (sent ≡ raises name) × (e ≡ exception name)))

root_named :
    (root : String) (es : Entries)
    → get "session_dir" es ≡ none
    → get "session_dir" (set_default "session_dir" (text root) es) ≡ some (text root)
root_named root es h =
    get-set_default "session_dir" (text root) es ∙ ap (λ o. some (or_detail o (text root))) h

pid_named :
    (root : String) (pid : ℤ) (es : Entries)
    → or_detail (get "pid" es) (number pid) ≡ number pid
    → get "pid" (set_default "pid" (number pid) (set_default "session_dir" (text root) es))
      ≡ some (number pid)
pid_named root pid es h =
    get-set_default "pid" (number pid) (set_default "session_dir" (text root) es)
    ∙ ap (λ o. some (or_detail o (number pid)))
        (get-set_default_other "pid" "session_dir" (text root) es refl)
    ∙ ap some h

add_handles-IsRecoverable :
    (root : String) (pid : ℤ) (bare : TunstrapError)
    → is_handshake bare.kind ≡ true
    → get "session_dir" bare.details ≡ none
    → or_detail (get "pid" bare.details) (number pid) ≡ number pid
    → IsRecoverable root pid (tunstrap_error (add_handles root pid bare))
unfolding add_handles
add_handles-IsRecoverable root pid bare kind no_root same_pid =
    (add_handles root pid bare, refl, kind, named (is_positive pid), also_pid (is_positive pid))
  where
    named :
        (positive : Bool)
        → get "session_dir" (
            if positive
            then set_default "pid" (number pid) (set_default "session_dir" (text root) bare.details)
            else set_default "session_dir" (text root) bare.details)
          ≡ some (text root)
    named true =
        get-set_default_other "session_dir" "pid" (number pid)
          (set_default "session_dir" (text root) bare.details) refl
        ∙ root_named root bare.details no_root
    named false = root_named root bare.details no_root

    also_pid :
        (positive : Bool)
        → positive ≡ true
        → get "pid" (
            if positive
            then set_default "pid" (number pid) (set_default "session_dir" (text root) bare.details)
            else set_default "session_dir" (text root) bare.details)
          ≡ some (number pid)
    also_pid true h = pid_named root pid bare.details same_pid
    also_pid false h = cc

pub with_handles-bare :
    (root : String) (pid : ℤ) (raised e : Raised)
    → IsBare pid raised
    → with_handles root pid (err raised) ≡ err e
    → IsRecoverable root pid e
unfolding with_handles
with_handles-bare root pid raised e (bare, eq, kind, no_root, same_pid) h =
    let added = rw (kind) at (rw eq at h) in
    subst (IsRecoverable root pid) (err_injective added)
      (add_handles-IsRecoverable root pid bare kind no_root same_pid)

with_handles-undecodable :
    (root : String) (pid : ℤ) (raised e : Raised)
    → UndecodableFrame raised
    → with_handles root pid (err raised) ≡ err e
    → UndecodableFrame e
unfolding with_handles
with_handles-undecodable root pid raised e (inl eq) h = inl (sym (err_injective (rw eq at h)))
with_handles-undecodable root pid raised e (inr (inl eq)) h =
    inr (inl (sym (err_injective (rw eq at h))))
with_handles-undecodable root pid raised e (inr (inr eq)) h =
    inr (inr (sym (err_injective (rw eq at h))))

pub read_ipc_response-failure :
    (decode : List ℕ → Frame) (timeout now : ℕ) (p : Process) (arrivals : List Arrival)
    (root : String) (sent : Sent) (e : Raised)
    → with_handles root p.pid (read_ipc_response decode timeout now p arrivals) ≡ err e
    → IsLaunchFailure sent root p.pid e
unfolding read_ipc_response with_handles
read_ipc_response-failure decode timeout now p arrivals root sent e h =
    go (read_ipc_response decode timeout now p arrivals) refl h
  where
    go :
        (r : Result Raised Message)
        → read_ipc_response decode timeout now p arrivals ≡ r
        → with_handles root p.pid r ≡ err e
        → IsLaunchFailure sent root p.pid e
    go (ok m) read h = cc
    go (err raised) read h = elim (accept_reading-err decode timeout p _ raised read) [
      | inl bare ↦ inl (with_handles-bare root p.pid raised e bare h)
      | inr undecodable ↦ inr (inl (with_handles-undecodable root p.pid raised e undecodable h))
    ]
