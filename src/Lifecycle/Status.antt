-- ===== src/Lifecycle/Status.antt =====
-- `status_command` of tunstrap/cli_stop.py: the keys of what it prints. The loss record is a text.
use tunstrap.Common.{
  String, ◌≡◌, ◌≢◌, refl, Bool, true, false, Option, none, some, List, [], ◌∷◌, ℤ, is_positive,
  Result, ok, err,
}
use tunstrap.Identity.{
  IdentityCheck, matches, mismatch, not_found, unavailable, Raised, unicode_decode_error, Host,
  blocked, no_process, verify_session,
}
use tunstrap.Identity.Locking.{verify_session-matches}
use tunstrap.Lifecycle.{
  PidFile, IdentityError, session_error, identity_unreadable, not_utf8, Json, flag, text,
  read_identity,
}

abbrev pub is_match : IdentityCheck → Bool
is_match matches = true
is_match mismatch = false
is_match not_found = false
is_match unavailable = false

abbrev pub alive_by : Result Raised IdentityCheck → Result Raised Bool
alive_by (err e) = err e
alive_by (ok check) = ok (is_match check)

unfoldable pub is_alive : Host → Result IdentityError ℤ → Result Raised Bool
is_alive host (err session_error) = ok false
is_alive host (err identity_unreadable) = ok false
is_alive host (err not_utf8) = err unicode_decode_error
is_alive host (ok pid) = alive_by (verify_session host pid)

abbrev pub body : Option String → Result Raised Bool → Result Raised (List (String × Json))
body loss (err e) = err e
body none (ok alive) = ok (("alive", flag alive) ∷ [])
body (some loss) (ok alive) = ok (("alive", flag alive) ∷ ("tunnel_loss", text loss) ∷ [])

-- `status_command`
unfoldable pub status_command :
    PidFile → Host → Option String → Result Raised (List (String × Json))
unfolding is_alive
status_command file host loss = body loss (is_alive host (read_identity file))

matched : (r : Result Raised IdentityCheck) → alive_by r ≡ ok true → r ≡ ok matches
matched (err e) h = cc
matched (ok matches) h = refl
matched (ok mismatch) h = cc
matched (ok not_found) h = cc
matched (ok unavailable) h = cc

-- A session is reported alive only if its identity was read and is a positive pid, a process of that
-- number exists, and the lock is a file that is held and records the same pid.
pub is_alive-holds :
    (file : PidFile) (host : Host)
    → is_alive host (read_identity file) ≡ ok true
    → (pid : ℤ) × (read_identity file ≡ ok pid)
      × (is_positive pid ≡ true)
      × (host.probe pid ≢ no_process)
      × (host.lock_is_file ≡ true)
      × (host.flock ≡ blocked)
      × (host.recorded ≡ some pid)
unfolding is_alive
is_alive-holds file host h = go (read_identity file) refl h
  where
    go :
        (r : Result IdentityError ℤ)
        → read_identity file ≡ r
        → is_alive host r ≡ ok true
        → (pid : ℤ) × (read_identity file ≡ ok pid)
          × (is_positive pid ≡ true)
          × (host.probe pid ≢ no_process)
          × (host.lock_is_file ≡ true)
          × (host.flock ≡ blocked)
          × (host.recorded ≡ some pid)
    go (err session_error) read h = cc
    go (err identity_unreadable) read h = cc
    go (err not_utf8) read h = cc
    go (ok pid) read h =
        let (positive, exists, file_there, busy, same) =
          verify_session-matches host pid (matched (verify_session host pid) h) in
        (pid, read, positive, exists, file_there, busy, same)
