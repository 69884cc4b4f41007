-- ===== src/Stop/Outcomes.antt =====
-- What an outcome of `stop_session` says about the daemon.
use mathlib.Core.Path.{subst}
use tunstrap.Common.{
  ◌≤◌, ◌<◌, ◌==◌, ℕ, zero, suc, ◌+◌, ◌*◌, ◌≡◌, ap, ◌∙◌, Option, none, some, pos, negsuc,
  is_positive, same_int, ltb, refl, inl, inr, ◌⊎◌, Bool-cases, Bool, true, false, ◌||◌, List, [],
  ◌∷◌, ℤ, Result, ok, err, arith,
}
use tunstrap.Identity.{Raised, Probe, alive, no_process, not_permitted, not_found, verify_session}
use tunstrap.Stop.{
  StopOutcome, Poll, probe_exited, has_exited, says_not_found, Sent, signal, sigterm, sigkill,
  System, delivered, gone, Grace, exited, timed_out, no_fuel, raised, Stopped, grace_loop, grace_of,
  rounds, escalate, after_grace_period, terminate, stop_session,
}

abbrev pub grace_period : ℤ → ℤ → System → Grace
grace_period pid grace sys =
    grace_loop (rounds grace) pid sys (sys.started_at + grace_of grace * 1000) sys.started_at 0

-- A poll of the grace period has shown the exit: `waitpid` returned the pid itself, or it failed and
-- signal 0 met no process.
abbrev pub SawExit : ℤ → Poll → Type 0
SawExit pid p = (p.waited ≡ some pid) ⊎ ((p.waited ≡ none) × (p.probe ≡ no_process))

-- One of the polls that the grace period has made, the first that saw an exit.
abbrev pub ExitSeenFrom : ℕ → ℕ → ℤ → System → Type 0
ExitSeenFrom first count pid sys =
    (i : ℕ) × (first ≤ i)
    × (i < first + count)
    × SawExit pid (sys.poll i)
    × ((j : ℕ) → first ≤ j → j < i → has_exited pid (sys.poll j) ≡ ok false)

abbrev pub ExitSeen : ℤ → ℤ → System → Type 0
ExitSeen pid grace sys = ExitSeenFrom 0 (rounds grace) pid sys

abbrev pub MetNoProcess : System → Type 0
MetNoProcess sys = (sys.on_kill ≡ gone) ⊎ (sys.on_kill ≡ delivered)

-- The evidence that the daemon is gone: SIGTERM met no process, or a poll of the grace
-- period behind a SIGTERM saw the exit, or a SIGKILL was sent and met no process or was delivered.
abbrev pub IsGone : ℤ → ℤ → System → List Sent → Type 0
IsGone pid grace sys sent =
    ((sys.on_term ≡ gone) × (sent ≡ signal sigterm pid ∷ []))
    ⊎ (((grace_period pid grace sys ≡ exited)
          × ExitSeen pid grace sys
          × (sent ≡ signal sigterm pid ∷ []))
        ⊎ (MetNoProcess sys × (sent ≡ signal sigterm pid ∷ signal sigkill pid ∷ [])))

abbrev reports_stopped : Result Raised StopOutcome → Bool
reports_stopped (err e) = false
reports_stopped (ok o) = o.stopped

abbrev reports_not_found : Result Raised StopOutcome → Bool
reports_not_found (err e) = false
reports_not_found (ok o) = says_not_found o

-- The same behind the grace period.
abbrev IsGoneAfter : ℤ → ℤ → System → List Sent → Type 0
IsGoneAfter pid grace sys sent =
    ((grace_period pid grace sys ≡ exited) × ExitSeen pid grace sys × (sent ≡ []))
    ⊎ (MetNoProcess sys × (sent ≡ signal sigkill pid ∷ []))

same_int_sound : (a b : ℤ) → same_int a b ≡ true → a ≡ b
same_int_sound (pos m) (pos n) h = ground arith
same_int_sound (pos m) (negsuc n) h = cc
same_int_sound (negsuc m) (pos n) h = cc
same_int_sound (negsuc m) (negsuc n) h = ground arith

probe_saw : (p : Probe) → probe_exited p ≡ ok true → p ≡ no_process
unfolding probe_exited
probe_saw no_process h = refl
probe_saw alive h = cc
probe_saw not_permitted h = cc

has_exited-SawExit :
    (pid : ℤ) (p : Poll) → is_positive pid ≡ true → has_exited pid p ≡ ok true → SawExit pid p
unfolding has_exited
has_exited-SawExit pid p positive h = go p.waited refl (rw positive at h)
  where
    go :
        (w : Option ℤ)
        → p.waited ≡ w
        → elim p.waited [ some answer ↦ ok (same_int answer pid) | none ↦ probe_exited p.probe ]
          ≡ ok true
        → SawExit pid p
    go none e h = inr (e, probe_saw p.probe (rw e at h))
    go (some answer) e h = inl (e ∙ ap some (same_int_sound answer pid (ground arith)))

no_number : (i j : ℕ) → i ≤ j → j < i → ⊥
no_number i j from below = omega arith

grace_loop-ExitSeen :
    (fuel : ℕ) (pid : ℤ) (sys : System) (deadline now i : ℕ)
    → is_positive pid ≡ true
    → grace_loop fuel pid sys deadline now i ≡ exited
    → ExitSeenFrom i fuel pid sys
unfolding grace_loop
grace_loop-ExitSeen zero pid sys deadline now i positive h = cc
grace_loop-ExitSeen (suc fuel) pid sys deadline now i positive h =
    elim (Bool-cases (ltb now deadline)) [
      | inl t ↦
          go (has_exited pid (sys.poll i))
            (grace_loop-ExitSeen fuel pid sys deadline (now + 500 + sys.late i) (i + 1) positive)
            refl (rw t at h)
      | inr t ↦ let no : timed_out ≡ exited = rw t at h in cc
    ]
  where
    go :
        (r : Result Raised Bool)
        → (grace_loop fuel pid sys deadline (now + 500 + sys.late i) (i + 1) ≡ exited
            → ExitSeenFrom (i + 1) fuel pid sys)
        → has_exited pid (sys.poll i) ≡ r
        → elim (has_exited pid (sys.poll i)) [
          | err e ↦ raised e
          | ok true ↦ exited
          | ok false ↦ grace_loop fuel pid sys deadline (now + 500 + sys.late i) (i + 1)
        ]
          ≡ exited
        → ExitSeenFrom i (suc fuel) pid sys
    go (err x) rest e h = let no : raised x ≡ exited = rw e at h in cc
    go (ok true) rest e h = (
      i,
      omega arith,
      omega arith,
      has_exited-SawExit pid (sys.poll i) positive e,
      λ j from below. elim (no_number i j from below) [ ],
    )
    go (ok false) rest e h =
        let (k, from_next, below, saw, before) = rest (rw e at h) in
        (
          k,
          omega arith,
          omega arith,
          saw,
          λ j from j_below. elim (Bool-cases (i == j)) [
            | inl same ↦
                let same_poll : i ≡ j = ground arith in
                subst (λ n. has_exited pid (sys.poll n) ≡ ok false) same_poll e
            | inr differs ↦ before j (ground arith) j_below
          ],
        )

abbrev Evidence : ℤ → ℤ → System → Stopped → Type 0
Evidence pid grace sys s =
    (reports_stopped s.outcome ≡ true → IsGoneAfter pid grace sys s.sent)
    × (reports_not_found s.outcome ≡ false)

escalate-Evidence :
    (pid grace : ℤ) (force : Bool) (sys : System) → Evidence pid grace sys (escalate pid force sys)
unfolding escalate
escalate-Evidence pid grace force sys = (λ h. ground arith, ground arith)

after_grace_period-Evidence :
    (pid grace : ℤ) (force : Bool) (sys : System) (g : Grace)
    → is_positive pid ≡ true
    → grace_period pid grace sys ≡ g
    → Evidence pid grace sys (after_grace_period pid force sys g)
unfolding after_grace_period
after_grace_period-Evidence pid grace force sys exited p e =
    (λ s. inl (e, grace_loop-ExitSeen (rounds grace) pid sys _ _ 0 p e, refl), refl)
after_grace_period-Evidence pid grace force sys timed_out p e =
    escalate-Evidence pid grace force sys
after_grace_period-Evidence pid grace force sys no_fuel p e = (λ h. cc, refl)
after_grace_period-Evidence pid grace force sys (raised x) p e = (λ h. cc, refl)

terminate-Evidence :
    (pid grace : ℤ) (force : Bool) (sys : System)
    → is_positive pid ≡ true
    → (reports_stopped (terminate pid grace force sys).outcome ≡ true
        → IsGone pid grace sys (terminate pid grace force sys).sent)
      × (reports_not_found (terminate pid grace force sys).outcome ≡ false)
unfolding terminate
terminate-Evidence pid grace force sys p =
    let (gone_then, silent) =
      after_grace_period-Evidence pid grace force sys (grace_period pid grace sys) p refl in
    (λ h. ground (arith, gone_then), ground (arith, silent))

stop_session-found :
    (pid grace : ℤ) (force : Bool) (sys : System)
    → (reports_stopped (stop_session pid grace force sys).outcome ≡ true
        → IsGone pid grace sys (stop_session pid grace force sys).sent)
      × (reports_not_found (stop_session pid grace force sys).outcome ≡ true
          → verify_session sys.before pid ≡ ok not_found)
unfolding stop_session
stop_session-found pid grace force sys = elim (Bool-cases (is_positive pid)) [
  | inl p ↦
      let (gone_then, silent) = terminate-Evidence pid grace force sys p in
      (λ h. ground (arith, gone_then), λ h. ground (arith, silent))
  | inr p ↦ (λ h. ground arith, λ h. ground arith)
]

-- An outcome that lets the session's data be deleted rests on evidence: either the session verified
-- as one that is not running, or the daemon met its end, seen by a signal that found no process, by
-- a poll of the grace period behind a SIGTERM in which `waitpid` returned its pid or, where that
-- failed, signal 0 met no process, or by a SIGKILL that followed.
pub stop_session-evidence :
    (pid grace : ℤ) (force : Bool) (sys : System) (o : StopOutcome)
    → (stop_session pid grace force sys).outcome ≡ ok o
    → (o.stopped || says_not_found o) ≡ true
    → (verify_session sys.before pid ≡ ok not_found)
      ⊎ IsGone pid grace sys (stop_session pid grace force sys).sent
stop_session-evidence pid grace force sys o h resolved =
    let (gone_then, found) = stop_session-found pid grace force sys in
    elim (Bool-cases o.stopped) [
      | inl s ↦ inr (gone_then (rw h s))
      | inr s ↦ inl (found (rw h (rw s at resolved)))
    ]
