-- ===== src/Stop/Signals.antt =====
-- Which signals `stop_session` sends, what its outcomes mean, and that its polling ends.
use tunstrap.Common.{
  ℕ, zero, suc, ◌+◌, ◌*◌, ◌≤◌, ◌≡◌, ◌≢◌, refl, inl, ◌⊎◌, Bool, true, false, List, [], ◌∷◌, ℤ,
  is_positive, ok, arith,
}
use tunstrap.Identity.{matches, verify_session}
use tunstrap.Stop.{
  System, sigterm, sigkill, Grace, exited, timed_out, no_fuel, raised, Sent, signal, grace_loop,
  grace_of, rounds, escalate, after_grace_period, terminate, stop_session,
}

-- Each round takes half a second or more of the grace period.
grace_loop_ends :
    (more : ℕ) (pid : ℤ) (sys : System) (deadline now i : ℕ)
    → deadline ≤ now + more * 500
    → grace_loop (suc more) pid sys deadline now i ≢ no_fuel
unfolding grace_loop
grace_loop_ends zero pid sys deadline now i h = ground arith
grace_loop_ends (suc more) pid sys deadline now i h =
    let later = grace_loop_ends more pid sys deadline (now + 500 + sys.late i) (i + 1) in
    ground (arith, later)

-- The grace poll of `stop_session` always ends by its own tests, whatever the polls answer and
-- however long the rounds take: two rounds for each second of grace, and one more, are enough.
pub grace_period_ends :
    (pid grace : ℤ) (sys : System)
    → grace_loop (rounds grace) pid sys (sys.started_at + grace_of grace * 1000) sys.started_at 0
      ≢ no_fuel
grace_period_ends pid grace sys =
    grace_loop_ends (grace_of grace * 2) pid sys (sys.started_at + grace_of grace * 1000)
      sys.started_at 0 (omega arith)

-- The three ways to signal a process: not at all, politely, and then by force.
abbrev pub Escalation : ℤ → List Sent → Type 0
Escalation pid sent =
    (sent ≡ [])
    ⊎ ((sent ≡ signal sigterm pid ∷ []) ⊎ (sent ≡ signal sigterm pid ∷ signal sigkill pid ∷ []))

abbrev pub was_killed : List Sent → Bool
was_killed (signal sigterm p ∷ signal sigkill q ∷ []) = true
was_killed _ = false

-- What the escalation may send, and when.
abbrev IsGuardedKill : ℤ → Bool → System → List Sent → Type 0
IsGuardedKill pid force sys sent =
    (sent ≡ [])
    ⊎ ((sent ≡ signal sigkill pid ∷ [])
        × (force ≡ true)
        × (verify_session sys.after_grace pid ≡ ok matches))

escalate-IsGuardedKill :
    (pid : ℤ) (force : Bool) (sys : System)
    → IsGuardedKill pid force sys (escalate pid force sys).sent
unfolding escalate
escalate-IsGuardedKill pid force sys = ground arith

after_grace_period-IsGuardedKill :
    (pid : ℤ) (force : Bool) (sys : System) (g : Grace)
    → IsGuardedKill pid force sys (after_grace_period pid force sys g).sent
unfolding after_grace_period
after_grace_period-IsGuardedKill pid force sys exited = inl refl
after_grace_period-IsGuardedKill pid force sys timed_out = escalate-IsGuardedKill pid force sys
after_grace_period-IsGuardedKill pid force sys no_fuel = inl refl
after_grace_period-IsGuardedKill pid force sys (raised e) = inl refl

abbrev IsSafe : ℤ → Bool → System → List Sent → Type 0
IsSafe pid force sys sent =
    Escalation pid sent
    × (was_killed sent ≡ true → (force ≡ true) × (verify_session sys.after_grace pid ≡ ok matches))

terminate-IsSafe :
    (pid grace : ℤ) (force : Bool) (sys : System)
    → IsSafe pid force sys (terminate pid grace force sys).sent
unfolding terminate
terminate-IsSafe pid grace force sys =
    let guarded = after_grace_period-IsGuardedKill pid force sys (
      grace_loop (rounds grace) pid sys (sys.started_at + grace_of grace * 1000) sys.started_at
        0) in
    ground (arith, guarded)

-- `stop_session` signals no process but the one recorded: not at all, by SIGTERM, or by SIGTERM and
-- then SIGKILL. It signals only a positive pid that verified as the holder of the session's lock,
-- and kills only when forced and after the pid has verified once more.
pub stop_session_signals :
    (pid grace : ℤ) (force : Bool) (sys : System)
    → Escalation pid (stop_session pid grace force sys).sent
      × ((stop_session pid grace force sys).sent ≢ []
          → (is_positive pid ≡ true) × (verify_session sys.before pid ≡ ok matches))
      × (was_killed (stop_session pid grace force sys).sent ≡ true
          → (force ≡ true) × (verify_session sys.after_grace pid ≡ ok matches))
unfolding stop_session
stop_session_signals pid grace force sys = ground (arith, terminate-IsSafe pid grace force sys)
