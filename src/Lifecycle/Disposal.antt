-- ===== src/Lifecycle/Disposal.antt =====
-- When a session's data is removed, and that `stop` and the teardown of `run` agree on it.

use tunstrap.Common.{
  ◌≡◌, refl, ◌⊎◌, Bool, true, false, ◌&&◌, ℤ, is_positive, Result, ok, err, arith,
}
use tunstrap.Identity.{Raised, not_found, verify_session}
use tunstrap.Stop.{StopOutcome, System, stop_session}
use tunstrap.Stop.Outcomes.{IsGone, stop_session-evidence}
use tunstrap.Lifecycle.{
  PidFile, missing, unreadable, undecodable, garbled, number, preserved, stop_resolved, Notice,
  Survivors, teardown_run,
}

resolved_evidence :
    (pid grace : ℤ) (sys : System) (o : StopOutcome)
    → (stop_session pid grace true sys).outcome ≡ ok o
    → stop_resolved o ≡ true
    → (verify_session sys.before pid ≡ ok not_found)
      ⊎ IsGone pid grace sys (stop_session pid grace true sys).sent
unfolding stop_resolved
resolved_evidence pid grace sys o h resolved = stop_session-evidence pid grace true sys o h resolved

-- What the teardown finds before it removes anything.
abbrev pub MayDelete : PidFile → ℤ → System → Type 0
MayDelete missing grace sys = Unit
MayDelete unreadable grace sys = ⊥
MayDelete undecodable grace sys = ⊥
MayDelete garbled grace sys = ⊥
MayDelete (number pid) grace sys =
    (is_positive pid ≡ true)
    × ((verify_session sys.before pid ≡ ok not_found)
        ⊎ IsGone pid grace sys (stop_session pid grace true sys).sent)

abbrev pub says_preserved : Notice → Bool
says_preserved (preserved cause minted) = true
says_preserved _ = false

teardown_number :
    (has_loss minted : Bool) (pid grace : ℤ) (sys : System) (left : Survivors)
    → (teardown_run has_loss minted (number pid) grace sys left).removes_data ≡ true
    → MayDelete (number pid) grace sys
unfolding teardown_run
teardown_number has_loss minted pid grace sys left h =
    go (stop_session pid grace true sys).outcome refl
  where
    go :
        (r : Result Raised StopOutcome)
        → (stop_session pid grace true sys).outcome ≡ r
        → MayDelete (number pid) grace sys
    go (err e) p = ground arith
    go (ok o) p = ground (arith, resolved_evidence pid grace sys o p)

module _ (has_loss minted : Bool) where
  kept_unreadable :
      (grace : ℤ) (sys : System) (left : Survivors)
      → (teardown_run has_loss minted unreadable grace sys left).removes_data ≡ true
      → ⊥
  unfolding teardown_run
  kept_unreadable grace sys left h = cc

  kept_undecodable :
      (grace : ℤ) (sys : System) (left : Survivors)
      → (teardown_run has_loss minted undecodable grace sys left).removes_data ≡ true
      → ⊥
  unfolding teardown_run
  kept_undecodable grace sys left h = cc

  kept_garbled :
      (grace : ℤ) (sys : System) (left : Survivors)
      → (teardown_run has_loss minted garbled grace sys left).removes_data ≡ true
      → ⊥
  unfolding teardown_run
  kept_garbled grace sys left h = cc

  root_with_data :
      (file : PidFile) (grace : ℤ) (sys : System) (left : Survivors)
      → (teardown_run has_loss minted file grace sys left).removes_root
        ≡ ((teardown_run has_loss minted file grace sys left).removes_data && minted)
  unfolding teardown_run
  root_with_data file grace sys left = ground arith

-- The teardown of `run` removes a session's data only if no identity was ever recorded, or if the
-- recorded pid is positive and either verified as not running or met its end. An identity that
-- cannot be read keeps the data. A root goes exactly with the data, and only if `run` minted it.
pub teardown_run-MayDelete :
    (has_loss minted : Bool) (file : PidFile) (grace : ℤ) (sys : System) (left : Survivors)
    → ((teardown_run has_loss minted file grace sys left).removes_data ≡ true
        → MayDelete file grace sys)
      × ((teardown_run has_loss minted file grace sys left).removes_root
          ≡ ((teardown_run has_loss minted file grace sys left).removes_data && minted))
teardown_run-MayDelete has_loss minted file grace sys left =
    (only_if file, root_with_data has_loss minted file grace sys left)
  where
    only_if :
        (f : PidFile)
        → (teardown_run has_loss minted f grace sys left).removes_data ≡ true
        → MayDelete f grace sys
    only_if missing h = tt
    only_if unreadable h = kept_unreadable has_loss minted grace sys left h
    only_if undecodable h = kept_undecodable has_loss minted grace sys left h
    only_if garbled h = kept_garbled has_loss minted grace sys left h
    only_if (number pid) h = teardown_number has_loss minted pid grace sys left h
