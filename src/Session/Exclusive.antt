-- ===== src/Session/Exclusive.antt =====
-- What the creation of a session directory leaves, and that a lock that is held protects the data.
use tunstrap.Common.{
  String, ◌≡◌, refl, sym, ap, ◌∙◌, inl, Bool, true, false, not, none, some, Result, ok, err,
  if◌then◌else◌,
}
use mathlib.Core.Path.{subst}
use tunstrap.Identity.{blocked, LockFile, acquire_session_lock}
use tunstrap.Session.Create.{
  lock, Root, failing, Calls, Failure, session_error, os_error, Created, minted,
  secure_supplied_root, opened, lock_failure, with_root, create,
}
use tunstrap.Session.Taking.{IsReplaceable, AllWork, IsFree, with_root-succeeds, supplied_succeeds}
use tunstrap.Session.Locked.{IsReady, secured, with_lock-IsReady, with_lock-locked, with_lock-slot}

-- What `create` leaves of a root, in terms of the root that it was given.
abbrev pub IsExclusive : String → Bool → Root → Created → Type 0
IsExclusive own_pid is_supplied r k =
    ((g : Bool)
      → k.outcome ≡ ok g
      → IsReady own_pid k.root × (is_supplied ≡ true → IsReplaceable r.slot))
    × ((f : LockFile)
        → is_supplied ≡ true
        → r.entry ≡ lock f
        → f.flock ≡ blocked
        → ((e : Failure) × (k.outcome ≡ err e)) × (k.root.entry ≡ r.entry) × (k.root.slot ≡ r.slot))

failing-IsExclusive :
    (own_pid : String) (is_supplied : Bool) (r : Root) (e : Failure)
    → IsExclusive own_pid is_supplied r (failing e r)
failing-IsExclusive own_pid is_supplied r e =
    (λ g h. cc, λ f supplied same busy. ((e, refl), refl, refl))

with_root-IsExclusive :
    (c : Calls) (own_pid : String) (generated : Bool) (r : Root) (secure : Result Failure Root)
    → secure_supplied_root c r ≡ secure
    → IsExclusive own_pid true r (with_root c own_pid generated r secure)
unfolding with_root
with_root-IsExclusive c own_pid generated r (err e) h = failing-IsExclusive own_pid true r e
with_root-IsExclusive c own_pid generated r (ok s) h =
    let (own, private, same_entry, same_slot) = secured c r s h in
    (
      λ g done. (
        with_lock-IsReady c own_pid generated s
            (acquire_session_lock c.recording own_pid (opened s.entry)).0 g refl own private done,
        λ supplied.
            subst (λ slot. IsReplaceable slot) same_slot
              (with_lock-slot c own_pid generated s
                (acquire_session_lock c.recording own_pid (opened s.entry)).0
                (acquire_session_lock c.recording own_pid (opened s.entry)).1 g done),
      ),
      λ f supplied same busy.
          let (e, fails) = with_lock-locked c own_pid generated s f (same_entry ∙ same) busy in
          (
            (lock_failure e, ap (λ (k : Created). k.outcome) fails),
            ap (λ (k : Created). k.root.entry) fails ∙ sym same,
            ap (λ (k : Created). k.root.slot) fails ∙ same_slot,
          ),
    )

-- Whether a creation works, when no call fails and a free lock and a data slot that may be replaced
-- are met.
abbrev pub Takes : Calls → Root → Created → Bool → Type 0
Takes c r k generated =
    AllWork c → r.is_own ≡ true → IsFree r.entry → IsReplaceable r.slot → k.outcome ≡ ok generated

-- A session directory that is created is the user's own, writable by no one else, has a `tunnel-data`
-- of its own with no entry in it, and its lock is held and records the new process; if it was
-- supplied, nothing was in the place of `tunnel-data` before but a directory of the user's own. When
-- the lock of a supplied directory is held, the creation fails and leaves the lock and the data as
-- they were. When no call fails, a directory of the user's own under an absolute path is taken over
-- if its lock is free and nothing, or a directory of the user's own with whatever entries, has the
-- name `tunnel-data`; and a new directory is made.
pub create-IsExclusive :
    (c : Calls) (own_pid : String) (is_absolute owns : Bool) (r : Root)
    → IsExclusive own_pid true r (create c own_pid (some is_absolute) owns r)
      × IsExclusive own_pid false r (create c own_pid none owns r)
      × (is_absolute ≡ true → Takes c r (create c own_pid (some is_absolute) owns r) owns)
      × (AllWork c → (create c own_pid none owns r).outcome ≡ ok true)
unfolding create
create-IsExclusive c own_pid is_absolute owns r = (
  supplied is_absolute c.ancestors_made,
  own,
  λ absolute work is_own free replaceable.
      rw absolute (rw (work.0) (supplied_succeeds c own_pid owns r work is_own free replaceable)),
  λ work.
      with_root-succeeds c own_pid true minted minted work (_, refl, refl, refl, refl, refl)
        (inl refl),
)
  where
    supplied :
        (absolute made : Bool)
        → IsExclusive own_pid true r (
            if not absolute
            then failing session_error r
            else if not made
            then failing os_error r
            else with_root c own_pid owns r (secure_supplied_root c r))
    supplied false made = failing-IsExclusive own_pid true r session_error
    supplied true false = failing-IsExclusive own_pid true r os_error
    supplied true true = with_root-IsExclusive c own_pid owns r (secure_supplied_root c r) refl

    own : IsExclusive own_pid false r (with_root c own_pid true minted (ok minted))
    own = (
      λ g done. (
        with_lock-IsReady c own_pid true minted
            (acquire_session_lock c.recording own_pid (opened minted.entry)).0 g refl refl refl
            done,
        λ h. cc,
      ),
      λ f h. cc,
    )
