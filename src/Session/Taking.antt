-- ===== src/Session/Taking.antt =====
-- When the creation of a session directory succeeds: a dead session's directory is taken over.
use mathlib.Core.Path.{subst}
use tunstrap.Common.{
  String, ◌≡◌, refl, sym, ap, ◌∙◌, ◌⊎◌, inl, inr, Bool, true, false, some, List, ok, arith,
}
use tunstrap.Identity.{won, blocked, LockFile, Recording, recorded_pid, acquire_session_lock}
use tunstrap.Session.Create.{
  Slot, absent, directory, Lock, lock, Root, cleared, Calls, removed, tightened,
  secure_supplied_root, opened, reclaim_data_slot, make_directory, on_made, make_data, with_lock,
  with_root,
}
use tunstrap.Session.Locked.{secured}

-- Nothing, or a directory of the user's own, whatever is in it.
abbrev pub IsReplaceable : Slot → Type 0
IsReplaceable slot = (slot ≡ absent) ⊎ ((names : List String) × (slot ≡ directory true names))

-- No system call fails.
abbrev pub AllWork : Calls → Type 0
AllWork c =
    (c.ancestors_made ≡ true)
    × (c.root_opens ≡ true)
    × (c.fchmod ≡ cleared)
    × (c.recording ≡ recorded_pid)
    × (c.rmtree ≡ removed)
    × (c.mkdir_works ≡ true)

-- The lock can be taken: there is none, or it is a singly linked file of the user's own that no one
-- holds.
abbrev pub IsFree : Lock → Type 0
IsFree entry =
    (f : LockFile) × (opened entry ≡ some f)
    × (f.is_regular ≡ true)
    × (f.is_own ≡ true)
    × (f.links ≡ 1)
    × (f.flock ≡ won)

free_is_taken :
    (answer : Recording) (own_pid : String) (entry : Lock)
    → answer ≡ recorded_pid
    → IsFree entry
    → (f : LockFile) × (acquire_session_lock answer own_pid (opened entry) ≡ (ok tt, some f))
unfolding acquire_session_lock
free_is_taken answer own_pid entry records (f, there, regular, own, links, free) =
    (record f { flock = blocked; content = own_pid }, rw there (ground arith))

reclaimed :
    (c : Calls) (slot : Slot)
    → c.rmtree ≡ removed
    → IsReplaceable slot
    → reclaim_data_slot c slot ≡ (ok tt, absent)
unfolding reclaim_data_slot
reclaimed c slot removes (inl none_there) = rw none_there refl
reclaimed c slot removes (inr (names, there)) = rw there (rw removes refl)

data_made :
    (c : Calls) (generated : Bool) (r : Root)
    → c.mkdir_works ≡ true
    → (make_data c generated r (ok tt) absent).outcome ≡ ok generated
unfolding make_data make_directory on_made
data_made c generated r works = rw works refl

with_lock-succeeds :
    (c : Calls) (own_pid : String) (generated : Bool) (r : Root)
    → AllWork c
    → IsFree r.entry
    → IsReplaceable r.slot
    → (with_lock c generated r
        (acquire_session_lock c.recording own_pid (opened r.entry)).0
        (acquire_session_lock c.recording own_pid (opened r.entry)).1).outcome
      ≡ ok generated
unfolding with_lock
with_lock-succeeds c own_pid generated r (_, _, _, records, removes, makes) free replaceable =
    let (f, taken) = free_is_taken c.recording own_pid r.entry records free in
    ap (λ x. (with_lock c generated r x.0 x.1).outcome) taken
    ∙ (ap (λ x. (make_data c generated (record r { entry = lock f }) x.0 x.1).outcome)
          (reclaimed c r.slot removes replaceable)
        ∙ data_made c generated (record r { entry = lock f }) makes)

securable :
    (c : Calls) (r : Root)
    → AllWork c
    → r.is_own ≡ true
    → (s : Root) × (secure_supplied_root c r ≡ ok s)
unfolding secure_supplied_root
securable c r (_, opens, clears, _, _, _) own = simp (opens, own) (go r.is_shared)
  where
    go : (shared : Bool) → (s : Root) × (tightened r shared c.fchmod ≡ ok s)
    go false = (r, refl)
    go true = (record r { is_shared = false }, rw clears refl)

pub with_root-succeeds :
    (c : Calls) (own_pid : String) (generated : Bool) (r before : Root)
    → AllWork c
    → IsFree r.entry
    → IsReplaceable r.slot
    → (with_root c own_pid generated before (ok r)).outcome ≡ ok generated
unfolding with_root
with_root-succeeds c own_pid generated r before work free replaceable =
    with_lock-succeeds c own_pid generated r work free replaceable

-- A supplied directory of the user's own is taken.
pub supplied_succeeds :
    (c : Calls) (own_pid : String) (generated : Bool) (r : Root)
    → AllWork c
    → r.is_own ≡ true
    → IsFree r.entry
    → IsReplaceable r.slot
    → (with_root c own_pid generated r (secure_supplied_root c r)).outcome ≡ ok generated
supplied_succeeds c own_pid generated r work own free replaceable =
    let (s, secure) = securable c r work own in
    let (_, _, same_entry, same_slot) = secured c r s secure in
    ap (λ x. (with_root c own_pid generated r x).outcome) secure
    ∙ with_root-succeeds c own_pid generated s r work (subst IsFree (sym same_entry) free)
        (subst IsReplaceable (sym same_slot) replaceable)
