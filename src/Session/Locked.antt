-- ===== src/Session/Locked.antt =====
-- The creation of a session directory, step by step.
use tunstrap.Common.{
  String, ◌≡◌, refl, sym, ap, ◌∙◌, ◌⊎◌, inl, inr, Bool-cases, Bool, true, false, not, ◌||◌, ◌==◌,
  Option, some, List, [], Result, ok, err,
}
use tunstrap.Identity.{
  blocked, LockFile, Recording, LockError, unsafe_file, held, acquire_session_lock,
}
use tunstrap.Identity.Locking.{acquire_session_lock-effect}
use tunstrap.Session.Create.{
  Slot, absent, symlink, no_directory, directory, Lock, lock, Root, tightened, failing, Fchmod,
  cleared, ignored, refused, Calls, Failure, secure_supplied_root, opened, as_lock, lock_failure,
  reclaim_data_slot, make_directory, on_made, make_data, with_lock,
}

-- The directory of a session that runs.
abbrev pub IsReady : String → Root → Type 0
IsReady own_pid r =
    (r.is_own ≡ true)
    × (r.is_shared ≡ false)
    × (r.slot ≡ directory true [])
    × ((f : LockFile) × (r.entry ≡ lock f) × (f.flock ≡ blocked) × (f.content ≡ own_pid))

abbrev IsLocked : Lock → Type 0
IsLocked entry = (f : LockFile) × (entry ≡ lock f) × (f.flock ≡ blocked)

ok_injective : {a b : Root} → ◌≡◌ {A = Result Failure Root} (ok a) (ok b) → a ≡ b
ok_injective h = cc

-- A directory that `mkdir` makes is empty.
make_directory-makes :
    (works : Bool) (slot made : Slot)
    → make_directory works slot ≡ ok made
    → made ≡ directory true []
unfolding make_directory
make_directory-makes true absent made h = cc
make_directory-makes false absent made h = cc
make_directory-makes works symlink made h = cc
make_directory-makes works no_directory made h = cc
make_directory-makes works (directory own names) made h = cc

make_data-IsReady :
    (c : Calls) (generated : Bool) (own_pid : String) (r : Root)
    (reclaimed : Result Failure (Unit {0})) (slot : Slot) (g : Bool)
    → r.is_own ≡ true
    → r.is_shared ≡ false
    → ((f : LockFile) × (r.entry ≡ lock f) × (f.flock ≡ blocked) × (f.content ≡ own_pid))
    → (make_data c generated r reclaimed slot).outcome ≡ ok g
    → IsReady own_pid (make_data c generated r reclaimed slot).root
unfolding make_data on_made
make_data-IsReady c generated own_pid r (err e) slot g own private locked h = cc
make_data-IsReady c generated own_pid r (ok u) slot g own private locked h =
    made_by (make_directory c.mkdir_works slot) (make_directory-makes c.mkdir_works slot) h
  where
    made_by :
        (made : Result Failure Slot)
        → ((s : Slot) → made ≡ ok s → s ≡ directory true [])
        → (on_made c generated r slot made).outcome ≡ ok g
        → IsReady own_pid (on_made c generated r slot made).root
    made_by (err e) empty h = cc
    made_by (ok s) empty h = (own, private, empty s refl, locked)

locked_fails :
    (answer : Recording) (own_pid : String) (f : LockFile)
    → f.flock ≡ blocked
    → (e : LockError) × (acquire_session_lock answer own_pid (some f) ≡ (err e, some f))
unfolding acquire_session_lock
locked_fails answer own_pid f h =
    elim (Bool-cases (not f.is_regular || not f.is_own || not (f.links == 1))) [
      | inl unsafe ↦ (unsafe_file, rw unsafe refl)
      | inr fine ↦ (held, rw fine (simp h))
    ]

pub secured :
    (c : Calls) (r s : Root)
    → secure_supplied_root c r ≡ ok s
    → (s.is_own ≡ true) × (s.is_shared ≡ false) × (s.entry ≡ r.entry) × (s.slot ≡ r.slot)
unfolding secure_supplied_root
secured c r s h = elim (Bool-cases (not c.root_opens || not r.is_own)) [
  | inl unfit ↦ cc (rw unfit at h)
  | inr fit ↦ go r.is_shared c.fchmod refl (owned c.root_opens r.is_own fit) (rw fit at h)
]
  where
    owned : (opens own : Bool) → (not opens || not own) ≡ false → own ≡ true
    owned true true h = refl
    owned true false h = cc
    owned false own h = cc

    go :
        (shared : Bool) (answer : Fchmod)
        → r.is_shared ≡ shared
        → r.is_own ≡ true
        → tightened r shared answer ≡ ok s
        → (s.is_own ≡ true) × (s.is_shared ≡ false) × (s.entry ≡ r.entry) × (s.slot ≡ r.slot)
    go false answer private own h =
        let same = ok_injective h in
        (
          ap (λ (k : Root). k.is_own) (sym same) ∙ own,
          ap (λ (k : Root). k.is_shared) (sym same) ∙ private,
          ap (λ (k : Root). k.entry) (sym same),
          ap (λ (k : Root). k.slot) (sym same),
        )
    go true cleared shared own h =
        let same = ok_injective h in
        (
          ap (λ (k : Root). k.is_own) (sym same) ∙ own,
          ap (λ (k : Root). k.is_shared) (sym same),
          ap (λ (k : Root). k.entry) (sym same),
          ap (λ (k : Root). k.slot) (sym same),
        )
    go true ignored shared own h = cc
    go true refused shared own h = cc

-- What `create` does behind the root's tests.
module _ (c : Calls) (own_pid : String) (generated : Bool) (r : Root) where
  pub with_lock-IsReady :
      (taken : Result LockError (Unit {0})) (g : Bool)
      → (acquire_session_lock c.recording own_pid (opened r.entry)).0 ≡ taken
      → r.is_own ≡ true
      → r.is_shared ≡ false
      → (with_lock c generated r taken
          (acquire_session_lock c.recording own_pid (opened r.entry)).1).outcome
        ≡ ok g
      → IsReady own_pid
          (with_lock c generated r taken
            (acquire_session_lock c.recording own_pid (opened r.entry)).1).root
  unfolding with_lock
  with_lock-IsReady (err e) g same own private h = cc
  with_lock-IsReady (ok u) g same own private h =
      let (f, _, _, _, _, _, after) =
        (acquire_session_lock-effect c.recording own_pid (opened r.entry)).1 same in
      make_data-IsReady c generated own_pid
        (record r {
          entry = as_lock r.entry (acquire_session_lock c.recording own_pid (opened r.entry)).1;
        })
        (reclaim_data_slot c r.slot).0 (reclaim_data_slot c r.slot).1 g own private
        (record f { flock = blocked; content = own_pid }, ap (as_lock r.entry) after, refl, refl) h

  pub with_lock-locked :
      (f : LockFile)
      → r.entry ≡ lock f
      → f.flock ≡ blocked
      → (e : LockError) × (with_lock c generated r
            (acquire_session_lock c.recording own_pid (opened r.entry)).0
            (acquire_session_lock c.recording own_pid (opened r.entry)).1
          ≡ failing (lock_failure e) (record r { entry = lock f }))
  unfolding with_lock
  with_lock-locked f same busy =
      let (e, fails) = locked_fails c.recording own_pid f busy in
      (
        e,
        ap (λ x. with_lock c generated r x.0 x.1)
            (ap (λ entry. acquire_session_lock c.recording own_pid (opened entry)) same ∙ fails),
      )

  pub with_lock-slot :
      (taken : Result LockError (Unit {0})) (file : Option LockFile) (g : Bool)
      → (with_lock c generated r taken file).outcome ≡ ok g
      → (r.slot ≡ absent) ⊎ ((names : List String) × (r.slot ≡ directory true names))
  unfolding with_lock make_data on_made reclaim_data_slot
  with_lock-slot (err e) file g h = cc
  with_lock-slot (ok u) file g h = go r.slot refl h
    where
      go :
          (slot : Slot)
          → r.slot ≡ slot
          → (make_data c generated
              (record r { entry = as_lock r.entry file })
              (reclaim_data_slot c slot).0
              (reclaim_data_slot c slot).1).outcome
            ≡ ok g
          → (r.slot ≡ absent) ⊎ ((names : List String) × (r.slot ≡ directory true names))
      go absent same h = inl same
      go (directory true names) same h = inr (names, same)
      go (directory false names) same h = cc
      go symlink same h = cc
      go no_directory same h = cc
