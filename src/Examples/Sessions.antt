-- ===== src/Examples/Sessions.antt =====
-- Session directories: one that is taken over from a dead session, one that a live session holds, and
-- a file that is written in two pieces.
use tunstrap.Common.{◌≡◌, refl, true, false, zero, none, some, [], ◌∷◌, ok, err}
use tunstrap.Identity.{recorded_pid, LockFile, won, blocked, acquire_session_lock}
use tunstrap.Fdio.{wrote, failed, write_all}
use tunstrap.Session.Files.{Files, Disk, temp_name, os_error, open_temp, atomic_write}
use tunstrap.Session.Atomic.{IsEnd, atomic_write-IsOldOrNew}
use tunstrap.Fdio.Progress.{Accounts, write_all-Accounts}
use tunstrap.Session.Replacing.{Along, IsOldOrNew}
use tunstrap.Common.Dict.{lookup}
use tunstrap.Session.Create.{
  directory, removed, make_directory, lock, Root, cleared, Calls, session_active, create,
  reclaim_data_slot,
}
use tunstrap.Session.Taking.{AllWork}
use tunstrap.Session.Exclusive.{IsExclusive, Takes, create-IsExclusive}

abbrev calls : Calls
calls = record {
  ancestors_made = true;
  root_opens = true;
  fchmod = cleared;
  recording = recorded_pid;
  rmtree = removed;
  mkdir_works = true;
  unlink_works = true;
}

abbrev lock_file : LockFile
lock_file = record { is_regular = true; is_own = true; links = 1; flock = won; content = "12" }

abbrev dead : Root
dead = record {
  is_own = true;
  is_shared = true;
  entry = lock lock_file;
  slot = directory true ("daemon.pid" ∷ []);
}

abbrev live : Root
live = record dead { entry = lock (record lock_file { flock = blocked }) }

taken_over : (create calls "4711" (some true) false dead).outcome ≡ ok false
unfolding create acquire_session_lock reclaim_data_slot make_directory
taken_over = refl

still_active : (create calls "4711" (some true) false live).outcome ≡ err session_active
unfolding create acquire_session_lock
still_active = refl

emptied : (create calls "4711" (some true) false dead).root.slot ≡ directory true []
unfolding create acquire_session_lock reclaim_data_slot make_directory
emptied = refl

create-IsExclusive_example :
    IsExclusive "4711" true dead (create calls "4711" (some true) false dead)
    × IsExclusive "4711" false dead (create calls "4711" none false dead)
    × (true ≡ true → Takes calls dead (create calls "4711" (some true) false dead) false)
    × (AllWork calls → (create calls "4711" none false dead).outcome ≡ ok true)
create-IsExclusive_example = create-IsExclusive calls "4711" true false dead

-- Three bytes are written, and the next write fails.
abbrev full_disk : Disk
full_disk = record {
  mkdir_works = true;
  create_works = true;
  write = λ i. elim i [ zero ↦ wrote 3 | _ ↦ failed 28 ];
  replace_works = true;
  unlink_works = true;
  close_works = true;
}

abbrev files : Files
files = ("output.json", 1 ∷ 2 ∷ []) ∷ []

write_all-Accounts_example :
    Accounts (3 ∷ 4 ∷ 5 ∷ 6 ∷ []) (write_all full_disk.write (3 ∷ 4 ∷ 5 ∷ 6 ∷ []))
write_all-Accounts_example = write_all-Accounts full_disk.write (3 ∷ 4 ∷ 5 ∷ 6 ∷ [])

fails :
    (atomic_write full_disk "4711" files "output.json" (3 ∷ 4 ∷ 5 ∷ 6 ∷ [])).result ≡ err os_error
unfolding atomic_write write_all open_temp lookup
fails = refl

atomic_write-IsOldOrNew_example :
    Along
      (IsOldOrNew (temp_name "output.json" "4711") "output.json" (3 ∷ 4 ∷ 5 ∷ 6 ∷ []) files)
      (IsEnd full_disk
        (temp_name "output.json" "4711")
        "output.json"
        (3 ∷ 4 ∷ 5 ∷ 6 ∷ [])
        files
        (atomic_write full_disk "4711" files "output.json" (3 ∷ 4 ∷ 5 ∷ 6 ∷ [])).result)
      (atomic_write full_disk "4711" files "output.json" (3 ∷ 4 ∷ 5 ∷ 6 ∷ [])).trace
      files
atomic_write-IsOldOrNew_example =
    atomic_write-IsOldOrNew full_disk "4711" "output.json" files (3 ∷ 4 ∷ 5 ∷ 6 ∷ [])
