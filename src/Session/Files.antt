-- ===== src/Session/Files.antt =====
-- `atomic_write` and `_validated_path` of tunstrap/session.py. A directory is a dict of its files,
-- and a write is the list of the changes that it makes to it, in order: a process that is killed
-- leaves the directory as a beginning of the list leaves it.
use tunstrap.Common.{
  ℕ, String, ◌<>◌, Bool, true, false, Option, none, some, List, [], ◌∷◌, ◌++◌, Result, ok, err,
  if◌then◌else◌,
}
use tunstrap.Common.Dict.{Dict, lookup, insert, erase}
use tunstrap.Fdio.{Write, WriteError, Written, write_all}

abbrev pub Files : Type 0
Files = Dict (List ℕ)

pub data Change : Type 0 where
  creates : String → Change
  appends : String → List ℕ → Change
  replaces : String → String → Change
  unlinks : String → Change

abbrev pub or_empty : Option (List ℕ) → List ℕ
or_empty none = []
or_empty (some content) = content

unfoldable pub change : Change → Files → Files
change (creates name) d = insert name [] d
change (appends name chunk) d = insert name (or_empty (lookup name d) ++ chunk) d
change (replaces from to) d = insert to (or_empty (lookup from d)) (erase from d)
change (unlinks name) d = erase name d

-- The answers: whether the directory is there or can be made, whether the file can be created when no
-- file has its name, what `os.write` answers, and whether `os.replace`, `os.unlink` and `os.close`
-- work.
pub record Disk : Type 0 where
  pub mkdir_works : Bool
  pub create_works : Bool
  pub write : ℕ → Write
  pub replace_works : Bool
  pub unlink_works : Bool
  pub close_works : Bool

pub data FileError : Type 0 where
  os_error file_exists unsafe_name : FileError

pub record Attempt : Type 0 where
  pub result : Result FileError (Unit {0})
  pub trace : List Change

abbrev pub temp_name : String → String → String
temp_name name pid = "." <> (name <> ("." <> (pid <> ".tmp")))

abbrev pub appended : String → List (List ℕ) → List Change
appended name [] = []
appended name (chunk ∷ chunks) = appends name chunk ∷ appended name chunks

-- The `except` clause.
abbrev pub undone : Bool → String → List Change
undone true tmp = unlinks tmp ∷ []
undone false tmp = []

-- The `finally` clause: an exception of `os.close` takes the place of what was there.
abbrev pub closing : Bool → Result FileError (Unit {0}) → Result FileError (Unit {0})
closing true r = r
closing false r = err os_error

-- `os.replace`, behind the writing.
unfoldable pub replace_with : Disk → String → String → List Change → Bool → Attempt
replace_with disk name tmp before true = record {
  result = closing disk.close_works (ok tt);
  trace = before ++ replaces tmp name ∷ [];
}
replace_with disk name tmp before false = record {
  result = err os_error;
  trace = before ++ undone disk.unlink_works tmp;
}

-- Whether the writing was complete, so that `os.replace` is called.
abbrev pub is_complete : Disk → Result WriteError (Unit {0}) → Bool
is_complete disk (ok _) = disk.replace_works
is_complete disk (err e) = false

-- The part of `atomic_write` behind the creation of the temporary file.
unfoldable pub write_temp : Disk → String → String → Written → Attempt
unfolding replace_with
write_temp disk name tmp w =
    replace_with disk name tmp (creates tmp ∷ appended tmp w.chunks) (is_complete disk w.result)

abbrev pub is_there : Option (List ℕ) → Bool
is_there none = false
is_there (some content) = true

-- `os.open` with `O_EXCL`: whether the name is taken, and whether the call works otherwise.
unfoldable pub open_temp : Disk → String → String → List ℕ → Bool → Bool → Attempt
unfolding write_temp
open_temp disk name tmp content true works = record { result = err file_exists; trace = [] }
open_temp disk name tmp content false false = record { result = err os_error; trace = [] }
open_temp disk name tmp content false true = write_temp disk name tmp (write_all disk.write content)

-- `atomic_write`, of a name in the directory
unfoldable pub atomic_write : Disk → String → Files → String → List ℕ → Attempt
unfolding open_temp
atomic_write disk pid d name content =
    let tmp = temp_name name pid in
    if disk.mkdir_works
    then open_temp disk name tmp content (is_there (lookup tmp d)) disk.create_works
    else record { result = err os_error; trace = [] }
