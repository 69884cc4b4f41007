-- ===== src/Session/Create.antt =====
-- `SessionDir.create`, its two tests, and its `cleanup` in tunstrap/session.py, with
-- `release_session_lock` of tunstrap/identity.py.
use tunstrap.Common.{
  String, Bool, true, false, not, ◌||◌, Option, none, some, List, [], Result, ok, err,
  if◌then◌else◌,
}
use tunstrap.Identity.{won, LockFile, LockError, held, Recording, acquire_session_lock}

-- What has the name `tunnel-data`; a directory is the user's own or not, and has names in it.
pub data Slot : Type 0 where
  absent symlink no_directory : Slot
  directory : Bool → List String → Slot

-- What has the name `session.lock`: nothing, what cannot be opened (a symbolic link among it), a file.
pub data Lock : Type 0 where
  no_lock unopenable : Lock
  lock : LockFile → Lock

-- A session directory: whether it is the user's own, whether its group or others may write to it, and
-- its two entries.
pub record Root : Type 0 where
  pub is_own : Bool
  pub is_shared : Bool
  pub entry : Lock
  pub slot : Slot

-- `os.fchmod`: the bits are gone, or they survive, or it raises.
pub data Fchmod : Type 0 where
  cleared ignored refused : Fchmod

-- `shutil.rmtree`: all is gone, or the directory keeps some names, behind an `OSError` that `cleanup`
-- ignores.
pub data Rmtree : Type 0 where
  removed : Rmtree
  keeps : List String → Rmtree

pub record Calls : Type 0 where
  pub ancestors_made : Bool
  pub root_opens : Bool
  pub fchmod : Fchmod
  pub recording : Recording
  pub rmtree : Rmtree
  pub mkdir_works : Bool
  pub unlink_works : Bool

-- `SessionError`, `SessionActive`, or an `OSError` that no handler names
pub data Failure : Type 0 where
  session_error session_active os_error : Failure

pub record Created : Type 0 where
  pub outcome : Result Failure Bool  -- whether the root counts as generated
  pub root : Root

abbrev pub failing : Failure → Root → Created
failing e r = record { outcome = err e; root = r }

-- A root that `mkdtemp` has made.
abbrev pub minted : Root
minted = record { is_own = true; is_shared = false; entry = no_lock; slot = absent }

-- Whether the write bits are set, and `fchmod`.
abbrev pub tightened : Root → Bool → Fchmod → Result Failure Root
tightened r false answer = ok r
tightened r true cleared = ok (record r { is_shared = false })
tightened r true ignored = err session_error
tightened r true refused = err session_error

-- `_secure_supplied_root`
unfoldable pub secure_supplied_root : Calls → Root → Result Failure Root
secure_supplied_root c r =
    if not c.root_opens || not r.is_own then err session_error else tightened r r.is_shared c.fchmod

-- The file that `os.open` with `O_CREAT` gives.
abbrev pub opened : Lock → Option LockFile
opened no_lock =
    some (record { is_regular = true; is_own = true; links = 1; flock = won; content = "" })
opened unopenable = none
opened (lock f) = some f

abbrev pub as_lock : Lock → Option LockFile → Lock
as_lock before none = before
as_lock before (some f) = lock f

-- How `create` translates what `acquire_session_lock` raises.
abbrev pub lock_failure : LockError → Failure
lock_failure held = session_active
lock_failure _ = session_error

-- `release_session_lock`: without the file, or with the file when it cannot be unlinked, but its
-- descriptor closed.
unfoldable pub release_session_lock : Calls → Lock → Lock
release_session_lock c (lock f) =
    if c.unlink_works then no_lock else lock (record f { flock = won })
release_session_lock c no_lock = no_lock
release_session_lock c unopenable = if c.unlink_works then no_lock else unopenable

-- What `shutil.rmtree` leaves of a directory.
abbrev pub after_rmtree : Bool → Rmtree → Slot
after_rmtree own removed = absent
after_rmtree own (keeps names) = directory own names

abbrev pub rmtree_result : Rmtree → Result Failure (Unit {0})
rmtree_result removed = ok tt
rmtree_result (keeps names) = err os_error

-- `_reclaim_data_slot`: whether it returns, and what then has the name.
unfoldable pub reclaim_data_slot : Calls → Slot → Result Failure (Unit {0}) × Slot
reclaim_data_slot c absent = (ok tt, absent)
reclaim_data_slot c symlink = (err session_error, symlink)
reclaim_data_slot c no_directory = (err session_error, no_directory)
reclaim_data_slot c (directory false names) = (err session_error, directory false names)
reclaim_data_slot c (directory true names) = (rmtree_result c.rmtree, after_rmtree true c.rmtree)

-- `data.mkdir(mode=0o700)`, which a name that exists refuses.
unfoldable pub make_directory : Bool → Slot → Result Failure Slot
make_directory works absent = if works then ok (directory true []) else err os_error
make_directory works symlink = err os_error
make_directory works no_directory = err os_error
make_directory works (directory own names) = err os_error

-- The part with the lock held.
unfoldable pub on_made : Calls → Bool → Root → Slot → Result Failure Slot → Created
unfolding release_session_lock
on_made c generated r slot (ok made) = record {
  outcome = ok generated;
  root = record r { slot = made };
}
on_made c generated r slot (err e) =
    failing e (record r { entry = release_session_lock c r.entry; slot = slot })

unfoldable pub make_data : Calls → Bool → Root → Result Failure (Unit {0}) → Slot → Created
unfolding on_made make_directory
make_data c generated r (err e) slot = on_made c generated r slot (err e)
make_data c generated r (ok _) slot = on_made c generated r slot (make_directory c.mkdir_works slot)

unfoldable pub with_lock :
    Calls → Bool → Root → Result LockError (Unit {0}) → Option LockFile → Created
unfolding make_data reclaim_data_slot
with_lock c generated r (err e) file =
    failing (lock_failure e) (record r { entry = as_lock r.entry file })
with_lock c generated r (ok _) file =
    let reclaimed = reclaim_data_slot c r.slot in
    make_data c generated (record r { entry = as_lock r.entry file }) reclaimed.0 reclaimed.1

unfoldable pub with_root : Calls → String → Bool → Root → Result Failure Root → Created
unfolding with_lock
with_root c own_pid generated before (err e) = failing e before
with_root c own_pid generated before (ok r) =
    let acquired = acquire_session_lock c.recording own_pid (opened r.entry) in
    with_lock c generated r acquired.0 acquired.1

-- `SessionDir.create` of a new root, or of a supplied one, with the test that its path is absolute.
unfoldable pub create : Calls → String → Option Bool → Bool → Root → Created
unfolding with_root secure_supplied_root
create c own_pid none owns r = with_root c own_pid true minted (ok minted)
create c own_pid (some is_absolute) owns r =
    if not is_absolute
    then failing session_error r
    else if not c.ancestors_made
    then failing os_error r
    else with_root c own_pid owns r (secure_supplied_root c r)

-- `shutil.rmtree(..., ignore_errors=True)` of the data or of the root; of a link or a file it removes
-- nothing.
abbrev pub swept : Rmtree → Slot → Slot
swept answer absent = absent
swept answer symlink = symlink
swept answer no_directory = no_directory
swept answer (directory own names) = after_rmtree own answer

abbrev pub remaining : Root → Rmtree → Option Root
remaining r removed = none
remaining r (keeps names) = some (record r { slot = swept (keeps names) r.slot })

-- `cleanup`: the directory behind it, if it stays
unfoldable pub cleanup : Calls → Bool → Root → Option Root
unfolding release_session_lock
cleanup c generated r =
    let released = record r { entry = release_session_lock c r.entry } in
    if generated
    then remaining released c.rmtree
    else some (record released { slot = swept c.rmtree r.slot })
