-- ===== src/FileLock.antt =====
-- crates/etas_package/src/file_lock.rs on Unix: the lock on a package file, taken and given back by any
-- number of acquirers that interleave at every access to the file system. The file at the lock's path
-- is its inode; `flock` on an open file is the owner of its inode, and ends when the file is closed.
use etas.Base.{
  ℕ, zero, suc, ◌+◌, ◌<◌, Option, none, some, Bool, true, false, ◌==◌, ◌≡◌, if◌then◌else◌,
}
mod Invariant
pub mod Exclusion
pub mod Refines
pub mod Attempts

-- What the acquirers share.
pub record Disk : Type 0 where
  pub path : Option ℕ  -- the inode at the path of the lock
  pub next : ℕ  -- the inode of the next file
  pub owner : ℕ → Option ℕ  -- by inode, the acquirer that has the advisory lock

abbrev pub lock_retry_count : ℕ
lock_retry_count = 500

-- Where an acquirer stands, with the rounds of its loop that are left and the inode of its open file.
pub data Phase : Type 0 where
  idle : Phase
  trying : (rounds : ℕ) → Phase  -- head of the loop
  opened : (rounds inode : ℕ) → Phase  -- before `try_advisory_lock`
  locked : (rounds inode : ℕ) → Phase  -- before `fs::metadata(&path)`
  writing : (inode : ℕ) → Phase  -- before `write_lock_identity`
  held : (inode : ℕ) → Phase  -- the caller has the lock
  removing : (inode : ℕ) → Phase  -- in `drop`, before `remove_file`
  closing : (inode : ℕ) → Phase  -- in `drop`, before the file is closed
  timed_out : Phase
  failed : Phase

abbrev pub owned_by : ℕ → Option ℕ → (ℕ → Option ℕ) → ℕ → Option ℕ
owned_by inode who owner j = if inode == j then who else owner j

-- Closing a file on which the acquirer has the advisory lock.
unfoldable pub close : ℕ → Disk → Disk
close inode d = record d { owner = owned_by inode none d.owner }

-- `OpenOptions::new().read(true).write(true).create(true).truncate(false).open(&path)`
unfoldable pub open_file : ℕ → Disk → Option ℕ → Disk × Phase
open_file rounds d none = (record d { path = some d.next; next = d.next + 1 }, opened rounds d.next)
open_file rounds d (some inode) = (d, opened rounds inode)

-- Without the lock the file is closed, and the next round follows a sleep.
unfoldable pub try_advisory_lock : (who rounds inode : ℕ) → Disk → Option ℕ → Disk × Phase
try_advisory_lock who rounds inode d none =
    (record d { owner = owned_by inode (some who) d.owner }, locked rounds inode)
try_advisory_lock who rounds inode d (some other) = (d, trying rounds)

-- Whether the path still names the file that is locked.
unfoldable pub check_path : (rounds inode : ℕ) → Disk → Option ℕ → Disk × Phase
unfolding close
check_path rounds inode d none = (close inode d, trying rounds)
check_path rounds inode d (some current) =
    if inode == current then (d, writing inode) else (close inode d, trying rounds)

-- The test in `drop`.
unfoldable pub start_drop : ℕ → Disk → Option ℕ → Disk × Phase
start_drop inode d none = (d, closing inode)
start_drop inode d (some current) = (d, if inode == current then removing inode else closing inode)

-- The next access of an acquirer, `acquire_platform` and then `drop`.
unfoldable pub advance : ℕ → Disk → Phase → Disk × Phase
unfolding open_file try_advisory_lock check_path start_drop close
advance who d idle = (d, trying lock_retry_count)
advance who d (trying zero) = (d, timed_out)
advance who d (trying (suc rounds)) = open_file rounds d d.path
advance who d (opened rounds inode) = try_advisory_lock who rounds inode d (d.owner inode)
advance who d (locked rounds inode) = check_path rounds inode d d.path
advance who d (writing inode) = (d, held inode)
advance who d (held inode) = start_drop inode d d.path
advance who d (removing inode) = (record d { path = none }, closing inode)
advance who d (closing inode) = (close inode d, idle)
advance who d timed_out = (d, idle)
advance who d failed = (d, idle)

-- An access that fails, or a process that ends: its file is closed and nothing is removed.
unfoldable pub fail_access : Disk → Phase → Disk × Phase
unfolding close
fail_access d (locked rounds inode) = (close inode d, failed)
fail_access d (writing inode) = (close inode d, failed)
fail_access d (held inode) = (close inode d, failed)
fail_access d (removing inode) = (close inode d, failed)
fail_access d (closing inode) = (close inode d, failed)
fail_access d p = (d, failed)

pub record System : Type 0 where
  pub disk : Disk
  pub phase : ℕ → Phase

abbrev pub update : (ℕ → Phase) → ℕ → Phase → ℕ → Phase
update f i p j = if i == j then p else f j

abbrev pub moved : System → ℕ → Disk × Phase → System
moved s i r = record { disk = r.0; phase = update s.phase i r.1 }

-- Any acquirer makes its next access, or fails at it.
pub data Step (s : System) : System → Type 0 where
  step : (i : ℕ) → Step s (moved s i (advance i s.disk (s.phase i)))
  failure : (i : ℕ) → Step s (moved s i (fail_access s.disk (s.phase i)))

-- Nobody has the lock yet; there may be a lock file of an earlier owner.
abbrev pub init : Option ℕ → ℕ → System
init path next = record {
  disk = record { path = path; next = next; owner = λ _. none };
  phase = λ _. idle;
}

pub data Reach (path : Option ℕ) (next : ℕ) : System → Type 0 where
  start : Reach path next (init path next)
  later : {s t : System} → Reach path next s → Step s t → Reach path next t
