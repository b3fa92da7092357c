-- ===== src/Snapshot.antt =====
-- crates/etas_package/src/source_snapshot: the limits, the errors and the snapshot. The parts of the
-- system that the reader calls are a record of functions: the file system below the package root, the
-- TOML reader and the BLAKE3 hasher.

pub mod Reader
pub mod Hoare
pub mod Sizes
pub mod Checks
pub mod Bounds
pub mod Locked
pub mod Payload
pub mod Hashing
pub mod Verified
pub mod Budget
use etas.Base.{ℕ, ◌*◌, Text, Option, Bool, List, String}
use etas.Base.Paths.{RelativePath}
use etas.Diagnostics.{PackageError}
use etas.Manifest.Schema.{Manifest}

pub data SourceSnapshotResource : Type 0 where
  entries depth file_bytes total_bytes : SourceSnapshotResource

pub data SourceSnapshotError (E : Type 0) : Type 0 where
  package_error : PackageError → SourceSnapshotError E
  interrupted : E → SourceSnapshotError E
  invalid_checksum : SourceSnapshotError E
  checksum_mismatch : (expected actual : Text) → SourceSnapshotError E
  resource_limit : SourceSnapshotResource → (limit : ℕ) → SourceSnapshotError E
  invalid_entry : RelativePath → (reason : String) → SourceSnapshotError E

pub record SourceSnapshotLimits : Type 0 where
  pub max_entries : ℕ
  pub max_depth : ℕ
  pub max_file_bytes : ℕ
  pub max_total_bytes : ℕ

abbrev pub default_limits : SourceSnapshotLimits
default_limits = record {
  max_entries = 16384;
  max_depth = 64;
  max_file_bytes = 16 * 1024 * 1024;
  max_total_bytes = 128 * 1024 * 1024;
}

-- `BTreeMap<PathBuf, Arc<[u8]>>`: in path order, each path once.
abbrev pub Files : Type 0
Files = List (RelativePath × List ℕ)

pub record LockedPackageSourceSnapshot : Type 0 where
  pub package_root : Text
  pub manifest : Manifest
  pub source_root : RelativePath
  pub checksum : Text
  pub files : Files
  pub entries : ℕ
  pub payload_bytes : ℕ

pub data Kind : Type 0 where
  file dir symlink other : Kind

pub record Metadata : Type 0 where
  pub kind : Kind
  pub len : ℕ

pub data Stat : Type 0 where
  missing failed : Stat
  found : Metadata → Stat

-- What `open` gives: the kind of the opened entry, and the results of its reads in order.
pub record Opened : Type 0 where
  pub is_file : Option Bool
  pub reads : List (Option (List ℕ))

-- The file system below the root of a package, the reader of the manifest, and the hasher. What the file
-- system answers depends on how many accesses there were before, so others may change it in between.
pub record System : Type 0 where
  pub canonicalize : Text → Option Text
  pub root_metadata : (accesses : ℕ) → Option Metadata
  pub symlink_metadata : (accesses : ℕ) → RelativePath → Stat
  pub read_dir : (accesses : ℕ) → RelativePath → Option (List (Option Text))
  pub open_regular : (accesses : ℕ) → RelativePath → Option Opened
  pub parse_manifest : List ℕ → Option Manifest
  pub blake3 : List ℕ → Text
