-- ===== src/Examples/Snapshots.antt =====
-- A package root with a manifest and one source file, and the theorems on its snapshots.
use etas.Base.{
  same_text, if◌then◌else◌, ℕ, ◌≤◌, Text, codes, Option, none, some, Bool, true, false, List, [],
  ◌∷◌, ◌≡◌, refl, replicate,
}
use etas.Base.Paths.{RelativePath, normal}
use etas.Diagnostics.{ok}
use etas.Snapshot.{
  System, Kind, file, dir, Stat, missing, found, Metadata, Opened, SourceSnapshotLimits,
  default_limits, LockedPackageSourceSnapshot,
}
use etas.Snapshot.Hoare.{Good}
use etas.Snapshot.Locked.{read_locked_package_sources}
use etas.Snapshot.Verified.{IsVerified, read_locked_package_sources-IsVerified}
use etas.Snapshot.Budget.{new, spend, read_locked, started, read, sizes_of, Reads-bounds}
use etas.Examples.Packages.{plain_semver, small_manifest, checksum}

abbrev demo_stat : RelativePath → Stat
demo_stat (normal a ∷ []) =
    if same_text a (codes "etas.toml")
    then found (record { kind = file; len = 3 })
    else if same_text a (codes "src")
    then found (record { kind = dir; len = 0 })
    else missing
demo_stat (normal a ∷ normal b ∷ []) =
    if same_text a (codes "src") then found (record { kind = file; len = 5 }) else missing
demo_stat _ = missing

abbrev demo_bytes : RelativePath → List ℕ
demo_bytes (normal _ ∷ []) = codes "toml"
demo_bytes _ = codes "flow"

abbrev demo_system : System
demo_system = record {
  canonicalize = λ root. some root;
  root_metadata = λ _. some (record { kind = dir; len = 0 });
  symlink_metadata = λ _. demo_stat;
  read_dir = λ _ _. some (some (codes "main.etas") ∷ []);
  open_regular =
      λ _ path. some (record { is_file = some true; reads = some (demo_bytes path) ∷ [] });
  parse_manifest = λ _. some small_manifest;
  blake3 = λ _. replicate 64 b'a';
}

read_locked_package_sources-IsVerified_example :
    Good (IsVerified demo_system plain_semver default_limits checksum) (
      read_locked_package_sources {E = Text} demo_system plain_semver
        (codes "/demo")
        checksum
        default_limits
        [])
read_locked_package_sources-IsVerified_example =
    read_locked_package_sources-IsVerified demo_system plain_semver (codes "/demo") checksum
      default_limits []

abbrev demo_snapshot : LockedPackageSourceSnapshot
demo_snapshot = record {
  package_root = codes "/demo";
  manifest = small_manifest;
  source_root = normal (codes "src") ∷ [];
  checksum = checksum;
  files =
      (normal (codes "etas.toml") ∷ [], codes "toml")
      ∷ (normal (codes "src") ∷ normal (codes "main.etas") ∷ [], codes "flow")
      ∷ [];
  entries = 3;
  payload_bytes = 8;
}

demo_read :
    read_locked {E = Text} demo_system plain_semver (new default_limits) (codes "/demo") checksum []
    ≡ some (ok (demo_snapshot, spend (new default_limits) demo_snapshot))
unfolding read_locked etas.Snapshot.Locked.and_then etas.Manifest.Names.is_blake3_checksum
    etas.Base.strip_prefix etas.Snapshot.Reader.◌>>=◌ etas.Snapshot.Reader.with_self
    etas.Snapshot.Reader.expect etas.Snapshot.Reader.fail_when etas.Snapshot.Reader.lift same_text
    etas.Snapshot.Reader.pure etas.Snapshot.Locked.index etas.Base.Paths.compare_path
    etas.Base.Order.cmp etas.Base.Utf8.is_utf8 etas.Manifest.Validate.validate
    etas.Manifest.Names.is_valid_import_root etas.Base.split etas.Manifest.Names.is_identifier
    etas.Manifest.Names.is_blank etas.Manifest.Dependency.import_root etas.Base.TreeMap.get
    etas.Manifest.Detail.validate_spec etas.Manifest.Names.is_valid_github_repo etas.Base.split_once
    etas.Manifest.Names.is_github_name_char etas.Snapshot.Locked.source_root_from
    etas.Base.Paths.components
demo_read = refl

-- The same package, on the budget that one read leaves.
Reads-bounds_example :
    let budget = spend (new default_limits) demo_snapshot in
    (budget.limits ≡ default_limits)
    × (budget.spent_entries ≤ default_limits.max_entries)
    × (budget.bytes ≤ default_limits.max_total_bytes)
    × (budget.bytes ≡ sizes_of (demo_snapshot ∷ []))
Reads-bounds_example =
    Reads-bounds {E = Text} default_limits (demo_snapshot ∷ [])
      (spend (new default_limits) demo_snapshot)
      (read demo_system plain_semver (codes "/demo") checksum [] demo_snapshot started demo_read)
