-- ===== src/Snapshot/Locked.antt =====
-- `read_locked_package_sources` and `hash_payload_file` of
-- crates/etas_package/src/source_snapshot/reader.rs and mod.rs.
use Prim.Native.Nat.{gt}
use etas.Base.{ℕ, Text, codes, Option, none, some, not, same_text}
use etas.Base.{List, [], ◌∷◌, ◌++◌, if◌then◌else◌}
use etas.Base.Paths.{Component, normal, cur_dir, RelativePath, compare_path, to_text, components}
use etas.Base.Lossy.{from_utf8_lossy}
use etas.Base.Utf8.{is_utf8}
use etas.Diagnostics.{PackageError, Result, ok, err, io, manifest_error}
use etas.Semver.{Semver}
use etas.Manifest.Schema.{Manifest}
use etas.Manifest.Names.{is_blake3_checksum}
use etas.Manifest.Validate.{validate}
use etas.Snapshot.{
  Stat, missing, failed, found, System, SourceSnapshotLimits, SourceSnapshotError,
  LockedPackageSourceSnapshot, package_error, invalid_checksum, checksum_mismatch, invalid_entry,
}
use etas.Snapshot.Reader.{
  access, Reader, M, ◌>>=◌, ◌>>◌, pure, fail, fail_when, expect, lift, checkpoint, io_at, lookup,
  read_file, read_sources,
}

-- A run that panics or whose fuel ends is `none`.
abbrev pub Run : Type 0 → Type 0 → Type 0
Run E A = Option (Result (SourceSnapshotError E) A)

unfoldable pub and_then :
    {E A B : Type 0} → Result (SourceSnapshotError E) A → (A → Run E B) → Run E B
and_then (err e) f = some (err e)
and_then (ok a) f = f a

-- `map[key]`, which panics on a missing key.
unfoldable pub index : {E A B : Type 0} → Option A → (A → Run E B) → Run E B
index none f = none
index (some a) f = f a

unfoldable pub insert_path : RelativePath → List RelativePath → List RelativePath
insert_path p [] = p ∷ []
insert_path p (q ∷ qs) =
    let rest = insert_path p qs in elim (compare_path p q) [ gt ↦ q ∷ rest | _ ↦ p ∷ q ∷ qs ]

-- `Vec::sort`
unfoldable pub sort : List RelativePath → List RelativePath
unfolding insert_path
sort [] = []
sort (p ∷ ps) = insert_path p (sort ps)

abbrev pub manifest_path : RelativePath
manifest_path = normal (codes "etas.toml") ∷ []

abbrev pub metadata_paths : List RelativePath
metadata_paths =
    (normal (codes ".etas") ∷ normal (codes "package-index.json") ∷ [])
    ∷ (normal (codes ".etas") ∷ normal (codes "package.etasmeta") ∷ [])
    ∷ []

abbrev pub manifest_at : Text → Text
manifest_at root = root ++ codes "/etas.toml"

-- `result?`, for a `PackageError`.
abbrev pub checked :
    {E : Type 0} → Result PackageError (Unit {0}) → Result (SourceSnapshotError E) (Unit {0})
checked (ok a) = ok a
checked (err e) = err (package_error e)

-- The bytes that `hash_payload_file` gives the hasher.
abbrev pub hash_payload_file : RelativePath → List ℕ → List ℕ
hash_payload_file relative bytes = from_utf8_lossy (to_text relative) ++ (0 ∷ bytes) ++ 0 ∷ []

-- The `for` loop over the components of the manifest's source root.
unfoldable pub source_root_from :
    {E : Type 0}
    → RelativePath
    → List Component
    → RelativePath
    → Result (SourceSnapshotError E) RelativePath
source_root_from root [] acc = ok acc
source_root_from root (normal part ∷ parts) acc =
    source_root_from root parts (acc ++ normal part ∷ [])
source_root_from root (cur_dir ∷ parts) acc = source_root_from root parts acc
source_root_from root (_ ∷ parts) acc =
    err (invalid_entry root "source root must remain within its package")

abbrev pub new_reader : {E : Type 0} → List (Option E) → Reader E
new_reader checks = record {
  checks = checks;
  accesses = 0;
  entries = 0;
  total = 0;
  files = [];
  checksum_paths = [];
}

-- The `for` loop over the sorted paths. The hasher's state is all it was given.
unfoldable pub hash_paths :
    {E : Type 0} → List RelativePath → List ℕ → Reader E → Run E (List ℕ × Reader E)
unfolding checkpoint lookup
hash_paths [] hashed r = some (ok (hashed, r))
hash_paths (path ∷ paths) hashed r = and_then (checkpoint r) λ (_, r').
    index (lookup path r'.files)
      λ bytes. hash_paths paths (hashed ++ hash_payload_file path bytes) r'

module _ {E : Type 0} (sys : System) (semver : Semver) (root : Text)
    (limits : SourceSnapshotLimits) where
  -- The manifest's text, read and checked, and the source root that it names.
  unfoldable pub load_manifest : List ℕ → M E (Manifest × RelativePath)
  unfolding source_root_from
  load_manifest text = do
    fail_when (not (is_utf8 text)) (invalid_entry manifest_path "manifest is not UTF-8")
    manifest ← expect (sys.parse_manifest text) (package_error (manifest_error (manifest_at root)))
    lift (checked (validate semver (manifest_at root) manifest))
    source_root ←
        lift
          (source_root_from (components manifest.source.root) (components manifest.source.root) [])
    pure (manifest, source_root)

  -- A metadata file that is there belongs to the payload.
  unfoldable pub read_metadata : RelativePath → Stat → M E (Unit {0})
  unfolding read_file
  read_metadata relative missing = pure tt
  read_metadata relative failed = fail (io_at sys root limits relative)
  read_metadata relative (found _) = read_file sys root limits relative

  unfoldable pub read_metadata_files : List RelativePath → M E (Unit {0})
  unfolding read_metadata access
  read_metadata_files [] = pure tt
  read_metadata_files (path ∷ paths) = do
    now ← access 1
    read_metadata path (sys.symlink_metadata now path)
    read_metadata_files paths

  unfoldable pub finish :
      (expected : Text)
      → Manifest
      → RelativePath
      → (hashed : List ℕ) → M E LockedPackageSourceSnapshot
  finish expected manifest source_root hashed = do
    fail_when (not (same_text (codes "blake3:" ++ sys.blake3 hashed) expected))
        (checksum_mismatch expected (codes "blake3:" ++ sys.blake3 hashed))
    checkpoint
    λ r. ok (
      record {
        package_root = root;
        manifest = manifest;
        source_root = source_root;
        checksum = codes "blake3:" ++ sys.blake3 hashed;
        files = r.files;
        entries = r.entries;
        payload_bytes = r.total;
      },
      r,
    )

  -- After the checksum's form and the package root are checked.
  unfoldable pub read_payload : (expected : Text) → Reader E → Run E LockedPackageSourceSnapshot
  unfolding read_file load_manifest read_metadata_files read_sources hash_paths finish sort
  read_payload expected r = and_then (read_file sys root limits manifest_path r) λ (_, r1).
      index (lookup manifest_path r1.files) λ text.
        and_then (load_manifest text r1) λ ((manifest, source_root), r2).
          and_then (read_metadata_files metadata_paths r2) λ (_, r3).
            index (read_sources sys root limits source_root r3) λ walked. and_then walked λ r4.
              index (hash_paths (sort r4.checksum_paths) [] r4) λ hashed.
                and_then hashed λ (bytes, r5).
                  and_then (finish expected manifest source_root bytes r5)
                    λ (snapshot, r6). some (ok snapshot)

module _ {E : Type 0} (sys : System) (semver : Semver) where
  -- The last argument lists what the checkpoints give.
  unfoldable pub read_locked_package_sources :
      Text → Text → SourceSnapshotLimits → List (Option E) → Run E LockedPackageSourceSnapshot
  unfolding checkpoint read_payload
  read_locked_package_sources package_root expected limits checks =
      and_then (checkpoint (new_reader checks)) λ (_, r).
        and_then (if is_blake3_checksum expected then ok tt else err invalid_checksum) λ _.
          and_then
            (elim (sys.canonicalize package_root) [
              | none ↦ err (package_error (io package_root))
              | some root ↦ ok root
            ])
            λ root. read_payload sys semver root limits expected r
