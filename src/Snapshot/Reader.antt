-- ===== src/Snapshot/Reader.antt =====
-- The methods of `Reader` of crates/etas_package/src/source_snapshot/reader.rs.
mod Actions
unfoldable pub use Actions.*
use Prim.Native.Nat.{lt, eq, gt, min}
use etas.Base.{ℕ, zero, suc, ◌+◌, ◌-◌, ◌^◌, Text, Option, none, some, Bool, true, false, not}
use etas.Base.{List, [], ◌∷◌, ◌++◌, ltb, leb, length, if◌then◌else◌}
use etas.Base.Paths.{normal, RelativePath, compare_path, to_text}
use etas.Diagnostics.{Result, ok, err, io}
use etas.Snapshot.{
  Files, Kind, file, dir, symlink, Metadata, missing, failed, found, Opened, System,
  SourceSnapshotLimits, SourceSnapshotError, package_error, interrupted, resource_limit,
  invalid_entry, depth, file_bytes, total_bytes,
}
use etas.Snapshot as Snap

module _ {E : Type 0} (sys : System) (root : Text) (limits : SourceSnapshotLimits) where
  abbrev pub entries_limit : SourceSnapshotError E
  entries_limit = resource_limit Snap.entries limits.max_entries

  -- `io(&self.root.join(path), source)`
  abbrev pub io_at : RelativePath → SourceSnapshotError E
  io_at path = package_error (io (root ++ (b'/' ∷ to_text path)))

  unfoldable pub set_entries : ℕ → M E (Unit {0})
  set_entries n r = ok (tt, record r { entries = n })

  unfoldable pub visit : RelativePath → M E (Unit {0})
  unfolding checkpoint set_entries
  visit path = do
    checkpoint
    n ← with_self (λ r. expect (checked_add r.entries 1) entries_limit)
    set_entries n
    fail_when (ltb limits.max_entries n) entries_limit
    fail_when (ltb limits.max_depth (length path)) (resource_limit depth limits.max_depth)

  -- The walk down the components of `relative` that are left, from `path` with its metadata.
  unfoldable pub walk :
      (accesses : ℕ)
      → RelativePath
      → RelativePath
      → RelativePath
      → Metadata
      → Result (SourceSnapshotError E) Metadata
  walk now relative path [] metadata = ok metadata
  walk now relative path (normal part ∷ rest) metadata =
      let next = path ++ normal part ∷ [] in
      elim (sys.symlink_metadata now next) [
        | missing ↦ err (io_at next)
        | failed ↦ err (io_at next)
        | found current ↦
            let below = walk (now + 1) relative next rest current in
            elim current.kind [
              | symlink ↦
                  err (invalid_entry next "symlinks are not accepted in locked source payloads")
              | _ ↦ below
            ]
      ]
  walk now relative path (_ ∷ rest) metadata =
      err (invalid_entry relative "payload path is not package-relative")

  unfoldable pub checked_from :
      (accesses : ℕ) → Option Metadata → RelativePath → Result (SourceSnapshotError E) Metadata
  checked_from now none relative = err (package_error (io root))
  checked_from now (some metadata) relative = walk now relative [] relative metadata

  unfoldable pub checked_metadata : RelativePath → M E Metadata
  unfolding checked_from walk access
  checked_metadata relative = do
    now ← access (length relative + 1)
    lift (checked_from (now + 1) (sys.root_metadata now) relative)

  unfoldable pub check_size : ℕ → M E (Unit {0})
  check_size size = do
    fail_when (ltb limits.max_file_bytes size) (resource_limit file_bytes limits.max_file_bytes)
    with_self (λ r.
        fail_when (ltb (limits.max_total_bytes - r.total) size)
          (resource_limit total_bytes limits.max_total_bytes))

  -- The `loop` over the reads of an open file. A read of no bytes, or the end of the list, ends it.
  unfoldable pub read_chunks : RelativePath → List (Option (List ℕ)) → List ℕ → M E (List ℕ)
  unfolding check_size checkpoint
  read_chunks relative [] bytes = do checkpoint; pure bytes
  read_chunks relative (none ∷ reads) bytes = do checkpoint; fail (io_at relative)
  read_chunks relative (some [] ∷ reads) bytes = do checkpoint; pure bytes
  read_chunks relative (some (b ∷ bs) ∷ reads) bytes = do
    checkpoint
    size ←
        expect (checked_add (length bytes) (length (b ∷ bs)))
          (resource_limit file_bytes limits.max_file_bytes)
    check_size size
    read_chunks relative reads (bytes ++ b ∷ bs)

  unfoldable pub add_file : RelativePath → List ℕ → M E (Unit {0})
  add_file relative bytes r = ok (
    tt,
    record r {
      total = r.total + length bytes;
      files = insert relative bytes r.files;
      checksum_paths = r.checksum_paths ++ relative ∷ [];
    },
  )

  -- What follows the test that the opened entry is a regular file.
  unfoldable pub read_regular : RelativePath → List (Option (List ℕ)) → Option Bool → M E (Unit {0})
  unfolding read_chunks add_file
  read_regular relative reads none = fail (io_at relative)
  read_regular relative reads (some false) =
      fail (invalid_entry relative "opened payload entry is not a regular file")
  read_regular relative reads (some true) = do
    bytes ← read_chunks relative reads []
    add_file relative bytes

  -- From `let mut file = open_regular(..)` on.
  unfoldable pub read_opened : RelativePath → Option Opened → M E (Unit {0})
  unfolding read_regular
  read_opened relative none = fail (io_at relative)
  read_opened relative (some opened) = read_regular relative opened.reads opened.is_file

  unfoldable pub again : RelativePath → M E (Unit {0})
  again relative r = ok (tt, record r { checksum_paths = r.checksum_paths ++ relative ∷ [] })

  -- A path that the package names twice is read once.
  unfoldable pub read_known : ℕ → RelativePath → Option (List ℕ) → M E (Unit {0})
  unfolding again check_size access read_opened
  read_known len relative (some bytes) = again relative
  read_known len relative none = do
    check_size len
    now ← access 1
    read_opened relative (sys.open_regular now relative)

  unfoldable pub read_file : RelativePath → M E (Unit {0})
  unfolding visit checked_metadata is_file_kind read_known lookup insert
  read_file relative = do
    visit relative
    metadata ← checked_metadata relative
    fail_when (not (is_file_kind metadata.kind))
        (invalid_entry relative "payload entry is not a regular file")
    with_self (λ r. read_known metadata.len relative (lookup relative r.files))

  -- A directory is put on the stack if the entries seen and waiting leave room for it.
  unfoldable pub push_dir : RelativePath → List RelativePath → M E (List RelativePath)
  push_dir child pending r =
      if ltb limits.max_entries (saturating_add (saturating_add r.entries (length pending)) 1)
      then err entries_limit
      else ok (child ∷ pending, r)

  unfoldable pub read_entry : Kind → RelativePath → List RelativePath → M E (List RelativePath)
  unfolding read_file push_dir
  read_entry dir child pending = push_dir child pending
  read_entry file child pending = do read_file child; pure pending
  read_entry _ child pending =
      fail (invalid_entry child "payload must contain only regular files and directories")

  -- The `for` loop over a directory. The result is the stack of directories left to visit.
  unfoldable pub read_entries :
      RelativePath → List (Option Text) → List RelativePath → M E (List RelativePath)
  unfolding read_entry
  read_entries relative [] pending = pure pending
  read_entries relative (none ∷ names) pending = do checkpoint; fail (io_at relative)
  read_entries relative (some name ∷ names) pending = do
    checkpoint
    metadata ← checked_metadata (relative ++ normal name ∷ [])
    pending' ← read_entry metadata.kind (relative ++ normal name ∷ []) pending
    read_entries relative names pending'

  unfoldable pub list_dir : RelativePath → Option (List (Option Text)) → M E (List (Option Text))
  list_dir relative none = fail (io_at relative)
  list_dir relative (some names) = pure names

  -- One round of the `while` loop: a directory from the stack.
  unfoldable pub read_dir : RelativePath → List RelativePath → M E (List RelativePath)
  unfolding visit checked_metadata is_dir_kind list_dir read_entries
  read_dir relative pending = do
    visit relative
    metadata ← checked_metadata relative
    fail_when (not (is_dir_kind metadata.kind))
        (invalid_entry relative "source root is not a directory")
    now ← access 1
    names ← list_dir relative (sys.read_dir now relative)
    read_entries relative names pending

  -- The `while` loop on fuel; `none` means that the fuel ran out.
  unfoldable pub read_pending :
      ℕ → List RelativePath → Reader E → Option (Result (SourceSnapshotError E) (Reader E))
  unfolding read_dir
  read_pending fuel [] r = some (ok r)
  read_pending zero (relative ∷ pending) r = none
  read_pending (suc fuel) (relative ∷ pending) r = elim (read_dir relative pending r) [
    | err e ↦ some (err e)
    | ok (pending', r') ↦ read_pending fuel pending' r'
  ]

  unfoldable pub read_sources :
      RelativePath → Reader E → Option (Result (SourceSnapshotError E) (Reader E))
  unfolding read_pending
  read_sources source_root r = read_pending (limits.max_entries + 1) (source_root ∷ []) r
