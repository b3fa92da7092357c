-- ===== src/Prepare.antt =====
-- crates/etas_package/src/resolver/mod.rs: `prepare_package`, with the reading of the manifest
-- (crates/etas_package/src/manifest/mod.rs), the lockfile (crates/etas_package/src/lockfile/mod.rs) and
-- the package index (crates/etas_package/src/vendor/mod.rs). What the file system and the TOML and JSON
-- readers give are parameters, and whether the lock on the index is taken.
use etas.Base.{Text, codes, Option, none, some, Bool, not, List, [], ◌∷◌, ◌++◌, if◌then◌else◌}
use mathlib.Core.Option
use etas.Diagnostics.{
  PackageError, io, manifest_error, lockfile_error, diagnostic, Result, ok, err, ◌>>=◌, ok_or,
  fail_if,
}
use etas.Semver.{Semver}
use etas.Manifest.Schema.{Manifest, BinTarget}
use etas.Manifest.Validate.{is_absolute, validate}
use etas.Lockfile.{Lockfile}
use etas.Lock.Policy.{resolve_lockfile, select_bin}
use etas.Environment.Model.{PackageIndex, PackageEnvironmentMetadata}
use etas.Environment.Payload.{join_path}
use etas.Environment.Build.{World, build_environment}
mod Parts
pub mod Sound

pub record Files (K P : Type 0) : Type 0 where
  pub canonicalize : Text → Option Text
  pub exists : Text → Bool
  pub is_dir : Text → Bool
  pub read_to_string : Text → Option Text
  pub lock_index : Text → Result PackageError (Unit {0})
  pub manifest_from_str : Text → Option Manifest
  pub lockfile_from_str : Text → Option Lockfile
  pub index_from_str : Text → Option (PackageIndex K P)

pub record PreparePackageOptions : Type 0 where
  pub package_root : Text
  pub selected_bin : Option Text

pub record PreparedPackage (K P : Type 0) : Type 0 where
  pub package_root : Text
  pub source_root : Text
  pub manifest : Manifest
  pub selected_bin : Option BinTarget
  pub environment : PackageEnvironmentMetadata K P

-- What `build_environment` is called with.
pub record Inputs (K P : Type 0) : Type 0 where
  pub root : Text
  pub manifest : Manifest
  pub index : Option (PackageIndex K P)
  pub lockfile : Lockfile

module _ {K P : Type 0} (files : Files K P) where
  open files use {
    canonicalize, exists, is_dir, read_to_string, lock_index, manifest_from_str, lockfile_from_str,
    index_from_str,
  }

  abbrev pub read_text : Text → Result PackageError Text
  read_text path = ok_or (read_to_string path) (io path)

  unfoldable pub canonical_package_root : Text → Result PackageError Text
  canonical_package_root package_root = ok_or (canonicalize package_root) (io package_root)

  unfoldable pub read_manifest : Semver → Text → Result PackageError Manifest
  read_manifest semver package_root =
      let path = join_path package_root (codes "etas.toml") in
      read_text path >>= λ text.
      ok_or (manifest_from_str text) (manifest_error path) >>= λ manifest.
      validate semver path manifest >>= λ _. ok manifest

  unfoldable pub read_lockfile : Text → Result PackageError (Option Lockfile)
  read_lockfile package_root =
      let path = join_path package_root (codes "etas.lock") in
      if not (exists path)
      then ok none
      else read_text path >>= λ text.
          ok_or (lockfile_from_str text) (lockfile_error path) >>= λ lockfile. ok (some lockfile)

  unfoldable pub read_package_index : Text → Result PackageError (Option (PackageIndex K P))
  read_package_index package_root =
      let directory = join_path package_root (codes ".etas") in
      let path = join_path directory (codes "package-index.json") in
      if not (exists path)
      then ok none
      else lock_index (join_path directory (codes "package-index.lock")) >>= λ _.
          read_text path >>= λ text.
          ok_or (index_from_str text) (manifest_error path) >>= λ index. ok (some index)

  unfoldable pub read_inputs : Semver → Text → Result PackageError (Inputs K P)
  read_inputs semver package_root = canonical_package_root package_root >>= λ root.
      read_manifest semver root >>= λ manifest. read_package_index root >>= λ index.
      read_lockfile root >>= λ found. resolve_lockfile root manifest found >>= λ lockfile.
      ok (record { root = root; manifest = manifest; index = index; lockfile = lockfile })

  unfoldable pub prepared :
      Option Text
      → Inputs K P
      → Result PackageError (PackageEnvironmentMetadata K P)
      → Result PackageError (PreparedPackage K P)
  prepared selected inputs built =
      let source_root = join_path inputs.root inputs.manifest.source.root in
      built >>= λ environment. select_bin inputs.manifest selected >>= λ bin.
      fail_if (not (is_dir source_root))
        (diagnostic "driver.source_root_missing" (source_root ∷ []) (some source_root))
      >>= λ _. ok (record {
        package_root = inputs.root;
        source_root = source_root;
        manifest = inputs.manifest;
        selected_bin = bin;
        environment = environment;
      })

  -- `none` is the panic of `build_environment`.
  unfoldable pub prepare_with :
      World K P
      → Option Text
      → Result PackageError (Inputs K P)
      → Option (Result PackageError (PreparedPackage K P))
  prepare_with world selected (err e) = some (err e)
  prepare_with world selected (ok inputs) =
      Option.map (prepared selected inputs)
        (build_environment world inputs.root inputs.manifest inputs.lockfile inputs.index)

  unfoldable pub prepare_package :
      World K P → PreparePackageOptions → Option (Result PackageError (PreparedPackage K P))
  prepare_package world options =
      prepare_with world options.selected_bin (read_inputs world.semver options.package_root)
