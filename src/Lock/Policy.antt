-- ===== src/Lock/Policy.antt =====
-- crates/etas_package/src/resolver/lock_policy.rs and entry.rs.
use etas.Base.{
  Text, codes, same_text, Option, none, some, true, not, ◌&&◌, ◌||◌, ◌==◌, List, [], ◌∷◌, ◌++◌,
  find, concat_map, is_empty, if◌then◌else◌,
}
use etas.Diagnostics.{
  PackageDiagnostic, PackageError, diagnostic, Result, ok, err, ok_unless, report_if,
}
use etas.Manifest.Schema.{Manifest, BinTarget}
use etas.Lockfile.{LockedPackage, Lockfile, manifest_dependency_fingerprint}
use etas.Lock.Packages.{same_option}

module _ (package_root : Text) where
  abbrev lock_path : Text
  lock_path = package_root ++ codes "/etas.lock"

  unfoldable pub import_root_missing : LockedPackage → List PackageDiagnostic
  import_root_missing p = report_if (is_empty p.import_root) (record {
    code = "package.lockfile.import_root_missing";
    message = p.name ∷ p.version ∷ [];
    path = some lock_path;
  })

  unfoldable pub validate_lockfile_import_roots : Lockfile → Result PackageError Lockfile
  unfolding import_root_missing
  validate_lockfile_import_roots lockfile =
      ok_unless (concat_map import_root_missing lockfile.packages) lockfile

  -- The number of an unsupported version is left out of its diagnostic. The argument is what `read_lockfile` finds.
  unfoldable pub resolve_lockfile : Manifest → Option Lockfile → Result PackageError Lockfile
  unfolding validate_lockfile_import_roots
  resolve_lockfile m none =
      if is_empty m.dependencies
      then ok (record {
        version = 1;
        manifest_fingerprint = some (manifest_dependency_fingerprint m);
        packages = [];
      })
      else err (diagnostic "package.lockfile.missing" [] (some lock_path))
  resolve_lockfile m (some lockfile) =
      if not (lockfile.version == 1)
      then err (diagnostic "package.lockfile.unsupported_version" [] (some lock_path))
      else if not
          (same_option lockfile.manifest_fingerprint (some (manifest_dependency_fingerprint m)))
      then err (diagnostic "package.lockfile.stale" [] (some lock_path))
      else validate_lockfile_import_roots lockfile

unfoldable pub lockfile_package : Lockfile → Text → Text → Option LockedPackage
lockfile_package lockfile package_name import_root =
    find (λ p. same_text p.name package_name && same_text p.import_root import_root)
      lockfile.packages

-- `Manifest::default_entry`
abbrev pub default_entry : Manifest → Option BinTarget
default_entry m = find (λ _. true) m.bins

abbrev pub selected_bin : Text → Option BinTarget → Result PackageError (Option BinTarget)
selected_bin selected none = err (diagnostic "driver.entry_missing" (selected ∷ []) none)
selected_bin selected (some bin) = ok (some bin)

unfoldable pub select_bin : Manifest → Option Text → Result PackageError (Option BinTarget)
select_bin m none = ok (default_entry m)
select_bin m (some selected) =
    selected_bin selected
      (find (λ b. same_text b.name selected || same_text b.flow selected) m.bins)
