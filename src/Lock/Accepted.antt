-- ===== src/Lock/Accepted.antt =====
-- A lockfile that was just written is accepted for its manifest.
use etas.Base.{Text, some}
use etas.Base.{List, [], ◌∷◌, ◌≡◌, ◌≢◌, ◌↔◌, sym, ap, arith, All, is_empty}
use etas.Diagnostics.{
  PackageDiagnostic, ok, ok_unless, ok_unless_iff, concat_map_iff, report_iff, iff_trans,
}
use etas.Semver.{Semver}
use etas.Manifest.Schema.{Manifest}
use etas.Metadata.{ResolvedDependency, Dependencies}
use etas.Lockfile.{LockedPackage, Lockfile, manifest_dependency_fingerprint}
use etas.Lock.Package.{lock_package}
use etas.Lock.Policy.{import_root_missing, validate_lockfile_import_roots, resolve_lockfile}
use etas.Lock.Conflicts.{same_option_iff}

abbrev pub HasRoot : LockedPackage → Type 0
HasRoot p = p.import_root ≢ []

root_iff :
    (package_root : Text) (p : LockedPackage)
    → (import_root_missing package_root p ≡ []) ↔ HasRoot p
unfolding import_root_missing
root_iff package_root p = report_iff (is_empty p.import_root) _ (ground arith)

roots_iff :
    (package_root : Text) (lockfile : Lockfile)
    → (validate_lockfile_import_roots package_root lockfile ≡ ok lockfile)
      ↔ All HasRoot lockfile.packages
unfolding validate_lockfile_import_roots
roots_iff package_root lockfile =
    iff_trans (ok_unless_iff _ lockfile)
      (concat_map_iff (import_root_missing package_root) lockfile.packages (root_iff package_root))

-- A lockfile is accepted exactly when its version is 1, its fingerprint is the manifest's, and every
-- package in it has an import root.
pub resolve_lockfile_iff :
    (package_root : Text) (m : Manifest) (lockfile : Lockfile)
    → (resolve_lockfile package_root m (some lockfile) ≡ ok lockfile) ↔ (
        (lockfile.version ≡ 1)
        × (lockfile.manifest_fingerprint ≡ some (manifest_dependency_fingerprint m))
        × All HasRoot lockfile.packages)
unfolding resolve_lockfile
resolve_lockfile_iff package_root m lockfile = ground (
  arith,
  same_option_iff lockfile.manifest_fingerprint (some (manifest_dependency_fingerprint m)),
  roots_iff package_root lockfile,
)

fresh_lem :
    (ds : List PackageDiagnostic) (written lockfile : Lockfile)
    → ok_unless ds written ≡ ok lockfile
    → written ≡ lockfile
fresh_lem [] written lockfile e = cc
fresh_lem (d ∷ ds) written lockfile e = absurd (cc)

-- What `lock_package` writes is accepted for the same manifest, neither stale nor of a version that is
-- not supported, exactly when every locked package has an import root.
pub resolve_lockfile-lock_package :
    {K M : Type 0} (semver : Semver) (package_root : Text)
    (content_digest : ResolvedDependency K M → Text) (m : Manifest) (index : Dependencies K M)
    (lockfile : Lockfile)
    → lock_package semver package_root content_digest m index ≡ ok lockfile
    → (resolve_lockfile package_root m (some lockfile) ≡ ok lockfile)
      ↔ All HasRoot lockfile.packages
unfolding lock_package
resolve_lockfile-lock_package semver package_root content_digest m index lockfile e =
    let same = fresh_lem _ _ lockfile e in
    let whole = resolve_lockfile_iff package_root m lockfile in
    (
      (λ h. (whole.0 h).2),
      (λ r.
          whole.1 (ap (λ l. l.version) (sym same), ap (λ l. l.manifest_fingerprint) (sym same), r)),
    )
