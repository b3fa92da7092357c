-- ===== src/Examples/Locking.antt =====
-- A package index with one dependency and its own dependency, locked for the small package.
use etas.Base.{
  Text, codes, Option, none, some, Bool, true, false, List, [], ◌∷◌, ◌++◌, ◌≡◌, ◌≢◌, ◌↔◌, refl,
  replicate, All,
}
use etas.Diagnostics.{ok}
use etas.Metadata.{
  ResolvedDependency, resolved, Dependencies, nil, cons, github_release, path, PackageIdentity,
}
use etas.Lockfile.{LockedPackage, Lockfile, manifest_dependency_fingerprint}
use etas.Lock.Packages.{locked_package_key, insert_index_dependencies}
use etas.Lock.Package.{lock_package, started}
use etas.Lock.Policy.{resolve_lockfile}
use etas.Lock.Agreement.{forest_packages, insert_index_dependencies_iff}
use etas.Lock.Accepted.{HasRoot, resolve_lockfile_iff, resolve_lockfile-lock_package}
use etas.Examples.Packages.{plain_semver, small_manifest, checksum}

abbrev util : ResolvedDependency Text Text
util =
    resolved (record { name = codes "util"; version = codes "1"; edition = codes "2026" }) []
      (codes "util") (path (codes "../util") checksum) nil none []

abbrev json : ResolvedDependency Text Text
json =
    resolved (record { name = codes "json"; version = codes "1"; edition = codes "2026" }) []
      (codes "json")
      (github_release (codes "etas/json") (codes "v1") (codes "json.tar") checksum checksum none)
      (cons util nil) none []

abbrev digest : ResolvedDependency Text Text → Text
digest d = replicate 64 b'a'

abbrev pub demo_lockfile : Lockfile
demo_lockfile = record {
  version = 1;
  manifest_fingerprint = some (manifest_dependency_fingerprint small_manifest);
  packages =
      record {
        name = codes "json";
        version = codes "1";
        source = codes "github-release+etas/json?release=v1&asset=json.tar";
        checksum = checksum;
        dependencies = codes "util|util|1" ∷ [];
        import_root = codes "json";
        metadata_fingerprint = none;
      }
      ∷ record {
        name = codes "util";
        version = codes "1";
        source = codes "path+../util";
        checksum = checksum;
        dependencies = [];
        import_root = codes "util";
        metadata_fingerprint = none;
      }
      ∷ [];
}

demo_locks :
    lock_package plain_semver (codes "/demo") digest small_manifest (cons json nil)
    ≡ ok demo_lockfile
unfolding lock_package etas.Metadata.is_builtin_package etas.Base.same_text
    etas.Manifest.Dependency.version etas.Manifest.Dependency.import_root
    etas.Manifest.Dependency.package_name_constraint etas.Lock.Packages.insert_index_dependency
    etas.Base.TreeMap.get etas.Base.TreeMap.insert locked_package_key
    etas.Lock.Packages.locked_index_dependency etas.Base.Order.cmp etas.Resolver.Source.lock_source
    etas.Resolver.Codec.encode_lock_value
demo_locks = refl

resolve_lockfile-lock_package_example :
    (resolve_lockfile (codes "/demo") small_manifest (some demo_lockfile) ≡ ok demo_lockfile)
    ↔ All HasRoot demo_lockfile.packages
resolve_lockfile-lock_package_example =
    resolve_lockfile-lock_package plain_semver (codes "/demo") digest small_manifest (cons json nil)
      demo_lockfile demo_locks

resolve_lockfile_iff_example :
    (resolve_lockfile (codes "/demo") small_manifest (some demo_lockfile) ≡ ok demo_lockfile) ↔ (
      (demo_lockfile.version ≡ 1)
      × (demo_lockfile.manifest_fingerprint ≡ some (manifest_dependency_fingerprint small_manifest))
      × All HasRoot demo_lockfile.packages)
resolve_lockfile_iff_example = resolve_lockfile_iff (codes "/demo") small_manifest demo_lockfile

insert_index_dependencies_iff_example :
    ((insert_index_dependencies digest (cons json (cons util nil)) started).diagnostics ≡ []) ↔ (
      (f : (import_root name version : Text) → LockedPackage) × All
        (λ p. f p.import_root p.name p.version ≡ p)
        (forest_packages digest (cons json (cons util nil))))
unfolding forest_packages etas.Lock.Packages.locked_index_dependency
insert_index_dependencies_iff_example =
    insert_index_dependencies_iff digest (cons json (cons util nil))
      ((refl, refl), ((refl, refl), ((refl, refl), tt)))
