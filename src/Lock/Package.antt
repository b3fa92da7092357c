-- ===== src/Lock/Package.antt =====
-- `lock_package` of crates/etas_package/src/resolver/lock.rs, between reading the manifest and the
-- package index and writing the lockfile.
use Prim.Native.Nat.{Ordering, eq, gt}
use etas.Base.{
  Text, codes, same_text, Option, none, some, Bool, true, false, ◌&&◌, List, [], ◌∷◌, ◌++◌,
  if◌then◌else◌,
}
use etas.Base.Order.{cmp}
use etas.Base.TreeMap.{TreeMap}
use etas.Diagnostics.{PackageDiagnostic, PackageError, Result, ok, err, ok_unless}
use etas.Semver.{Semver, version_satisfies}
use etas.Manifest.Schema.{Manifest, DependencySpec, DependencyDetail, detailed}
use etas.Manifest.Dependency.{version, import_root, package_name, package_name_constraint}
use etas.Metadata.{
  ResolvedDependency, resolved, Dependencies, nil, cons, is_builtin_package, builtin_std_version,
}
use etas.Lockfile.{LockedPackage, Lockfile, manifest_dependency_fingerprint}
use etas.Lock.Packages.{Locking, push, insert_locked_package, insert_index_dependency}

-- The values that the description of a source shows.
abbrev described : DependencyDetail → List Text
described d = elim d.path [
  | some path ↦ path ∷ []
  | none ↦ elim d.github [
    | some github ↦ elim d.release [ some release ↦ github ∷ release ∷ [] | none ↦ github ∷ [] ]
    | none ↦ elim d.git [
      | some git ↦ git ∷ []
      | none ↦ elim d.registry [
        | some registry ↦ registry ∷ []
        | none ↦ elim d.version [ some v ↦ v ∷ [] | none ↦ [] ]
      ]
    ]
  ]
]

unfoldable pub dependency_source_description : DependencySpec → List Text
dependency_source_description (DependencySpec.version v) = v ∷ []
dependency_source_description (detailed d) = described d

-- `.map(|requirement| version_satisfies(..).unwrap_or(false)).unwrap_or(true)`
abbrev pub satisfies_spec : Semver → Text → Option Text → Bool
satisfies_spec semver v none = true
satisfies_spec semver v (some requirement) = elim (version_satisfies semver v requirement) [
  | err e ↦ false
  | ok b ↦ b
]

abbrev pub named : Option Text → Text → Bool
named none name = true
named (some constraint) name = same_text name constraint

module _ {K M : Type 0} (semver : Semver) where
  unfoldable pub matches_spec : DependencySpec → Text → Text → ResolvedDependency K M → Bool
  matches_spec spec name root (resolved i c r s ds f m) =
      same_text r root
      && named (package_name_constraint spec name) i.name
      && satisfies_spec semver i.version (version spec)

  unfoldable pub index_dependency :
      Dependencies K M → Text → Text → DependencySpec → Option (ResolvedDependency K M)
  unfolding matches_spec
  index_dependency nil name root spec = none
  index_dependency (cons d ds) name root spec =
      let rest = index_dependency ds name root spec in
      if matches_spec spec name root d then some d else rest

module _ (semver : Semver) (package_root : Text) where
  abbrev pub locked_builtin : Text → DependencySpec → Text → LockedPackage
  locked_builtin name spec locked_name = record {
    name = locked_name;
    version = builtin_std_version;
    source = codes "builtin";
    checksum = codes "builtin:std";
    dependencies = [];
    import_root = import_root spec name;
    metadata_fingerprint = some (codes "builtin:std");
  }

  -- The `match` on the requirement of a builtin dependency.
  unfoldable pub builtin_satisfying :
      Text → Option Text → LockedPackage → Result PackageDiagnostic LockedPackage
  builtin_satisfying name none locked = ok locked
  builtin_satisfying name (some requirement) locked =
      elim (version_satisfies semver builtin_std_version requirement) [
        | ok true ↦ ok locked
        | ok false ↦ err (record {
          code = "package.lockfile.version_mismatch";
          message = name ∷ builtin_std_version ∷ requirement ∷ [];
          path = some (package_root ++ codes "/etas.toml");
        })
        | err e ↦ err (record {
          code = "package.manifest.invalid_version_requirement";
          message = name ∷ requirement ∷ [];
          path = some (package_root ++ codes "/etas.toml");
        })
      ]

  unfoldable pub locked_builtin_dependency :
      Text → DependencySpec → Text → Result PackageDiagnostic LockedPackage
  unfolding builtin_satisfying
  locked_builtin_dependency name spec locked_name =
      builtin_satisfying name (version spec) (locked_builtin name spec locked_name)

  -- `version_satisfies("0.0.0", requirement)` fails.
  abbrev invalid_requirement : Option Text → Option Text
  invalid_requirement none = none
  invalid_requirement (some requirement) =
      elim (version_satisfies semver (codes "0.0.0") requirement) [
        | err e ↦ some requirement
        | ok b ↦ none
      ]

  module _ {K M : Type 0} (content_digest : ResolvedDependency K M → Text) where
    -- What follows the search of the package index.
    unfoldable pub lock_found :
        Text → DependencySpec → Option (ResolvedDependency K M) → Locking → Locking
    unfolding dependency_source_description
    lock_found name spec none s =
        push
          (record {
            code = "package.resolver.dependency_unresolved";
            message =
                name ∷ import_root spec name ∷ dependency_source_description spec
                ++ package_root ∷ [];
            path = some (package_root ++ codes "/etas.toml");
          })
          s
    lock_found name spec (some d) s = insert_index_dependency content_digest d s

    abbrev pub lock_builtin : Result PackageDiagnostic LockedPackage → Locking → Locking
    lock_builtin (ok locked) s = insert_locked_package locked s
    lock_builtin (err d) s = push d s

    abbrev pub lock_indexed :
        Dependencies K M → Text → DependencySpec → Option Text → Locking → Locking
    lock_indexed index name spec (some requirement) s =
        push
          (record {
            code = "package.manifest.invalid_version_requirement";
            message = name ∷ requirement ∷ [];
            path = some (package_root ++ codes "/etas.toml");
          })
          s
    lock_indexed index name spec none s =
        lock_found name spec (index_dependency semver index name (import_root spec name) spec) s

    -- The body of the loop over the manifest's dependencies. A missing index has no dependencies.
    unfoldable pub lock_dependency : Dependencies K M → Text × DependencySpec → Locking → Locking
    unfolding locked_builtin_dependency lock_found index_dependency insert_locked_package
    lock_dependency index (name, spec) s =
        if is_builtin_package name
        then lock_builtin (locked_builtin_dependency name spec (package_name spec name)) s
        else lock_indexed index name spec (invalid_requirement (version spec)) s

    unfoldable pub lock_dependencies : Dependencies K M → TreeMap DependencySpec → Locking → Locking
    unfolding lock_dependency
    lock_dependencies index [] s = s
    lock_dependencies index (d ∷ ds) s = lock_dependencies index ds (lock_dependency index d s)

-- `then_with`
abbrev then_with : Ordering → Ordering → Ordering
then_with eq o = o
then_with o p = o

abbrev pub compare_package : LockedPackage → LockedPackage → Ordering
compare_package a b =
    then_with (cmp a.import_root b.import_root)
      (then_with (cmp a.name b.name) (cmp a.version b.version))

unfoldable pub insert_sorted : LockedPackage → List LockedPackage → List LockedPackage
insert_sorted p [] = p ∷ []
insert_sorted p (q ∷ qs) =
    let rest = insert_sorted p qs in elim (compare_package p q) [ gt ↦ q ∷ rest | _ ↦ p ∷ q ∷ qs ]

-- `packages.into_values()` and the stable `sort_by`
unfoldable pub sorted_values : TreeMap LockedPackage → List LockedPackage
unfolding insert_sorted
sorted_values [] = []
sorted_values ((k, p) ∷ m) = insert_sorted p (sorted_values m)

abbrev pub started : Locking
started = record { packages = []; diagnostics = [] }

-- From the manifest and the dependencies of the index to the lockfile that is written.
unfoldable pub lock_package :
    {K M : Type 0}
    → Semver
    → Text
    → (ResolvedDependency K M → Text)
    → Manifest
    → Dependencies K M
    → Result PackageError Lockfile
unfolding lock_dependencies sorted_values
lock_package semver package_root content_digest m index =
    let s = lock_dependencies semver package_root content_digest index m.dependencies started in
    ok_unless s.diagnostics (record {
      version = 1;
      manifest_fingerprint = some (manifest_dependency_fingerprint m);
      packages = sorted_values s.packages;
    })
