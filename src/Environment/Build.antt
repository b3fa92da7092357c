-- ===== src/Environment/Build.antt =====
-- `build_environment` of crates/etas_package/src/resolver/environment.rs: every dependency of the
-- manifest against the lockfile and the package index. A round of the loop gives the diagnostics that it
-- pushes, and the dependency if it comes to the end. What the standard library says of itself, the hash
-- of a dependency's document and the payloads on the disk are parameters.
use etas.Base.{
  Text, codes, same_text, Option, none, some, Bool, not, ◌&&◌, ◌||◌, List, [], ◌∷◌, ◌++◌, find,
  strip_prefix, is_some, if◌then◌else◌,
}
use etas.Base.TreeMap.{TreeMap}
use etas.Diagnostics.{PackageDiagnostic, PackageError, diagnostics, Result, ok, err, report_if}
use etas.Semver.{Semver}
use etas.Manifest.Schema.{Manifest, DependencySpec}
use etas.Manifest.Dependency.{version, import_root, package_name, package_name_constraint}
use etas.Metadata.{
  PackageIdentity, ResolvedDependencySource, ResolvedDependency, resolved, Dependencies, nil, cons,
  identity, source, is_builtin_package,
}
use etas.Metadata
use etas.Lockfile.{LockedPackage, Lockfile}
use etas.Resolver.Source.{
  LockedSourceRef, lock_source, resolved_source_from_lockfile, spec_source_requires_exact_git_rev,
}
use etas.Lock.Packages.{dependency_lock_checksum}
use etas.Lock.Package.{named}
use etas.Lock.Policy.{lockfile_package}
use etas.Environment.Model.{Carried, PackageIndex, PackageEnvironmentMetadata}
use etas.Environment.Graph.{
  at_lock, validate_version_requirement, validate_locked_dependency_edges,
  validate_transitive_lock_graph,
}
use etas.Environment.Payload.{validate_resolved_payload}
use etas.Environment.Finish.{finish_environment}

-- What `etas_std` says of the standard library, and the hashes and the disk.
pub record World (K P : Type 0) : Type 1 where
  pub semver : Semver
  pub std_compatibility : Text
  pub std_fingerprint : Option Text
  pub std_metadata : Carried P
  pub default_public : P
  pub content_digest : ResolvedDependency K (Carried P) → Text
  pub vendor_payload : Text → Option Text
  pub payload : Text → Option Text

-- `str::contains`
unfoldable pub contains_text : Text → Text → Bool
contains_text needle [] = is_some (strip_prefix needle [])
contains_text needle (c ∷ cs) = is_some (strip_prefix needle (c ∷ cs)) || contains_text needle cs

unfoldable pub lockfile_package_for_spec :
    Lockfile → DependencySpec → Text → Text → Option LockedPackage
lockfile_package_for_spec lockfile spec name root = elim (package_name_constraint spec name) [
  | some package_name ↦ lockfile_package lockfile package_name root
  | none ↦ find (λ p. same_text p.import_root root) lockfile.packages
]

abbrev pub checksum_mismatch : Text → Text → PackageDiagnostic
checksum_mismatch package_root name = record {
  code = "package.lockfile.checksum_mismatch";
  message = name ∷ [];
  path = some (package_root ++ codes "/.etas/package-index.json");
}

abbrev pub Found : Type 0 → Type 0 → Type 0
Found K P = List PackageDiagnostic × Option (ResolvedDependency K (Carried P))

module _ {K P : Type 0} where
  unfoldable pub is_metadata_of :
      DependencySpec → Text → Text → LockedPackage → ResolvedDependency K (Carried P) → Bool
  is_metadata_of spec name root locked d =
      same_text (Metadata.import_root d) root
      && named (package_name_constraint spec name) (identity d).name
      && same_text (identity d).version locked.version

  unfoldable pub find_dependency :
      (ResolvedDependency K (Carried P) → Bool)
      → Dependencies K (Carried P)
      → Option (ResolvedDependency K (Carried P))
  find_dependency test nil = none
  find_dependency test (cons d ds) =
      let rest = find_dependency test ds in if test d then some d else rest

  unfoldable pub dependency_metadata :
      Option (PackageIndex K P)
      → DependencySpec
      → Text
      → Text
      → LockedPackage
      → Option (ResolvedDependency K (Carried P))
  unfolding find_dependency is_metadata_of
  dependency_metadata none spec name root locked = none
  dependency_metadata (some index) spec name root locked =
      find_dependency (is_metadata_of spec name root locked) index.dependencies

  module _ (world : World K P) (package_root : Text) (m : Manifest) (lockfile : Lockfile) where
    unfoldable pub builtin_std_dependency :
        (version edition : Text) → ResolvedDependency K (Carried P)
    builtin_std_dependency version edition =
        resolved (record { name = codes "std"; version = version; edition = edition })
          world.std_compatibility (codes "std")
          (ResolvedDependencySource.builtin (codes "builtin:std")) nil world.std_fingerprint
          world.std_metadata

    abbrev dependency_missing : Text → Text → PackageDiagnostic
    dependency_missing name root =
        at_lock package_root "package.lockfile.dependency_missing" (name ∷ root ∷ [])

    -- A builtin dependency, after the search of the lockfile.
    unfoldable pub resolve_builtin : Text → DependencySpec → Option LockedPackage → Found K P
    unfolding builtin_std_dependency
    resolve_builtin name spec none = (dependency_missing name (import_root spec name) ∷ [], none)
    resolve_builtin name spec (some locked) =
        if not (same_text locked.source (codes "builtin"))
        then (
          at_lock package_root "package.lockfile.invalid_source" (name ∷ locked.source ∷ []) ∷ [],
          none,
        )
        else (
          validate_version_requirement world.semver package_root name (version spec) locked.version,
          some (builtin_std_dependency locked.version m.package_section.edition),
        )

    -- Once the payload is validated.
    unfoldable pub resolve_payload :
        Text
        → LockedPackage
        → ResolvedDependency K (Carried P)
        → Result PackageDiagnostic (Unit {0})
        → Found K P
    resolve_payload name locked d (err diagnostic) = (diagnostic ∷ [], none)
    resolve_payload name locked d (ok u) =
        let graph =
          validate_locked_dependency_edges world.content_digest package_root locked d
          ++ (validate_transitive_lock_graph world.content_digest package_root lockfile name d
              []).0 in
        if not (same_text (dependency_lock_checksum world.content_digest d) locked.checksum)
        then (graph ++ checksum_mismatch package_root name ∷ [], none)
        else (graph, some d)

    -- Once the metadata is searched, and the source in the lockfile is read.
    unfoldable pub resolve_metadata :
        Text
        → Text
        → LockedPackage
        → Option (ResolvedDependency K (Carried P))
        → Option LockedSourceRef
        → Found K P
    unfolding resolve_payload
    resolve_metadata name root locked none read = (
      record {
        code = "package.resolver.dependency_unresolved";
        message = name ∷ locked.version ∷ root ∷ locked.source ∷ package_root ∷ [];
        path = some (package_root ++ codes "/etas.toml");
      }
          ∷ [],
      none,
    )
    resolve_metadata name root locked (some d) none = (
      at_lock package_root "package.lockfile.invalid_source" (name ∷ locked.source ∷ []) ∷ [],
      none,
    )
    resolve_metadata name root locked (some d) (some read) =
        if not (same_text locked.source (lock_source (source d)))
        then (
          at_lock package_root "package.lockfile.source_mismatch"
                (name ∷ locked.source ∷ lock_source (source d) ∷ [])
              ∷ [],
          none,
        )
        else resolve_payload name locked d (
            validate_resolved_payload world.vendor_payload world.payload package_root name
              (source d))

    -- Any other dependency, after the search of the lockfile.
    unfoldable pub resolve_locked :
        Option (PackageIndex K P) → Text → DependencySpec → Option LockedPackage → Found K P
    unfolding resolve_metadata
    resolve_locked index name spec none =
        (dependency_missing name (import_root spec name) ∷ [], none)
    resolve_locked index name spec (some locked) =
        let (ds, found) =
          resolve_metadata name (import_root spec name) locked
            (dependency_metadata index spec name (import_root spec name) locked)
            (resolved_source_from_lockfile locked) in
        (
          report_if
                (spec_source_requires_exact_git_rev spec
                  && not (contains_text (codes "rev=") locked.source))
                (at_lock package_root "package.lockfile.git_rev_missing" (name ∷ []))
              ++ (validate_version_requirement world.semver package_root name (version spec)
                    locked.version
                  ++ ds),
          found,
        )

    -- A round of the loop.
    unfoldable pub resolve_dependency :
        Option (PackageIndex K P) → Text → DependencySpec → Found K P
    unfolding resolve_builtin resolve_locked
    resolve_dependency index name spec =
        if is_builtin_package name
        then resolve_builtin name spec
            (lockfile_package lockfile (package_name spec name) (import_root spec name))
        else resolve_locked index name spec
            (lockfile_package_for_spec lockfile spec name (import_root spec name))

    abbrev push_found :
        Option (ResolvedDependency K (Carried P))
        → List (ResolvedDependency K (Carried P))
        → List (ResolvedDependency K (Carried P))
    push_found none ds = ds
    push_found (some d) ds = d ∷ ds

    unfoldable pub resolve_dependencies :
        Option (PackageIndex K P)
        → TreeMap DependencySpec
        → List PackageDiagnostic × List (ResolvedDependency K (Carried P))
    unfolding resolve_dependency
    resolve_dependencies index [] = ([], [])
    resolve_dependencies index ((name, spec) ∷ rest) =
        let (ds, found) = resolve_dependency index name spec in
        let (ds', others) = resolve_dependencies index rest in (ds ++ ds', push_found found others)

    -- After the loop.
    unfoldable pub build_with :
        Option (PackageIndex K P)
        → List PackageDiagnostic × List (ResolvedDependency K (Carried P))
        → Option (Result PackageError (PackageEnvironmentMetadata K P))
    build_with index (d ∷ ds, dependencies) = some (err (diagnostics (d ∷ ds)))
    build_with index ([], dependencies) =
        finish_environment world.default_public package_root m lockfile index dependencies

    unfoldable pub build_environment :
        Option (PackageIndex K P) → Option (Result PackageError (PackageEnvironmentMetadata K P))
    unfolding build_with resolve_dependencies
    build_environment index = build_with index (resolve_dependencies index m.dependencies)
