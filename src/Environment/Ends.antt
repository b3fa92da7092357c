-- ===== src/Environment/Ends.antt =====
-- A round of `build_environment` that pushes no diagnostic gives a dependency.
use etas.Base.{
  Text, codes, same_text, Option, none, some, [], ◌∷◌, ◌++◌, inl, inr, refl, arith, append-eq-nil,
  Bool-cases,
}
use etas.Diagnostics.{PackageDiagnostic, Result, ok, err}
use etas.Manifest.Schema.{Manifest, DependencySpec}
use etas.Manifest.Dependency.{import_root}
use etas.Metadata.{ResolvedDependency, source, is_builtin_package}
use etas.Lockfile.{LockedPackage, Lockfile}
use etas.Resolver.Source.{LockedSourceRef, lock_source}
use etas.Environment.Model.{Carried, PackageIndex}
use etas.Environment.Graph.{validate_locked_dependency_edges, validate_transitive_lock_graph}
use etas.Environment.Build.{
  World, checksum_mismatch, resolve_builtin, resolve_payload, resolve_metadata, resolve_locked,
  resolve_dependency,
}
use etas.Environment.Verified.{Ends, guarded_some, digest}

module _ {K P : Type 0} where
  module _ (world : World K P) (package_root : Text) (m : Manifest) (lockfile : Lockfile) where
    builtin_some :
        (name : Text) (spec : DependencySpec) (o : Option LockedPackage)
        → Ends (resolve_builtin world package_root m lockfile name spec o)
    unfolding resolve_builtin
    builtin_some name spec none h = absurd (cc)
    builtin_some name spec (some locked) h =
        guarded_some (same_text locked.source (codes "builtin")) _ _ (λ _. (_, refl)) h

    payload_some :
        (name : Text) (locked : LockedPackage) (d : ResolvedDependency K (Carried P))
        (r : Result PackageDiagnostic (Unit {0}))
        → Ends (resolve_payload world package_root m lockfile name locked d r)
    unfolding resolve_payload
    payload_some name locked d (err x) h = absurd (cc)
    payload_some name locked d (ok u) h = (
      d,
      ground (
        arith,
        append-eq-nil
            (validate_locked_dependency_edges (digest world package_root m lockfile) package_root
                locked d
              ++ (validate_transitive_lock_graph (digest world package_root m lockfile) package_root
                  lockfile name d []).0)
            (checksum_mismatch package_root name ∷ []),
      ),
    )

    metadata_some :
        (name root : Text) (locked : LockedPackage) (o : Option (ResolvedDependency K (Carried P)))
        (read : Option LockedSourceRef)
        → Ends (resolve_metadata world package_root m lockfile name root locked o read)
    unfolding resolve_metadata
    metadata_some name root locked none read h = absurd (cc)
    metadata_some name root locked (some d) none h = absurd (cc)
    metadata_some name root locked (some d) (some ref) h =
        guarded_some (same_text locked.source (lock_source (source d))) _ _
          (payload_some name locked d _) h

    locked_some :
        (index : Option (PackageIndex K P)) (name : Text) (spec : DependencySpec)
        (o : Option LockedPackage)
        → Ends (resolve_locked world package_root m lockfile index name spec o)
    unfolding resolve_locked
    locked_some index name spec none h = absurd (cc)
    locked_some index name spec (some locked) h =
        metadata_some name (import_root spec name) locked _ _
          ((append-eq-nil _ _).0 ((append-eq-nil _ _).0 h).1).1

    -- A round that pushes no diagnostic comes to its end.
    pub resolve_dependency_some :
        (index : Option (PackageIndex K P)) (name : Text) (spec : DependencySpec)
        → Ends (resolve_dependency world package_root m lockfile index name spec)
    unfolding resolve_dependency
    resolve_dependency_some index name spec h = elim (Bool-cases (is_builtin_package name)) [
      | inl e ↦ rw e (builtin_some name spec _ (rw e at h))
      | inr e ↦ rw e (locked_some index name spec _ (rw e at h))
    ]
