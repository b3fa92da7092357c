-- ===== src/Environment/Dependencies.antt =====
-- What the loop of `build_environment` over the dependencies of a manifest gives.
use etas.Base.{Text, Option, some, List, [], ◌∷◌, ◌≡◌, refl, append-eq-nil}
use etas.Base.TreeMap.{TreeMap}
use etas.Manifest.Schema.{Manifest, DependencySpec}
use etas.Metadata.{ResolvedDependency}
use etas.Manifest.Dependency.{import_root}
use etas.Lockfile.{LockedPackage, Lockfile}
use etas.Environment.Model.{Carried, PackageIndex}
use etas.Environment.Build.{World, dependency_metadata, resolve_dependencies}
use etas.Environment.Resolved.{IsResolvedWith, IsResolvedWith-map, resolve_dependency_iff}
use etas.Environment.Verified.{IsClean, LockedBelow}
use etas.Environment.Ends.{resolve_dependency_some}

module _ {K P : Type 0} where
  module _ (world : World K P) (package_root : Text) (m : Manifest) (lockfile : Lockfile)
      (index : Option (PackageIndex K P)) where
    -- Each dependency of the manifest, in order, with what it is resolved to; `Graph` is about what is
    -- below it.
    abbrev pub AllResolvedWith :
        (Text → ResolvedDependency K (Carried P) → Type 0)
        → TreeMap DependencySpec
        → List (ResolvedDependency K (Carried P))
        → Type 0
    AllResolvedWith Graph [] [] = Unit {0}
    AllResolvedWith Graph ((name, spec) ∷ rest) (d ∷ ds) =
        IsResolvedWith world package_root m lockfile Graph index name spec d
        × AllResolvedWith Graph rest ds
    AllResolvedWith Graph _ _ = ⊥

    -- A graph is right if the code's walk of it reports nothing.
    abbrev pub AllResolved :
        TreeMap DependencySpec → List (ResolvedDependency K (Carried P)) → Type 0
    AllResolved = AllResolvedWith (IsClean world package_root m lockfile)

    -- A graph is right if every package in it is locked as the metadata asks for it.
    abbrev pub AllLocked : TreeMap DependencySpec → List (ResolvedDependency K (Carried P)) → Type 0
    AllLocked = AllResolvedWith (LockedBelow world package_root m lockfile)

    pub AllResolvedWith-map :
        (G H : Text → ResolvedDependency K (Carried P) → Type 0)
        → ((name : Text) (spec : DependencySpec) (d : ResolvedDependency K (Carried P))
              (locked : LockedPackage)
            → dependency_metadata index spec name (import_root spec name) locked ≡ some d
            → G name d
            → H name d)
        → (deps : TreeMap DependencySpec) (ds : List (ResolvedDependency K (Carried P)))
        → AllResolvedWith G deps ds
        → AllResolvedWith H deps ds
    AllResolvedWith-map G H f [] [] h = tt
    AllResolvedWith-map G H f [] (d ∷ ds) h = elim h [ ]
    AllResolvedWith-map G H f (x ∷ rest) [] h = elim h [ ]
    AllResolvedWith-map G H f ((name, spec) ∷ rest) (d ∷ ds) (r, h) = (
      IsResolvedWith-map world package_root m lockfile G H index name spec d (f name spec d) r,
      AllResolvedWith-map G H f rest ds h,
    )

    pub resolved_sound :
        (deps : TreeMap DependencySpec)
        → (resolve_dependencies world package_root m lockfile index deps).0 ≡ []
        → AllResolved deps (resolve_dependencies world package_root m lockfile index deps).1
    unfolding resolve_dependencies
    resolved_sound [] h = tt
    resolved_sound ((name, spec) ∷ rest) h =
        let (a, b) = (append-eq-nil _ _).0 h in
        let (d, e) = resolve_dependency_some world package_root m lockfile index name spec a in
        let r = (resolve_dependency_iff world package_root m lockfile index name spec d).0 (a, e) in
        rw e (r, resolved_sound rest b)

    pub resolved_complete :
        (deps : TreeMap DependencySpec) (ds : List (ResolvedDependency K (Carried P)))
        → AllResolved deps ds
        → resolve_dependencies world package_root m lockfile index deps ≡ ([], ds)
    unfolding resolve_dependencies
    resolved_complete [] [] h = refl
    resolved_complete [] (d ∷ ds) h = elim h [ ]
    resolved_complete (x ∷ rest) [] h = elim h [ ]
    resolved_complete ((name, spec) ∷ rest) (d ∷ ds) (r, h) =
        let (a, e) = (resolve_dependency_iff world package_root m lockfile index name spec d).1 r in
        let ih = resolved_complete rest ds h in rw (a, e, ih)
