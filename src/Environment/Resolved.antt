-- ===== src/Environment/Resolved.antt =====
-- What a dependency is that a round of `build_environment` resolves without a diagnostic.
use etas.Base.{
  Text, codes, same_text_iff, Option, none, some, Bool, true, false, not, ◌&&◌, [], ◌≡◌, ◌≢◌, ◌↔◌,
  inl, inr, refl, sym, arith, Bool-cases, if◌then◌else◌,
}
use mathlib.Core.Path.{subst}
use mathlib.Core.Option.{some-injective}
use etas.Diagnostics.{PackageDiagnostic, report_if}
use etas.Manifest.Schema.{Manifest, DependencySpec}
use etas.Manifest.Dependency.{version, import_root, package_name}
use etas.Metadata.{ResolvedDependency, is_builtin_package}
use etas.Lockfile.{LockedPackage, Lockfile}
use etas.Resolver.Source.{resolved_source_from_lockfile, spec_source_requires_exact_git_rev}
use etas.Lock.Policy.{lockfile_package}
use etas.Environment.Model.{Carried, PackageIndex}
use etas.Environment.Build.{
  World, contains_text, lockfile_package_for_spec, dependency_metadata, builtin_std_dependency,
  resolve_builtin, resolve_locked, resolve_dependency,
}
use mathlib.Core.Logic.{◌⊎◌, ⊎_elim}
use etas.Environment.Verified.{
  Satisfies, requirement_iff, Gives, prefixed_iff, IsClean, IsVerifiedWith, metadata_iff,
}

rev_iff :
    (b c : Bool) (d : PackageDiagnostic)
    → (report_if (b && not c) d ≡ []) ↔ ((b ≡ false) ⊎ (c ≡ true))
rev_iff true true d = ((λ h. inr refl), (λ h. refl))
rev_iff true false d = ((λ h. absurd (cc)), ⊎_elim (λ e. absurd (cc)) (λ e. absurd (cc)))
rev_iff false true d = ((λ h. inl refl), (λ h. refl))
rev_iff false false d = ((λ h. inl refl), (λ h. refl))

module _ {K P : Type 0} where
  module _ (world : World K P) (package_root : Text) (m : Manifest) (lockfile : Lockfile) where
    -- A builtin dependency is the standard library, at the version that is locked.
    abbrev pub IsBuiltin :
        DependencySpec → ResolvedDependency K (Carried P) → Option LockedPackage → Type 0
    IsBuiltin spec d o =
        (locked : LockedPackage) × (o ≡ some locked)
        × (locked.source ≡ codes "builtin")
        × Satisfies world.semver (version spec) locked.version
        × (d
            ≡ builtin_std_dependency world package_root m lockfile locked.version
                m.package_section.edition)

    builtin_lem :
        (name : Text) (spec : DependencySpec) (locked : LockedPackage)
        (d : ResolvedDependency K (Carried P))
        → Gives (resolve_builtin world package_root m lockfile name spec (some locked)) d ↔ (
            (locked.source ≡ codes "builtin")
            × Satisfies world.semver (version spec) locked.version
            × (d
                ≡ builtin_std_dependency world package_root m lockfile locked.version
                    m.package_section.edition))
    unfolding resolve_builtin
    builtin_lem name spec locked d = ground (
      arith,
      same_text_iff locked.source (codes "builtin"),
      requirement_iff world.semver package_root name (version spec) locked.version,
    )

    IsBuiltin-iff :
        (name : Text) (spec : DependencySpec) (o : Option LockedPackage)
        (d : ResolvedDependency K (Carried P))
        → Gives (resolve_builtin world package_root m lockfile name spec o) d ↔ IsBuiltin spec d o
    unfolding resolve_builtin
    IsBuiltin-iff name spec none d = ((λ h. absurd (cc)), (λ (l, e, _, _, _). absurd (cc)))
    IsBuiltin-iff name spec (some locked) d =
        let both = builtin_lem name spec locked d in
        (
          (λ h. let (x, y, z) = both.0 h in (locked, refl, x, y, z)),
          (λ (l, e, b, c, f). both.1 (
              subst
                (λ q.
                  (q.source ≡ codes "builtin")
                  × Satisfies world.semver (version spec) q.version
                  × (d
                      ≡ builtin_std_dependency world package_root m lockfile q.version
                          m.package_section.edition))
                (sym (some-injective locked l e)) (b, c, f))),
        )

    -- What every other dependency of the manifest is: locked, at an exact revision if it comes from a
    -- repository, at a version that the manifest accepts, and in the index with what the lockfile says.
    abbrev pub IsLockedAtWith :
        (Text → ResolvedDependency K (Carried P) → Type 0)
        → Option (PackageIndex K P)
        → Text
        → DependencySpec
        → ResolvedDependency K (Carried P)
        → LockedPackage
        → Type 0
    IsLockedAtWith Graph index name spec d locked =
        ((spec_source_requires_exact_git_rev spec ≡ false)
          ⊎ (contains_text (codes "rev=") locked.source ≡ true))
        × Satisfies world.semver (version spec) locked.version
        × (dependency_metadata index spec name (import_root spec name) locked ≡ some d)
        × (resolved_source_from_lockfile locked ≢ none)
        × IsVerifiedWith world package_root m lockfile Graph name locked d

    abbrev pub IsLockedAt :
        Option (PackageIndex K P)
        → Text
        → DependencySpec
        → ResolvedDependency K (Carried P)
        → LockedPackage
        → Type 0
    IsLockedAt = IsLockedAtWith (IsClean world package_root m lockfile)

    abbrev pub IsExternalWith :
        (Text → ResolvedDependency K (Carried P) → Type 0)
        → Option (PackageIndex K P)
        → Text
        → DependencySpec
        → ResolvedDependency K (Carried P)
        → Option LockedPackage
        → Type 0
    IsExternalWith Graph index name spec d o =
        (locked : LockedPackage) × (o ≡ some locked) × IsLockedAtWith Graph index name spec d locked

    abbrev pub IsExternal :
        Option (PackageIndex K P)
        → Text
        → DependencySpec
        → ResolvedDependency K (Carried P)
        → Option LockedPackage
        → Type 0
    IsExternal = IsExternalWith (IsClean world package_root m lockfile)

    locked_lem :
        (index : Option (PackageIndex K P)) (name : Text) (spec : DependencySpec)
        (locked : LockedPackage) (d : ResolvedDependency K (Carried P))
        → Gives (resolve_locked world package_root m lockfile index name spec (some locked)) d
          ↔ IsLockedAt index name spec d locked
    unfolding resolve_locked
    locked_lem index name spec locked d =
        let read =
          metadata_iff world package_root m lockfile name (import_root spec name) locked d
            (dependency_metadata index spec name (import_root spec name) locked)
            (resolved_source_from_lockfile locked) in
        let exact =
          rev_iff (spec_source_requires_exact_git_rev spec)
            (contains_text (codes "rev=") locked.source) _ in
        let required =
          requirement_iff world.semver package_root name (version spec) locked.version in
        let outer = prefixed_iff _ _ d in
        let middle = prefixed_iff _ _ d in
        (
          (λ h.
              let (a, g) = outer.0 h in
              let (b, k) = middle.0 g in
              let (x, y, z) = read.0 k in (exact.0 a, required.0 b, x, y, z)),
          (λ (a, b, x, y, z). outer.1 (exact.1 a, middle.1 (required.1 b, read.1 (x, y, z)))),
        )

    locked_iff :
        (index : Option (PackageIndex K P)) (name : Text) (spec : DependencySpec)
        (o : Option LockedPackage) (d : ResolvedDependency K (Carried P))
        → Gives (resolve_locked world package_root m lockfile index name spec o) d
          ↔ IsExternal index name spec d o
    unfolding resolve_locked
    locked_iff index name spec none d = ((λ h. absurd (cc)), (λ (l, e, _). absurd (cc)))
    locked_iff index name spec (some locked) d =
        let both = locked_lem index name spec locked d in
        (
          (λ h. (locked, refl, both.0 h)),
          (λ (l, e, v).
              both.1 (subst (IsLockedAt index name spec d) (sym (some-injective locked l e)) v)),
        )

    -- What a dependency of the manifest is resolved to; `Graph` is about what is below it.
    abbrev pub IsResolvedWith :
        (Text → ResolvedDependency K (Carried P) → Type 0)
        → Option (PackageIndex K P)
        → Text
        → DependencySpec
        → ResolvedDependency K (Carried P)
        → Type 0
    IsResolvedWith Graph index name spec d =
        if is_builtin_package name
        then IsBuiltin spec d
            (lockfile_package lockfile (package_name spec name) (import_root spec name))
        else IsExternalWith Graph index name spec d
            (lockfile_package_for_spec lockfile spec name (import_root spec name))

    abbrev pub IsResolved :
        Option (PackageIndex K P)
        → Text
        → DependencySpec
        → ResolvedDependency K (Carried P)
        → Type 0
    IsResolved = IsResolvedWith (IsClean world package_root m lockfile)

    -- What is below a dependency may be said in another way, if that holds of what the index has.
    pub IsResolvedWith-map :
        (G H : Text → ResolvedDependency K (Carried P) → Type 0) (index : Option (PackageIndex K P))
        (name : Text) (spec : DependencySpec) (d : ResolvedDependency K (Carried P))
        → ((locked : LockedPackage)
            → dependency_metadata index spec name (import_root spec name) locked ≡ some d
            → G name d
            → H name d)
        → IsResolvedWith G index name spec d
        → IsResolvedWith H index name spec d
    IsResolvedWith-map G H index name spec d f r = elim (Bool-cases (is_builtin_package name)) [
      | inl e ↦ rw e (rw e at r)
      | inr e ↦
          let (locked, o, (exact, required, found, read, (s, p, g, h, c))) = rw e at r in
          rw e (locked, o, (exact, required, found, read, (s, p, g, f locked found h, c)))
    ]

    pub resolve_dependency_iff :
        (index : Option (PackageIndex K P)) (name : Text) (spec : DependencySpec)
        (d : ResolvedDependency K (Carried P))
        → Gives (resolve_dependency world package_root m lockfile index name spec) d
          ↔ IsResolved index name spec d
    unfolding resolve_dependency
    resolve_dependency_iff index name spec d = elim (Bool-cases (is_builtin_package name)) [
      | inl e ↦ rw e (IsBuiltin-iff name spec _ d)
      | inr e ↦ rw e (locked_iff index name spec _ d)
    ]
