-- ===== src/Environment/Verified.antt =====
-- What the metadata is that `build_environment` verifies without a diagnostic.
use etas.Base.{
  Text, same_text, same_text_iff, Option, none, some, Bool, true, false, not, List, [], ◌∷◌, ◌++◌,
  ◌≡◌, ◌≢◌, ◌↔◌, refl, sym, ap, arith, append-eq-nil, if◌then◌else◌,
}
use mathlib.Core.Path.{subst}
use mathlib.Core.Option.{some-injective}
use etas.Diagnostics.{PackageDiagnostic, Result, ok, err}
use etas.Semver.{Semver, version_satisfies}
use etas.Manifest.Schema.{Manifest}
use etas.Base.Counts.{Permuted}
use etas.Metadata.{ResolvedDependency, source, dependencies}
use etas.Lockfile.{LockedPackage, Lockfile}
use etas.Resolver.Source.{LockedSourceRef, lock_source}
use etas.Lock.Packages.{dependency_lock_checksum, dependency_lock_refs}
use etas.Environment.Model.{Carried}
use etas.Environment.Graph.{
  validate_version_requirement, validate_locked_dependency_edges, validate_transitive_lock_graph,
}
use etas.Environment.Agree.{Below, IsLocked, edges_iff}
use etas.Environment.Payload.{validate_resolved_payload, IsPresent, validate_resolved_payload_iff}
use etas.Environment.Build.{World, checksum_mismatch, Found, resolve_payload, resolve_metadata}

abbrev pub Satisfies : Semver → Option Text → Text → Type 0
Satisfies semver none v = Unit {0}
Satisfies semver (some requirement) v = version_satisfies semver v requirement ≡ ok true

pub requirement_iff :
    (semver : Semver) (package_root name : Text) (o : Option Text) (v : Text)
    → (validate_version_requirement semver package_root name o v ≡ []) ↔ Satisfies semver o v
unfolding validate_version_requirement
requirement_iff semver package_root name none v = ground arith
requirement_iff semver package_root name (some requirement) v = ground arith

module _ {K P : Type 0} where
  abbrev pub Gives : Found K P → ResolvedDependency K (Carried P) → Type 0
  Gives r d = (r.0 ≡ []) × (r.1 ≡ some d)

  -- Without a diagnostic there is a dependency.
  abbrev pub Ends : Found K P → Type 0
  Ends r = r.0 ≡ [] → (d : ResolvedDependency K (Carried P)) × (r.1 ≡ some d)

  pub guarded_some :
      (b : Bool) (x : PackageDiagnostic) (r : Found K P)
      → Ends r
      → Ends (if not b then (x ∷ [], none) else r)
  guarded_some true x r e h = e h
  guarded_some false x r e h = absurd (cc)

  pub guarded_iff :
      (b : Bool) (x : PackageDiagnostic) (r : Found K P) (d : ResolvedDependency K (Carried P))
      → Gives (if not b then (x ∷ [], none) else r) d ↔ ((b ≡ true) × Gives r d)
  guarded_iff true x r d = ((λ h. (refl, h)), (λ (_, h). h))
  guarded_iff false x r d = ((λ h. absurd (cc)), (λ h. absurd (cc)))

  pub prefixed_iff :
      (xs : List PackageDiagnostic) (r : Found K P) (d : ResolvedDependency K (Carried P))
      → Gives (xs ++ r.0, r.1) d ↔ ((xs ≡ []) × Gives r d)
  prefixed_iff xs r d =
      let both = append-eq-nil xs r.0 in
      ((λ (h, k). let (a, b) = both.0 h in (a, (b, k))), (λ (a, (b, k)). (both.1 (a, b), k)))

  module _ (world : World K P) (package_root : Text) (m : Manifest) (lockfile : Lockfile) where
    abbrev pub digest : ResolvedDependency K (Carried P) → Text
    digest = world.content_digest

    -- The walk of the graph below the dependency reports nothing.
    abbrev pub IsClean : Text → ResolvedDependency K (Carried P) → Type 0
    IsClean name d = (validate_transitive_lock_graph digest package_root lockfile name d []).0 ≡ []

    -- The lockfile has every package below the dependency, as the metadata asks for it.
    abbrev pub LockedBelow : Text → ResolvedDependency K (Carried P) → Type 0
    LockedBelow name d =
        (x : ResolvedDependency K (Carried P))
        → Below x (dependencies d)
        → IsLocked digest lockfile x

    -- What the metadata is that was found for a locked package: its source, checksum and edges, up to
    -- their order, are those of the lockfile, its payload is there, and `Graph` holds of what is below it.
    abbrev pub IsVerifiedWith :
        (Text → ResolvedDependency K (Carried P) → Type 0)
        → Text
        → LockedPackage
        → ResolvedDependency K (Carried P)
        → Type 0
    IsVerifiedWith Graph name locked d =
        (locked.source ≡ lock_source (source d))
        × IsPresent world.vendor_payload world.payload package_root name (source d)
        × Permuted locked.dependencies (dependency_lock_refs digest (dependencies d))
        × Graph name d
        × (dependency_lock_checksum digest d ≡ locked.checksum)

    abbrev pub IsVerified : Text → LockedPackage → ResolvedDependency K (Carried P) → Type 0
    IsVerified name locked d = IsVerifiedWith IsClean name locked d

    payload_iff :
        (name : Text) (locked : LockedPackage) (d e : ResolvedDependency K (Carried P))
        (r : Result PackageDiagnostic (Unit {0}))
        → Gives (resolve_payload world package_root m lockfile name locked d r) e ↔ (
            (r ≡ ok tt)
            × (validate_locked_dependency_edges digest package_root locked d ≡ [])
            × ((validate_transitive_lock_graph digest package_root lockfile name d []).0 ≡ [])
            × (dependency_lock_checksum digest d ≡ locked.checksum)
            × (d ≡ e))
    unfolding resolve_payload
    payload_iff name locked d e (err x) = ((λ h. absurd (cc)), (λ h. absurd (cc)))
    payload_iff name locked d e (ok u) = ground (
      arith,
      same_text_iff (dependency_lock_checksum digest d) locked.checksum,
      append-eq-nil (validate_locked_dependency_edges digest package_root locked d)
          (validate_transitive_lock_graph digest package_root lockfile name d []).0,
      append-eq-nil
          (validate_locked_dependency_edges digest package_root locked d
            ++ (validate_transitive_lock_graph digest package_root lockfile name d []).0)
          (checksum_mismatch package_root name ∷ []),
    )

    IsVerified-iff :
        (name root : Text) (locked : LockedPackage) (d e : ResolvedDependency K (Carried P))
        (ref : LockedSourceRef)
        → Gives
            (resolve_metadata world package_root m lockfile name root locked (some d) (some ref))
            e
          ↔ ((d ≡ e) × IsVerified name locked d)
    unfolding resolve_metadata
    IsVerified-iff name root locked d e ref =
        let outer = guarded_iff (same_text locked.source (lock_source (source d))) _ _ e in
        let same = same_text_iff locked.source (lock_source (source d)) in
        let inner = payload_iff name locked d e (
          validate_resolved_payload world.vendor_payload world.payload package_root name
            (source d)) in
        let edges = edges_iff digest package_root locked d in
        let present =
          validate_resolved_payload_iff world.vendor_payload world.payload package_root name
            (source d) in
        (
          (λ h.
              let (s, g) = outer.0 h in
              let (p, a, b, c, q) = inner.0 g in (q, (same.0 s, present.0 p, edges.0 a, b, c))),
          (λ (q, (s, p, a, b, c)). outer.1 (same.1 s, inner.1 (present.1 p, edges.1 a, b, c, q))),
        )

    pub metadata_iff :
        (name root : Text) (locked : LockedPackage) (e : ResolvedDependency K (Carried P))
        (o : Option (ResolvedDependency K (Carried P))) (read : Option LockedSourceRef)
        → Gives (resolve_metadata world package_root m lockfile name root locked o read) e
          ↔ ((o ≡ some e) × (read ≢ none) × IsVerified name locked e)
    unfolding resolve_metadata
    metadata_iff name root locked e none read = ((λ h. absurd (cc)), (λ h. absurd (cc)))
    metadata_iff name root locked e (some d) none = ((λ h. absurd (cc)), (λ h. absurd (h.1 refl)))
    metadata_iff name root locked e (some d) (some ref) =
        let both = IsVerified-iff name root locked d e ref in
        (
          (λ h.
              let (q, v) = both.0 h in
              (ap some q, (λ n. absurd (cc)), subst (IsVerified name locked) q v)),
          (λ (q, n, v).
              let p = some-injective d e q in both.1 (p, subst (IsVerified name locked) (sym p) v)),
        )
