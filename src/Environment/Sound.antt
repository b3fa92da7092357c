-- ===== src/Environment/Sound.antt =====
-- What a package environment is: the loop of `build_environment` as a whole, and its end.
use etas.Base.{Text, Option, some, false, List, [], ◌∷◌, ◌≡◌, refl, sym, ap, All, is_none}
use mathlib.Core.Path.{subst}
use mathlib.Core.Option
use mathlib.Core.Option.{some-injective}
use etas.Diagnostics.{PackageDiagnostic, PackageError, Result, ok}
use etas.Manifest.Schema.{Manifest}
use etas.Manifest.Validate.{validate}
use etas.Manifest.Valid.{validate_iff}
use etas.Metadata.{ResolvedDependency}
use etas.Lockfile.{Lockfile}
use etas.Environment.Model.{Carried, PackageIndex, PackageEnvironmentMetadata}
use etas.Environment.Finish.{index_modules, finish_with, finish_environment}
use etas.Environment.Build.{World, resolve_dependencies, build_with, build_environment}
use etas.Environment.Dependencies.{AllResolved, resolved_sound}
use etas.Environment.Found.{AllCoherent, index_dependencies}
use etas.Environment.Owned.{
  map-some, ok_unless-eq-ok, manifest_bindings-some, owners_iff, external_modules_owned,
}

module _ {K P : Type 0} where
  module _ (world : World K P) (package_root : Text) (m : Manifest) (lockfile : Lockfile)
      (index : Option (PackageIndex K P)) where
    -- With a validated manifest the `expect` of `finish_environment` never panics.
    pub build_environment-some :
        (path : Text)
        → validate world.semver path m ≡ ok tt
        → (r : Result PackageError (PackageEnvironmentMetadata K P)) × (build_environment world
              package_root m lockfile index
            ≡ some r)
    unfolding build_environment finish_environment
    build_environment-some path v =
        ends (resolve_dependencies world package_root m lockfile index m.dependencies)
      where
        ends :
            (r : List PackageDiagnostic × List (ResolvedDependency K (Carried P)))
            → (x : Result PackageError (PackageEnvironmentMetadata K P)) × (build_with world
                  package_root m lockfile index r
                ≡ some x)
        ends (d ∷ ds, dependencies) = (_, refl)
        ends ([], dependencies) =
            let (own, e) =
              manifest_bindings-some m.bindings.tools
                ((validate_iff world.semver path m).0 v).tools in
            (
              finish_with world.default_public package_root m lockfile index dependencies own,
              ap
                  (Option.map
                    (finish_with world.default_public package_root m lockfile index dependencies))
                  e,
            )

    finished :
        (ds : List (ResolvedDependency K (Carried P))) (env : PackageEnvironmentMetadata K P)
        → finish_environment world.default_public package_root m lockfile index ds ≡ some (ok env)
        → (env.dependencies ≡ ds) × All (λ m. is_none m.owner ≡ false) env.external_modules
    unfolding finish_environment finish_with
    finished ds env h =
        let (own, e, k) = map-some _ _ _ h in
        let (o, q) = ok_unless-eq-ok _ _ env k in
        (
          ap (λ (v : PackageEnvironmentMetadata K P). v.dependencies) (sym q),
          subst
              (λ (v : PackageEnvironmentMetadata K P).
                All (λ m. is_none m.owner ≡ false) v.external_modules)
              q
              (external_modules_owned world.default_public package_root index ds (
                (owners_iff package_root (index_modules world.default_public package_root index)).0
                  o)),
        )

    built :
        (r : List PackageDiagnostic × List (ResolvedDependency K (Carried P)))
        (env : PackageEnvironmentMetadata K P)
        → build_with world package_root m lockfile index r ≡ some (ok env)
        → (r.0 ≡ [])
          × (finish_environment world.default_public package_root m lockfile index r.1
              ≡ some (ok env))
    unfolding build_with
    built (d ∷ ds, dependencies) env h = absurd (cc)
    built ([], dependencies) env h = (refl, h)

    -- Every external module of the index has an owner.
    abbrev pub AllOwned : Type 0
    AllOwned =
        All (λ m. is_none m.owner ≡ false) (index_modules world.default_public package_root index)

    -- Whatever environment is built, its dependencies are those of the manifest, in order, each resolved:
    -- locked at a version that the manifest accepts, in the index with the source, checksum and edges that
    -- the lockfile has, its payload present and its graph without a diagnostic; and every external
    -- module of the environment has an owner.
    pub build_environment_sound :
        (env : PackageEnvironmentMetadata K P)
        → build_environment world package_root m lockfile index ≡ some (ok env)
        → AllResolved world package_root m lockfile index m.dependencies env.dependencies
          × All (λ m. is_none m.owner ≡ false) env.external_modules
    unfolding build_environment
    build_environment_sound env h =
        let r = resolve_dependencies world package_root m lockfile index m.dependencies in
        let (c, f) = built r env h in
        let (e, o) = finished r.1 env f in
        (
          subst (AllResolved world package_root m lockfile index m.dependencies) (sym e)
              (resolved_sound world package_root m lockfile index m.dependencies c),
          o,
        )

    -- Packages in the tree of one dependency of the index that have one reference have the same
    -- dependencies.
    abbrev pub IsIndexCoherent : Type 0
    IsIndexCoherent = AllCoherent world.content_digest (index_dependencies index)
