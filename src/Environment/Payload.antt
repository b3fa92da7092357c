-- ===== src/Environment/Payload.antt =====
-- `validate_resolved_payload` and `validate_store_payload` of
-- crates/etas_package/src/resolver/environment.rs. What hashing the payload at a path gives, if it can
-- be read, is a parameter, once with and once without the lock on the vendor directory.
use etas.Base.{
  Text, String, codes, same_text, same_text_iff, Option, none, some, not, [], ◌∷◌, ◌++◌, ◌≡◌, ◌↔◌,
  arith, if◌then◌else◌,
}
use etas.Diagnostics.{PackageDiagnostic, PackageError, Result, ok, err}
use etas.Metadata.{ResolvedDependencySource}
use etas.Manifest.Validate.{is_absolute}
use etas.Store.{package_store_relative_path, package_store_relative_path_iff, IsDigest, store_path}

-- `Path::join`
abbrev pub join_path : Text → Text → Text
join_path root path = if is_absolute path then path else root ++ (codes "/" ++ path)

module _ (vendor_payload payload : Text → Option Text) (package_root dependency_name : Text) where
  abbrev index_path : Option Text
  index_path = some (package_root ++ codes "/.etas/package-index.json")

  -- The payload at `root`, as it was read, against the checksum that it should have. The codes are
  -- those of an unreadable payload and of another checksum.
  unfoldable pub expect_payload :
      (unreadable mismatch : String) (root checksum : Text)
      → Option Text
      → Result PackageDiagnostic (Unit {0})
  expect_payload unreadable mismatch root checksum none =
      err (record { code = unreadable; message = dependency_name ∷ root ∷ []; path = some root })
  expect_payload unreadable mismatch root checksum (some actual) =
      if not (same_text actual checksum)
      then err (record {
        code = mismatch;
        message = dependency_name ∷ actual ∷ checksum ∷ [];
        path = some root;
      })
      else ok tt

  abbrev expect_stored : (root checksum : Text) → Result PackageDiagnostic (Unit {0})
  expect_stored root checksum =
      expect_payload "package.lockfile.store_payload_unreadable"
        "package.lockfile.store_payload_checksum_mismatch" root checksum (payload root)

  -- What follows the path that the store has for the checksum. The text of its error is left out.
  unfoldable pub expect_store_path :
      (checksum store : Text) → Result PackageError Text → Result PackageDiagnostic (Unit {0})
  unfolding expect_payload
  expect_store_path checksum store (err e) = err (record {
    code = "package.lockfile.invalid_store_checksum";
    message = dependency_name ∷ [];
    path = index_path;
  })
  expect_store_path checksum store (ok expected) =
      if not (same_text store expected)
      then err (record {
        code = "package.lockfile.store_path_mismatch";
        message = dependency_name ∷ store ∷ expected ∷ [];
        path = index_path;
      })
      else expect_stored (join_path package_root store) checksum

  unfoldable pub validate_store_payload :
      (checksum store : Text) → Result PackageDiagnostic (Unit {0})
  unfolding expect_store_path
  validate_store_payload checksum store =
      expect_store_path checksum store (package_store_relative_path checksum)

  -- A source that must have a place in the store.
  unfoldable pub validate_materialized : Text → Option Text → Result PackageDiagnostic (Unit {0})
  validate_materialized checksum none = err (record {
    code = "package.lockfile.store_missing";
    message = dependency_name ∷ [];
    path = index_path;
  })
  validate_materialized checksum (some store) = validate_store_payload checksum store

  -- After the payload of a vendored dependency, its copy in the store, if there is one.
  unfoldable pub validate_vendored :
      Text → Option Text → Result PackageDiagnostic (Unit {0}) → Result PackageDiagnostic (Unit {0})
  validate_vendored checksum store (err d) = err d
  validate_vendored checksum none (ok u) = ok tt
  validate_vendored checksum (some store) (ok u) =
      expect_stored (join_path package_root store) checksum

  unfoldable pub validate_resolved_payload :
      {K : Type 0} → ResolvedDependencySource K → Result PackageDiagnostic (Unit {0})
  unfolding validate_materialized validate_vendored expect_payload
  validate_resolved_payload (ResolvedDependencySource.builtin checksum) = ok tt
  validate_resolved_payload (ResolvedDependencySource.registry registry checksum store) =
      validate_materialized checksum store
  validate_resolved_payload (ResolvedDependencySource.git url rev checksum store) =
      validate_materialized checksum store
  validate_resolved_payload (ResolvedDependencySource.github_clone repo rev checksum store) =
      validate_materialized checksum store
  validate_resolved_payload
        (ResolvedDependencySource.github_release repo release asset a checksum store) =
      validate_materialized checksum store
  validate_resolved_payload (ResolvedDependencySource.path path checksum) =
      let root = join_path package_root path in
      expect_payload "package.lockfile.payload_unreadable"
        "package.lockfile.payload_checksum_mismatch" root checksum (payload root)
  validate_resolved_payload (ResolvedDependencySource.vendor path checksum store origin) =
      let root = join_path package_root path in
      validate_vendored checksum store (
        expect_payload "package.lockfile.payload_unreadable"
          "package.lockfile.payload_checksum_mismatch" root checksum (vendor_payload root))

  -- The place in the store that the checksum names holds a payload with that checksum.
  abbrev pub IsStored : Text → Option Text → Type 0
  IsStored checksum none = ⊥
  IsStored checksum (some store) =
      (digest : Text) × IsDigest digest
      × (checksum ≡ codes "blake3:" ++ digest)
      × (store ≡ store_path digest)
      × (payload (join_path package_root store) ≡ some checksum)

  abbrev pub IsCopied : Text → Option Text → Type 0
  IsCopied checksum none = Unit {0}
  IsCopied checksum (some store) = payload (join_path package_root store) ≡ some checksum

  -- The payload of a source is on the disk, with the checksum that the source has.
  abbrev pub IsPresent : {K : Type 0} → ResolvedDependencySource K → Type 0
  IsPresent (ResolvedDependencySource.builtin checksum) = Unit {0}
  IsPresent (ResolvedDependencySource.registry registry checksum store) = IsStored checksum store
  IsPresent (ResolvedDependencySource.git url rev checksum store) = IsStored checksum store
  IsPresent (ResolvedDependencySource.github_clone repo rev checksum store) =
      IsStored checksum store
  IsPresent (ResolvedDependencySource.github_release repo release asset a checksum store) =
      IsStored checksum store
  IsPresent (ResolvedDependencySource.path path checksum) =
      payload (join_path package_root path) ≡ some checksum
  IsPresent (ResolvedDependencySource.vendor path checksum store origin) =
      (vendor_payload (join_path package_root path) ≡ some checksum) × IsCopied checksum store

  expect_payload_iff :
      (u m : String) (root checksum : Text) (o : Option Text)
      → (expect_payload u m root checksum o ≡ ok tt) ↔ (o ≡ some checksum)
  unfolding expect_payload
  expect_payload_iff u m root checksum none = ground arith
  expect_payload_iff u m root checksum (some actual) = ground (arith, same_text_iff actual checksum)

  store_path_lem :
      (checksum store : Text) (r : Result PackageError Text)
      → (expect_store_path checksum store r ≡ ok tt)
        ↔ ((r ≡ ok store) × (payload (join_path package_root store) ≡ some checksum))
  unfolding expect_store_path
  store_path_lem checksum store (err e) = ground arith
  store_path_lem checksum store (ok expected) = ground (
    arith,
    same_text_iff store expected,
    expect_payload_iff "package.lockfile.store_payload_unreadable"
        "package.lockfile.store_payload_checksum_mismatch" (join_path package_root store) checksum
        (payload (join_path package_root store)),
  )

  materialized_iff :
      (checksum : Text) (store : Option Text)
      → (validate_materialized checksum store ≡ ok tt) ↔ IsStored checksum store
  unfolding validate_materialized validate_store_payload
  materialized_iff checksum none = ground arith
  materialized_iff checksum (some store) =
      let outer = store_path_lem checksum store (package_store_relative_path checksum) in
      let place = package_store_relative_path_iff checksum store in
      (
        (λ h. let (p, q) = outer.0 h in let (d, i, e, s) = place.0 p in (d, i, e, s, q)),
        (λ (d, i, e, s, q). outer.1 (place.1 (d, i, e, s), q)),
      )

  vendored_lem :
      (checksum : Text) (store : Option Text) (r : Result PackageDiagnostic (Unit {0}))
      → (validate_vendored checksum store r ≡ ok tt) ↔ ((r ≡ ok tt) × IsCopied checksum store)
  unfolding validate_vendored
  vendored_lem checksum store (err d) = ground arith
  vendored_lem checksum none (ok u) = ground arith
  vendored_lem checksum (some store) (ok u) = ground (
    arith,
    expect_payload_iff "package.lockfile.store_payload_unreadable"
        "package.lockfile.store_payload_checksum_mismatch" (join_path package_root store) checksum
        (payload (join_path package_root store)),
  )

  -- The payload of a resolved dependency passes exactly when it is on the disk with its checksum: at its
  -- path or in the vendor directory, or, for a registry, git or GitHub source, at the place in the
  -- store that the checksum names.
  pub validate_resolved_payload_iff :
      {K : Type 0} (s : ResolvedDependencySource K)
      → (validate_resolved_payload s ≡ ok tt) ↔ IsPresent s
  unfolding validate_resolved_payload
  validate_resolved_payload_iff (ResolvedDependencySource.builtin checksum) = ground arith
  validate_resolved_payload_iff (ResolvedDependencySource.registry r checksum store) =
      materialized_iff checksum store
  validate_resolved_payload_iff (ResolvedDependencySource.git u r checksum store) =
      materialized_iff checksum store
  validate_resolved_payload_iff (ResolvedDependencySource.github_clone u r checksum store) =
      materialized_iff checksum store
  validate_resolved_payload_iff (ResolvedDependencySource.github_release r l a ac checksum store) =
      materialized_iff checksum store
  validate_resolved_payload_iff (ResolvedDependencySource.path path checksum) =
      expect_payload_iff _ _ (join_path package_root path) checksum
        (payload (join_path package_root path))
  validate_resolved_payload_iff (ResolvedDependencySource.vendor path checksum store origin) =
      let outer = vendored_lem checksum store (
        expect_payload "package.lockfile.payload_unreadable"
          "package.lockfile.payload_checksum_mismatch" (join_path package_root path) checksum
          (vendor_payload (join_path package_root path))) in
      let inner =
        expect_payload_iff "package.lockfile.payload_unreadable"
          "package.lockfile.payload_checksum_mismatch" (join_path package_root path) checksum
          (vendor_payload (join_path package_root path)) in
      ((λ h. let (p, q) = outer.0 h in (inner.0 p, q)), (λ (p, q). outer.1 (inner.1 p, q)))
