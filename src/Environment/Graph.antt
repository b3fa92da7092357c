-- ===== src/Environment/Graph.antt =====
-- How a resolved dependency is held against a lockfile: the checks of
-- crates/etas_package/src/resolver/environment.rs on versions, edges and the graph below a dependency.
-- A function that pushes diagnostics returns those that it adds, in order.
use Prim.Native.Nat.{gt}
use etas.Base.{
  Text, String, codes, same_text, Option, none, some, Bool, true, false, not, List, [], ◌∷◌, ◌++◌,
  if◌then◌else◌,
}
use etas.Base.Order.{cmp}
use etas.Base.Sort.{sort_by}
use etas.Base.Distinct.{member}
use etas.Diagnostics.{PackageDiagnostic, ok, err, report_if}
use etas.Semver.{Semver, version_satisfies}
use etas.Metadata.{
  ResolvedDependency, resolved, Dependencies, nil, cons, identity, import_root, source,
  dependencies,
}
use etas.Lockfile.{LockedPackage, Lockfile}
use etas.Resolver.Source.{lock_source}
use etas.Lock.Packages.{
  same_texts, dependency_lock_checksum, dependency_lock_ref, dependency_lock_refs,
}
use etas.Lock.Policy.{lockfile_package}

-- `String: Ord`
abbrev pub text_le : Text → Text → Bool
text_le a b = elim (cmp a b) [ gt ↦ false | _ ↦ true ]

unfoldable pub sort : List Text → List Text
unfolding sort_by cmp
sort texts = sort_by text_le texts

abbrev pub at_lock : Text → String → List Text → PackageDiagnostic
at_lock package_root code message = record {
  code = code;
  message = message;
  path = some (package_root ++ codes "/etas.lock");
}

-- The text of the error is left out.
unfoldable pub validate_version_requirement :
    Semver
    → (package_root dependency_name : Text) → Option Text
    → (locked_version : Text) → List PackageDiagnostic
validate_version_requirement semver package_root name none locked_version = []
validate_version_requirement semver package_root name (some requirement) locked_version =
    elim (version_satisfies semver locked_version requirement) [
      | ok true ↦ []
      | ok false ↦
          at_lock package_root "package.lockfile.version_mismatch"
            (name ∷ locked_version ∷ requirement ∷ [])
          ∷ []
      | err e ↦
          record {
            code = "package.manifest.invalid_version_requirement";
            message = name ∷ requirement ∷ [];
            path = some (package_root ++ codes "/etas.toml");
          }
          ∷ []
    ]

abbrev pub locked_child : {K M : Type 0} → Lockfile → ResolvedDependency K M → Option LockedPackage
locked_child lockfile child = lockfile_package lockfile (identity child).name (import_root child)

module _ {K M : Type 0} (content_digest : ResolvedDependency K M → Text) (package_root : Text) where
  unfoldable pub validate_locked_dependency_edges :
      LockedPackage → ResolvedDependency K M → List PackageDiagnostic
  unfolding sort
  validate_locked_dependency_edges locked d =
      let expected = sort (dependency_lock_refs content_digest (dependencies d)) in
      let actual = sort locked.dependencies in
      report_if (not (same_texts actual expected)) (
        at_lock package_root "package.lockfile.dependency_edges_mismatch"
          (locked.name ∷ locked.import_root ∷ (actual ++ expected)))

  -- What the loop over the children reports of one child, and whether it goes on below the child.
  unfoldable pub check_child :
      Text → ResolvedDependency K M → Option LockedPackage → List PackageDiagnostic × Bool
  unfolding validate_locked_dependency_edges
  check_child name child none = (
    at_lock package_root "package.lockfile.transitive_dependency_missing"
          (name ∷ (identity child).name ∷ import_root child ∷ [])
        ∷ [],
    false,
  )
  check_child name child (some locked) =
      if not (same_text locked.version (identity child).version)
      then (
        at_lock package_root "package.lockfile.transitive_version_mismatch" (
              (identity child).name
              ∷ import_root child
              ∷ locked.version
              ∷ (identity child).version
              ∷ [])
            ∷ [],
        false,
      )
      else if not (same_text locked.source (lock_source (source child)))
      then (
        at_lock package_root "package.lockfile.transitive_source_mismatch" (
              (identity child).name
              ∷ import_root child
              ∷ locked.source
              ∷ lock_source (source child)
              ∷ [])
            ∷ [],
        false,
      )
      else if not (same_text locked.checksum (dependency_lock_checksum content_digest child))
      then (
        validate_locked_dependency_edges locked child
            ++ at_lock package_root "package.lockfile.transitive_checksum_mismatch"
                ((identity child).name ∷ import_root child ∷ [])
              ∷ [],
        false,
      )
      else (validate_locked_dependency_edges locked child, true)

  module _ (lockfile : Lockfile) (root_dependency_name : Text) where
    -- The set of visited references is an argument and a result.
    unfoldable mutual
      unfolding check_child

      pub validate_transitive_lock_graph :
          ResolvedDependency K M → List Text → List PackageDiagnostic × List Text
      validate_transitive_lock_graph (resolved i c r p ds f m) visited =
          let key = dependency_lock_ref content_digest (resolved i c r p ds f m) in
          let rest = validate_children ds (key ∷ visited) in
          if member key visited then ([], visited) else rest

      pub validate_children : Dependencies K M → List Text → List PackageDiagnostic × List Text
      validate_children nil visited = ([], visited)
      validate_children (cons child children) visited =
          let (own, descend) =
            check_child root_dependency_name child (locked_child lockfile child) in
          let below = validate_transitive_lock_graph child visited in
          let (found, seen) = if descend then below else ([], visited) in
          let (others, seen') = validate_children children seen in (own ++ (found ++ others), seen')
