-- ===== src/Environment/Clean.antt =====
-- The walk of `validate_transitive_lock_graph` reports nothing if every package below the root is locked.
use etas.Base.{Text, List, [], ◌∷◌, ◌≡◌, inl, inr, refl, append-eq-nil, Bool-cases}
use etas.Base.Distinct.{member}
use etas.Diagnostics.{PackageDiagnostic}
use etas.Metadata.{ResolvedDependency, resolved, Dependencies, nil, cons, dependencies}
use etas.Lockfile.{Lockfile}
use etas.Environment.Graph.{locked_child, validate_transitive_lock_graph, validate_children}
use etas.Environment.Agree.{
  In, Below, In-root, Below-In, key, check_child_iff, check_child_descends, IsLocked,
}

module _ {K M : Type 0} (content_digest : ResolvedDependency K M → Text) where
  module _ (package_root : Text) (lockfile : Lockfile) (name : Text) where
    abbrev walk_from : ResolvedDependency K M → List Text → List PackageDiagnostic × List Text
    walk_from = validate_transitive_lock_graph content_digest package_root lockfile name

    abbrev walk_children_from : Dependencies K M → List Text → List PackageDiagnostic × List Text
    walk_children_from = validate_children content_digest package_root lockfile name

    mutual
      unfolding validate_transitive_lock_graph In

      pub graph_clean :
          (d : ResolvedDependency K M) (seen : List Text)
          → ((x : ResolvedDependency K M)
              → Below x (dependencies d)
              → IsLocked content_digest lockfile x)
          → (walk_from d seen).0 ≡ []
      graph_clean (resolved i c r p ds f m) seen l =
          elim (Bool-cases (member (key content_digest (resolved i c r p ds f m)) seen)) [
            | inl old ↦ rw old
            | inr new ↦
                rw new (children_clean ds (key content_digest (resolved i c r p ds f m) ∷ seen) l)
          ]

      children_clean :
          (ds : Dependencies K M) (seen : List Text)
          → ((x : ResolvedDependency K M) → Below x ds → IsLocked content_digest lockfile x)
          → (walk_children_from ds seen).0 ≡ []
      children_clean nil seen l = refl
      children_clean (cons d ds) seen l =
          let own =
            (check_child_iff content_digest package_root name d (locked_child lockfile d)).1
              (l d (inl (In-root d))) in
          let descends =
            check_child_descends content_digest package_root name d (locked_child lockfile d) own in
          rw (own, descends)
            ((append-eq-nil _ _).1 (
              graph_clean d seen (λ x b. l x (inl (Below-In x d b))),
              children_clean ds (walk_from d seen).1 (λ x b. l x (inr b)),
            ))
