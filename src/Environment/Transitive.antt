-- ===== src/Environment/Transitive.antt =====
-- What a graph without diagnostics is: the walk of `validate_transitive_lock_graph`, which does not go
-- below a package that it has seen, against the packages at every depth.
use etas.Base.{
  Text, true, List, [], ◌∷◌, ◌≡◌, ◌↔◌, ◌⊎◌, inl, inr, refl, sym, append-eq-nil, Bool-cases,
}
use mathlib.Core.Path.{subst}
use etas.Base.Distinct.{member}
use etas.Diagnostics.{PackageDiagnostic}
use etas.Metadata.{ResolvedDependency, resolved, Dependencies, nil, cons, dependencies}
use etas.Lockfile.{Lockfile}
use etas.Environment.Graph.{locked_child, validate_transitive_lock_graph, validate_children}
use etas.Environment.Agree.{
  In, Below, In-root, Below-In, key, check_child_iff, check_child_descends, IsLocked, IsCoherent,
}
use etas.Environment.Walked.{Expanded, Walked, Walked-refl, Walked-trans, Walked-cons}
use etas.Environment.Clean.{graph_clean}

module _ {K M : Type 0} (content_digest : ResolvedDependency K M → Text) where
  module _ (package_root : Text) (lockfile : Lockfile) (name : Text) where
    abbrev walk_from : ResolvedDependency K M → List Text → List PackageDiagnostic × List Text
    walk_from = validate_transitive_lock_graph content_digest package_root lockfile name

    abbrev walk_children_from : Dependencies K M → List Text → List PackageDiagnostic × List Text
    walk_children_from = validate_children content_digest package_root lockfile name

    module _ (R : ResolvedDependency K M → Type 0) where
      mutual
        unfolding validate_transitive_lock_graph In

        walk_lem :
            (d : ResolvedDependency K M) (seen : List Text)
            → ((x : ResolvedDependency K M) → In x d → R x)
            → (walk_from d seen).0 ≡ []
            → Walked content_digest lockfile R seen (walk_from d seen).1
              × (member (key content_digest d) (walk_from d seen).1 ≡ true)
        walk_lem (resolved i c r p ds f m) seen inside h =
            elim (Bool-cases (member (key content_digest (resolved i c r p ds f m)) seen)) [
              | inl old ↦ rw old (Walked-refl content_digest lockfile R seen, old)
              | inr new ↦ rw new (
                  let (w, ex) =
                    walk_children_lem ds (key content_digest (resolved i c r p ds f m) ∷ seen)
                      (λ x b. inside x (inr b)) (rw new at h) in
                  Walked-cons content_digest lockfile R (resolved i c r p ds f m) seen _
                    (inside (resolved i c r p ds f m) (inl refl)) ex w)
            ]

        walk_children_lem :
            (ds : Dependencies K M) (seen : List Text)
            → ((x : ResolvedDependency K M) → Below x ds → R x)
            → (walk_children_from ds seen).0 ≡ []
            → Walked content_digest lockfile R seen (walk_children_from ds seen).1
              × Expanded content_digest lockfile (walk_children_from ds seen).1 ds
        walk_children_lem nil seen inside h = (Walked-refl content_digest lockfile R seen, tt)
        walk_children_lem (cons d ds) seen inside h =
            let o = locked_child lockfile d in
            let own = (append-eq-nil _ _).0 h in
            let descends = check_child_descends content_digest package_root name d o own.0 in
            let rest = (append-eq-nil _ _).0 (rw descends at own.1) in
            let (w, m) = walk_lem d seen (λ x b. inside x (inl b)) rest.0 in
            let (v, ex) =
              walk_children_lem ds (walk_from d seen).1 (λ x b. inside x (inr b)) rest.1 in
            let same : (walk_children_from ds (walk_from d seen).1).1
                ≡ (walk_children_from (cons d ds) seen).1 =
              rw descends in
            subst
              (λ v.
                Walked content_digest lockfile R seen v
                × Expanded content_digest lockfile v (cons d ds))
              same
              (
                Walked-trans content_digest lockfile R seen (walk_from d seen).1
                    (walk_children_from ds (walk_from d seen).1).1 w v,
                (
                  (check_child_iff content_digest package_root name d o).0 own.0,
                  v.0 (key content_digest d) m,
                  ex,
                ),
              )

    module _ (seen : List Text) (R : ResolvedDependency K M → Type 0)
        (closed : (y : ResolvedDependency K M)
          → R y
          → member (key content_digest y) seen ≡ true
          → Expanded content_digest lockfile seen (dependencies y)) where
      mutual
        unfolding In

        tree_lem :
            (d x : ResolvedDependency K M)
            → ((y : ResolvedDependency K M) → In y d → R y)
            → member (key content_digest d) seen ≡ true
            → IsLocked content_digest lockfile d
            → In x d
            → IsLocked content_digest lockfile x
        tree_lem (resolved i c r p ds f m) x inside k l (inl e) =
            subst (IsLocked content_digest lockfile) (sym e) l
        tree_lem (resolved i c r p ds f m) x inside k l (inr b) =
            forest_lem ds x (λ y b. inside y (inr b))
              (closed (resolved i c r p ds f m) (inside (resolved i c r p ds f m) (inl refl)) k) b

        forest_lem :
            (ds : Dependencies K M) (x : ResolvedDependency K M)
            → ((y : ResolvedDependency K M) → Below y ds → R y)
            → Expanded content_digest lockfile seen ds
            → Below x ds
            → IsLocked content_digest lockfile x
        forest_lem nil x inside ex b = elim b [ ]
        forest_lem (cons d ds) x inside (l, k, ex) (inl b) =
            tree_lem d x (λ y b. inside y (inl b)) k l b
        forest_lem (cons d ds) x inside (l, k, ex) (inr b) =
            forest_lem ds x (λ y b. inside y (inr b)) ex b

    transitive_sound :
        (root x : ResolvedDependency K M)
        → IsCoherent content_digest root
        → (walk_from root []).0 ≡ []
        → Below x (dependencies root)
        → IsLocked content_digest lockfile x
    transitive_sound root x coherent h b =
        let (w, m) = walk_lem (λ y. In y root) root [] (λ y b. b) h in
        let closed =
          λ (y : ResolvedDependency K M) (r : In y root)
              (k : member (key content_digest y) (walk_from root []).1 ≡ true).
            expand y r (w.1 (key content_digest y) k) in
        forest_lem (walk_from root []).1 (λ y. In y root) closed (dependencies root) x
          (λ y b. Below-In y root b) (closed root (In-root root) m) b
      where
        expand :
            (y : ResolvedDependency K M)
            → In y root
            → (member (key content_digest y) [] ≡ true)
              ⊎ ((z : ResolvedDependency K M) × In z root
                  × (key content_digest z ≡ key content_digest y)
                  × Expanded content_digest lockfile (walk_from root []).1 (dependencies z))
            → Expanded content_digest lockfile (walk_from root []).1 (dependencies y)
        expand y r (inl k) = absurd (cc)
        expand y r (inr (z, rz, e, ex)) =
            subst (Expanded content_digest lockfile (walk_from root []).1) (coherent z y rz r e) ex

  -- If packages of the tree with one reference have the same dependencies, the walk reports nothing exactly
  -- when the lockfile has every package below the dependency, at every depth, with the version, source,
  -- checksum and edges that the metadata asks for, although it does not go below a reference for a second
  -- time.
  pub validate_transitive_lock_graph_iff :
      (package_root : Text) (lockfile : Lockfile) (name : Text) (root : ResolvedDependency K M)
      → IsCoherent content_digest root
      → ((validate_transitive_lock_graph content_digest package_root lockfile name root []).0 ≡ [])
        ↔ ((x : ResolvedDependency K M)
            → Below x (dependencies root)
            → IsLocked content_digest lockfile x)
  validate_transitive_lock_graph_iff package_root lockfile name root coherent = (
    (λ h x b. transitive_sound package_root lockfile name root x coherent h b),
    (λ l. graph_clean content_digest package_root lockfile name root [] l),
  )
