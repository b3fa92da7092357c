-- ===== src/Environment/Agree.antt =====
-- When a locked package is the one that the metadata of a dependency asks for, and what the checks of
-- one child say of it.
use etas.Base.Order.{cmp-eq_iff, cmp_refl, cmp_flip, cmp_trans, le_trans}
use etas.Base.Canonical.{IsOrder}
use etas.Base.Counts.{Permuted, sort_by_iff}
use etas.Base.{
  List, same_text, Text, same_text_iff, Option, none, some, true, [], ◌∷◌, ◌≡◌, ◌↔◌, ◌⊎◌, inl, inr,
  refl, sym, arith, append-eq-nil,
}
use mathlib.Core.Path.{subst}
use etas.Metadata.{
  ResolvedDependency, resolved, Dependencies, nil, cons, identity, import_root, source,
  dependencies,
}
use etas.Lockfile.{LockedPackage, Lockfile}
use etas.Resolver.Source.{lock_source}
use etas.Lock.Packages.{dependency_lock_checksum, dependency_lock_ref, dependency_lock_refs}
use etas.Lock.Conflicts.{same_texts_iff}
use mathlib.Core.Option.{some-injective}
use etas.Environment.Graph.{
  at_lock, text_le, sort, validate_locked_dependency_edges, check_child, locked_child,
}

module _ {K M : Type 0} where
  -- A package of a tree, and one of the trees in a list.
  unfoldable mutual
    pub In : ResolvedDependency K M → ResolvedDependency K M → Type 0
    In x (resolved i c r p ds f m) = (x ≡ resolved i c r p ds f m) ⊎ Below x ds

    pub Below : ResolvedDependency K M → Dependencies K M → Type 0
    Below x nil = ⊥
    Below x (cons d ds) = In x d ⊎ Below x ds

  pub In-root : (d : ResolvedDependency K M) → In d d
  unfolding In
  In-root (resolved i c r p ds f m) = inl refl

  pub Below-In : (x root : ResolvedDependency K M) → Below x (dependencies root) → In x root
  unfolding In
  Below-In x (resolved i c r p ds f m) b = inr b

text_order : IsOrder text_le same_text
text_order = record {
  le_flip = λ a b h. ground (arith, cmp_flip a b);
  le_trans = λ a b c h k. ground (arith, le_trans a b c);
  le_antisym =
      λ a b h k. ground (arith, cmp_trans a b a, cmp_refl a, cmp-eq_iff a b, cmp-eq_iff b a);
  same_iff = same_text_iff;
}

sort_iff : (xs ys : List Text) → (sort xs ≡ sort ys) ↔ Permuted xs ys
unfolding sort
sort_iff xs ys = sort_by_iff text_order xs ys

module _ {K M : Type 0} (content_digest : ResolvedDependency K M → Text) where
  abbrev pub key : ResolvedDependency K M → Text
  key = dependency_lock_ref content_digest

  -- The lockfile's package is the one that the metadata asks for: its version, source and checksum, and
  -- its dependencies up to their order.
  abbrev pub Agrees : LockedPackage → ResolvedDependency K M → Type 0
  Agrees locked d =
      (locked.version ≡ (identity d).version)
      × (locked.source ≡ lock_source (source d))
      × (locked.checksum ≡ dependency_lock_checksum content_digest d)
      × Permuted locked.dependencies (dependency_lock_refs content_digest (dependencies d))

  pub edges_iff :
      (package_root : Text) (locked : LockedPackage) (d : ResolvedDependency K M)
      → (validate_locked_dependency_edges content_digest package_root locked d ≡ [])
        ↔ Permuted locked.dependencies (dependency_lock_refs content_digest (dependencies d))
  unfolding validate_locked_dependency_edges
  edges_iff package_root locked d =
      let both =
        sort_iff locked.dependencies (dependency_lock_refs content_digest (dependencies d)) in
      let texts =
        same_texts_iff (sort locked.dependencies)
          (sort (dependency_lock_refs content_digest (dependencies d))) in
      ((λ h. both.0 (ground (arith, texts))), (λ k. ground (arith, texts, both.1 k)))

  Agrees-iff :
      (package_root name : Text) (child : ResolvedDependency K M) (locked : LockedPackage)
      → ((check_child content_digest package_root name child (some locked)).0 ≡ [])
        ↔ Agrees locked child
  unfolding check_child
  Agrees-iff package_root name child locked = ground (
    arith,
    same_text_iff locked.version (identity child).version,
    same_text_iff locked.source (lock_source (source child)),
    same_text_iff locked.checksum (dependency_lock_checksum content_digest child),
    append-eq-nil (validate_locked_dependency_edges content_digest package_root locked child) (
        at_lock package_root "package.lockfile.transitive_checksum_mismatch"
          ((identity child).name ∷ import_root child ∷ [])
        ∷ []),
    edges_iff package_root locked child,
  )

  abbrev pub Checked : Option LockedPackage → ResolvedDependency K M → Type 0
  Checked o child = (locked : LockedPackage) × (o ≡ some locked) × Agrees locked child

  pub check_child_iff :
      (package_root name : Text) (child : ResolvedDependency K M) (o : Option LockedPackage)
      → ((check_child content_digest package_root name child o).0 ≡ []) ↔ Checked o child
  check_child_iff package_root name child none =
      unfold check_child in ((λ h. absurd (cc)), (λ (l, e, _). absurd (cc)))
  check_child_iff package_root name child (some locked) =
      let both = Agrees-iff package_root name child locked in
      (
        (λ h. (locked, refl, both.0 h)),
        (λ (l, e, a). both.1 (subst (λ q. Agrees q child) (sym (some-injective locked l e)) a)),
      )

  pub check_child_descends :
      (package_root name : Text) (child : ResolvedDependency K M) (o : Option LockedPackage)
      → (check_child content_digest package_root name child o).0 ≡ []
      → (check_child content_digest package_root name child o).1 ≡ true
  unfolding check_child
  check_child_descends package_root name child none h = absurd (cc)
  check_child_descends package_root name child (some locked) h = ground (
    arith,
    append-eq-nil (validate_locked_dependency_edges content_digest package_root locked child) (
        at_lock package_root "package.lockfile.transitive_checksum_mismatch"
          ((identity child).name ∷ import_root child ∷ [])
        ∷ []),
  )

  -- The lockfile has what the metadata asks for.
  abbrev pub IsLocked : Lockfile → ResolvedDependency K M → Type 0
  IsLocked lockfile d = Checked (locked_child lockfile d) d

  -- Packages of the tree with one reference have the same dependencies.
  abbrev pub IsCoherent : ResolvedDependency K M → Type 0
  IsCoherent root =
      (x y : ResolvedDependency K M)
      → In x root
      → In y root
      → key x ≡ key y
      → dependencies x ≡ dependencies y
