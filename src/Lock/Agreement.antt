-- ===== src/Lock/Agreement.antt =====
-- Locking finds a conflict just where two packages of the index disagree under one key.
use etas.Base.Split.{split-append, join-split}
use etas.Base.{codes, split, join, contains, false, Text, Option, none, some}
use etas.Base.{List, [], ◌∷◌, ◌++◌, ◌≡◌, ◌≢◌, ◌↔◌, refl, sym, ap, ◌∙◌, All}
use etas.Base.TreeMap.{TreeMap, get}
use etas.Metadata.{ResolvedDependency, resolved, Dependencies, nil, cons}
use etas.Lockfile.{LockedPackage}
use etas.Lock.Packages.{
  key_of, locked_package_key, Locking, locked_index_dependency, dependency_lock_checksum,
  dependency_lock_refs, metadata_fingerprint, insert_index_dependency, insert_index_dependencies,
}
use etas.Resolver.Source.{lock_source}
use etas.Lock.Package.{started}
use etas.Lock.Conflicts.{insert_all, insert_all-append, all_kept, all_agree}

abbrev no_package : LockedPackage
no_package = record {
  name = [];
  version = [];
  source = [];
  checksum = [];
  dependencies = [];
  import_root = [];
  metadata_fingerprint = none;
}

abbrev or_no_package : Option LockedPackage → LockedPackage
or_no_package none = no_package
or_no_package (some p) = p

chosen_all :
    (m : TreeMap LockedPackage) (ps : List LockedPackage)
    → All (λ p. get (locked_package_key p) m ≡ some p) ps
    → All (λ p. or_no_package (get (locked_package_key p) m) ≡ p) ps
chosen_all m [] h = tt
chosen_all m (p ∷ ps) (e, h) = (ap or_no_package e, chosen_all m ps h)

-- Nothing in the import root and the name looks like the end of one.
abbrev pub HasNoBar : LockedPackage → Type 0
HasNoBar p = (contains p.import_root b'|' ≡ false) × (contains p.name b'|' ≡ false)

by_fields :
    (f : Text → LockedPackage) (ps : List LockedPackage)
    → All (λ p. f (locked_package_key p) ≡ p) ps
    → All (λ p. f (key_of p.import_root p.name p.version) ≡ p) ps
unfolding locked_package_key
by_fields f ps a = a

-- What the pieces of a key stand for.
abbrev of_pieces : ((import_root name version : Text) → LockedPackage) → List Text → LockedPackage
of_pieces f (root ∷ name ∷ rest) = f root name (join (codes "|") rest)
of_pieces f _ = no_package

pieces_lem :
    (f : (import_root name version : Text) → LockedPackage) (root name version : Text)
    → contains root b'|' ≡ false
    → contains name b'|' ≡ false
    → of_pieces f (split b'|' (key_of root name version)) ≡ f root name version
pieces_lem f root name version h k =
    ap (of_pieces f) (
      split-append b'|' root (name ++ (codes "|" ++ version)) h
      ∙ ap (λ ps. root ∷ ps) (split-append b'|' name version k))
    ∙ ap (f root name) (join-split b'|' version)

by_key :
    (f : (import_root name version : Text) → LockedPackage) (ps : List LockedPackage)
    → All HasNoBar ps
    → All (λ p. f p.import_root p.name p.version ≡ p) ps
    → All (λ p. of_pieces f (split b'|' (locked_package_key p)) ≡ p) ps
unfolding locked_package_key
by_key f [] b a = tt
by_key f (p ∷ ps) ((h, k), b) (e, a) =
    (pieces_lem f p.import_root p.name p.version h k ∙ e, by_key f ps b a)

nothing_locked : (k : Text) (q : LockedPackage) → get k started.packages ≢ some q
unfolding get
nothing_locked k q g = absurd (none-ne-some g)
  where
    none-ne-some : none ≡ some q → ⊥
    none-ne-some e = absurd (cc)

module _ {K M : Type 0} (content_digest : ResolvedDependency K M → Text) where
  -- The packages of an index in the order of the walk: a package before its dependencies.
  unfoldable mutual
    pub tree_packages : ResolvedDependency K M → List LockedPackage
    tree_packages (resolved i c r p ds f m) =
        record {
          name = i.name;
          version = i.version;
          source = lock_source p;
          checksum = dependency_lock_checksum content_digest (resolved i c r p ds f m);
          dependencies = dependency_lock_refs content_digest ds;
          import_root = r;
          metadata_fingerprint = metadata_fingerprint content_digest p f;
        }
        ∷ forest_packages ds

    pub forest_packages : Dependencies K M → List LockedPackage
    forest_packages nil = []
    forest_packages (cons d ds) = tree_packages d ++ forest_packages ds

  mutual
    unfolding insert_index_dependency locked_index_dependency insert_all tree_packages

    tree_lem :
        (d : ResolvedDependency K M) (s : Locking)
        → insert_index_dependency content_digest d s ≡ insert_all (tree_packages d) s
    tree_lem (resolved i c r p ds f m) s = forest_lem ds _

    forest_lem :
        (ds : Dependencies K M) (s : Locking)
        → insert_index_dependencies content_digest ds s ≡ insert_all (forest_packages ds) s
    forest_lem nil s = refl
    forest_lem (cons d ds) s =
        ap (insert_index_dependencies content_digest ds) (tree_lem d s)
        ∙ forest_lem ds (insert_all (tree_packages d) s)
        ∙ sym (insert_all-append (tree_packages d) (forest_packages ds) s)

  -- One package for each key.
  keys_iff :
      (ds : Dependencies K M)
      → ((insert_index_dependencies content_digest ds started).diagnostics ≡ []) ↔ (
          (f : Text → LockedPackage) × All (λ p. f (locked_package_key p) ≡ p) (forest_packages ds))
  keys_iff ds = (sound, complete)
    where
      sound :
          (insert_index_dependencies content_digest ds started).diagnostics ≡ []
          → (f : Text → LockedPackage) × All
              (λ p. f (locked_package_key p) ≡ p)
              (forest_packages ds)
      sound h =
          let (_, _, holds) =
            all_kept (forest_packages ds) started
              (ap (λ s. s.diagnostics) (sym (forest_lem ds started)) ∙ h) in
          (
            (λ k. or_no_package (get k (insert_all (forest_packages ds) started).packages)),
            chosen_all _ (forest_packages ds) holds,
          )

      complete :
          (f : Text → LockedPackage) × All (λ p. f (locked_package_key p) ≡ p) (forest_packages ds)
          → (insert_index_dependencies content_digest ds started).diagnostics ≡ []
      complete (f, a) =
          ap (λ s. s.diagnostics) (forest_lem ds started)
          ∙ all_agree f (forest_packages ds) started a (λ k q g. absurd (nothing_locked k q g)) refl

  -- If no import root and no name of the packages has a `|`, walking a package index reports no conflict
  -- exactly when the packages that it holds, at every depth, are determined by their import root, name and
  -- version: one package for each, with one source, checksum, fingerprint and list of dependencies.
  pub insert_index_dependencies_iff :
      (ds : Dependencies K M)
      → All HasNoBar (forest_packages ds)
      → ((insert_index_dependencies content_digest ds started).diagnostics ≡ []) ↔ (
          (f : (import_root name version : Text) → LockedPackage) × All
            (λ p. f p.import_root p.name p.version ≡ p)
            (forest_packages ds))
  insert_index_dependencies_iff ds bars = (
    (λ h.
        let (f, a) = (keys_iff ds).0 h in
        ((λ r n v. f (key_of r n v)), by_fields f (forest_packages ds) a)),
    (λ (f, a).
        (keys_iff ds).1 ((λ k. of_pieces f (split b'|' k)), by_key f (forest_packages ds) bars a)),
  )
