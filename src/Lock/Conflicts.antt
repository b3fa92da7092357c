-- ===== src/Lock/Conflicts.antt =====
-- What inserting packages one by one keeps.
use etas.Base.{Text, same_text_iff, same_text_refl, Option, none, some, true}
use etas.Base.{List, [], ◌∷◌, ◌++◌, ◌≡◌, ◌≢◌, ◌↔◌, refl, sym, ◌∙◌, arith, All}
use etas.Base.TreeMap.{TreeMap, get, get-insert}
use etas.Diagnostics.{PackageDiagnostic}
use etas.Lockfile.{LockedPackage}
use etas.Lock.Packages.{
  same_texts, same_option, same_package, locked_package_key, Locking, conflict_diagnostic,
  insert_beside, insert_locked_package,
}

pub same_texts_iff : (xs ys : List Text) → (same_texts xs ys ≡ true) ↔ (xs ≡ ys)
same_texts_iff [] [] = ground arith
same_texts_iff [] (y ∷ ys) = ground arith
same_texts_iff (x ∷ xs) [] = ground arith
same_texts_iff (x ∷ xs) (y ∷ ys) = ground (arith, same_text_iff x y, same_texts_iff xs ys)

pub same_option_iff : (a b : Option Text) → (same_option a b ≡ true) ↔ (a ≡ b)
same_option_iff none none = ground arith
same_option_iff none (some b) = ground arith
same_option_iff (some a) none = ground arith
same_option_iff (some a) (some b) = ground (arith, same_text_iff a b)

pub same_package_iff : (a b : LockedPackage) → (same_package a b ≡ true) ↔ (a ≡ b)
unfolding same_package
same_package_iff a b = ground (
  arith,
  same_text_iff a.name b.name,
  same_text_iff a.version b.version,
  same_text_iff a.source b.source,
  same_text_iff a.checksum b.checksum,
  same_texts_iff a.dependencies b.dependencies,
  same_text_iff a.import_root b.import_root,
  same_option_iff a.metadata_fingerprint b.metadata_fingerprint,
)

unfoldable pub insert_all : List LockedPackage → Locking → Locking
insert_all [] s = s
insert_all (p ∷ ps) s = insert_all ps (insert_locked_package p s)

pub insert_all-append :
    (ps qs : List LockedPackage) (s : Locking)
    → insert_all (ps ++ qs) s ≡ insert_all qs (insert_all ps s)
unfolding insert_all
insert_all-append [] qs s = refl
insert_all-append (p ∷ ps) qs s = insert_all-append ps qs (insert_locked_package p s)

push-not_empty : (d : PackageDiagnostic) (ds : List PackageDiagnostic) → ds ++ d ∷ [] ≢ []
push-not_empty d [] e = absurd (cc)
push-not_empty d (c ∷ ds) e = absurd (cc)

-- What one package does to the packages locked so far, by what the look into the map gives.
module _ (p : LockedPackage) (s : Locking) where
  beside-quiet :
      (o : Option LockedPackage) → (insert_beside p o s).diagnostics ≡ [] → s.diagnostics ≡ []
  unfolding insert_beside
  beside-quiet none h = h
  beside-quiet (some q) h = ground (arith, h, push-not_empty (conflict_diagnostic p) s.diagnostics)

  beside-keeps :
      (o : Option LockedPackage)
      → get (locked_package_key p) s.packages ≡ o
      → (k : Text) (q : LockedPackage) → get k s.packages ≡ some q
      → get k (insert_beside p o s).packages ≡ some q
  unfolding insert_beside
  beside-keeps none e k q h = ground (
    arith,
    e,
    h,
    get-insert (locked_package_key p) k p s.packages,
    same_text_iff (locked_package_key p) k,
  )
  beside-keeps (some r) e k q h = ground (arith, h)

  beside-holds :
      (o : Option LockedPackage)
      → get (locked_package_key p) s.packages ≡ o
      → (insert_beside p o s).diagnostics ≡ []
      → get (locked_package_key p) (insert_beside p o s).packages ≡ some p
  unfolding insert_beside
  beside-holds none e h = ground (
    arith,
    get-insert (locked_package_key p) (locked_package_key p) p s.packages,
    same_text_refl (locked_package_key p),
  )
  beside-holds (some r) e h =
      ground
        (arith, e, h, same_package_iff r p, push-not_empty (conflict_diagnostic p) s.diagnostics)

abbrev pub Chosen : (Text → LockedPackage) → TreeMap LockedPackage → Type 0
Chosen f m = (k : Text) (q : LockedPackage) → get k m ≡ some q → f k ≡ q

module _ (f : Text → LockedPackage) (p : LockedPackage) (s : Locking) where
  beside-agrees :
      (o : Option LockedPackage)
      → get (locked_package_key p) s.packages ≡ o
      → f (locked_package_key p) ≡ p
      → Chosen f s.packages
      → s.diagnostics ≡ []
      → ((insert_beside p o s).diagnostics ≡ []) × Chosen f (insert_beside p o s).packages
  unfolding insert_beside
  beside-agrees none e fp c h = (
    h,
    (λ k q g. ground (
      arith,
      fp,
      c k q,
      g,
      get-insert (locked_package_key p) k p s.packages,
      same_text_iff (locked_package_key p) k,
    )),
  )
  beside-agrees (some r) e fp c h =
      let same : same_package r p ≡ true = (same_package_iff r p).1 (sym (c _ r e) ∙ fp) in
      rw (same, insert_beside) (h, c)

pub all_kept :
    (ps : List LockedPackage) (s : Locking)
    → (insert_all ps s).diagnostics ≡ []
    → (s.diagnostics ≡ [])
      × ((k : Text) (q : LockedPackage)
          → get k s.packages ≡ some q
          → get k (insert_all ps s).packages ≡ some q)
      × All (λ p. get (locked_package_key p) (insert_all ps s).packages ≡ some p) ps
unfolding insert_all insert_locked_package
all_kept [] s h = (h, (λ k q g. g), tt)
all_kept (p ∷ ps) s h =
    let (quiet, keeps, holds) = all_kept ps (insert_locked_package p s) h in
    (
      beside-quiet p s (get (locked_package_key p) s.packages) quiet,
      (λ k q g. keeps k q (beside-keeps p s (get (locked_package_key p) s.packages) refl k q g)),
      (keeps _ p (beside-holds p s (get (locked_package_key p) s.packages) refl quiet), holds),
    )

pub all_agree :
    (f : Text → LockedPackage) (ps : List LockedPackage) (s : Locking)
    → All (λ p. f (locked_package_key p) ≡ p) ps
    → Chosen f s.packages
    → s.diagnostics ≡ []
    → (insert_all ps s).diagnostics ≡ []
unfolding insert_all insert_locked_package
all_agree f [] s a c h = h
all_agree f (p ∷ ps) s (fp, a) c h =
    let (quiet, c') = beside-agrees f p s (get (locked_package_key p) s.packages) refl fp c h in
    all_agree f ps (insert_locked_package p s) a c' quiet
