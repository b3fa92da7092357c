-- ===== src/Snapshot/Payload.antt =====
-- How runs compose, the source root of a manifest, and the bytes of a payload.
use etas.Base.{inl, inr, ℕ, Text, Option, none, some, true}
use etas.Base.{List, [], ◌∷◌, ◌++◌, ◌≡◌, refl, arith, is_some}
use mathlib.Core.Path.{subst, sym, ◌∙◌}
use etas.Base.Paths.{
  compare_path, compare_path_flip, to_text, IsNormal, Component, RelativePath, normal, root_dir,
  cur_dir, parent_dir,
}
use etas.Diagnostics.{Result, ok, err}
use etas.Snapshot.{Files, SourceSnapshotError}
use etas.Snapshot.Hoare.{Good}
use etas.Snapshot.Reader.{lookup}
use etas.Snapshot.Sizes.{Known, Covered, Covered-mono}
use etas.Base.Lossy.{from_utf8_lossy}
use Prim.Native.Nat.{lt, eq, gt}
use mathlib.Core.List.{Memᴰ}
use mathlib.Core.List.Memᴰ as MemD
use etas.Snapshot.Locked.{Run, and_then, index, insert_path, sort, source_root_from}

module _ {E A B : Type 0} (Q : B → Type 0) where
  pub Good-and_then :
      (m : Result (SourceSnapshotError E) A) (f : A → Run E B)
      → ((a : A) → m ≡ ok a → Good Q (f a))
      → Good Q (and_then m f)
  unfolding and_then
  Good-and_then (err e) f h = tt
  Good-and_then (ok a) f h = h a refl

  pub Good-index :
      (o : Option A) (f : A → Run E B)
      → is_some o ≡ true
      → ((a : A) → o ≡ some a → Good Q (f a))
      → Good Q (index o f)
  unfolding index
  Good-index none f e h = absurd (cc)
  Good-index (some a) f e h = h a refl

  pub Good-run :
      (P : A → Type 0) (o : Run E A) (f : A → Run E B)
      → Good P o
      → ((a : A) → P a → Good Q (f a))
      → Good Q (index o λ m. and_then m f)
  unfolding index and_then
  Good-run P none f g h = g
  Good-run P (some (err e)) f g h = tt
  Good-run P (some (ok a)) f g h = h a g

pub Known-insert_path :
    (fs : Files) (p : RelativePath) (ps : List RelativePath)
    → is_some (lookup p fs) ≡ true
    → Known fs ps
    → Known fs (insert_path p ps)
unfolding insert_path
Known-insert_path fs p [] h k = (h, tt)
Known-insert_path fs p (q ∷ qs) h (k, ks) = ground (arith, Known-insert_path fs p qs h ks)

pub Known-sort : (fs : Files) (ps : List RelativePath) → Known fs ps → Known fs (sort ps)
unfolding sort
Known-sort fs [] k = tt
Known-sort fs (p ∷ ps) (k, ks) = Known-insert_path fs p (sort ps) k (Known-sort fs ps ks)

IsNormal-append :
    (path : RelativePath) (part : Text) → IsNormal path → IsNormal (path ++ normal part ∷ [])
IsNormal-append [] part h = tt
IsNormal-append (root_dir ∷ path) part h = h
IsNormal-append (cur_dir ∷ path) part h = h
IsNormal-append (parent_dir ∷ path) part h = h
IsNormal-append (normal p ∷ path) part h = IsNormal-append path part h

abbrev NormalResult : {E : Type 0} → Result (SourceSnapshotError E) RelativePath → Type 0
NormalResult (ok p) = IsNormal p
NormalResult (err e) = ⊥

pub source_root_from-IsNormal :
    {E : Type 0} (root : RelativePath) (parts : List Component) (acc path : RelativePath)
    → IsNormal acc
    → source_root_from {E = E} root parts acc ≡ ok path
    → IsNormal path
unfolding source_root_from
source_root_from-IsNormal root [] acc path h e = subst NormalResult e h
source_root_from-IsNormal root (normal part ∷ parts) acc path h e =
    source_root_from-IsNormal root parts (acc ++ normal part ∷ []) path (IsNormal-append acc part h)
      e
source_root_from-IsNormal root (cur_dir ∷ parts) acc path h e =
    source_root_from-IsNormal root parts acc path h e
source_root_from-IsNormal root (root_dir ∷ parts) acc path h e = absurd (cc)
source_root_from-IsNormal root (parent_dir ∷ parts) acc path h e = absurd (cc)

abbrev pub bytes_of : Option (List ℕ) → List ℕ
bytes_of none = []
bytes_of (some bytes) = bytes

-- The payload's bytes, in the order of the paths: each path as text, with its file's bytes, and a zero
-- after each of the two.
abbrev pub payload : Files → List RelativePath → List ℕ
payload fs [] = []
payload fs (p ∷ ps) =
    (from_utf8_lossy (to_text p) ++ (0 ∷ bytes_of (lookup p fs)) ++ 0 ∷ []) ++ payload fs ps

mem-swap :
    (k p q : RelativePath) (xs ys : List RelativePath)
    → (Memᴰ k (p ∷ xs) → Memᴰ k ys)
    → Memᴰ k (p ∷ q ∷ xs)
    → Memᴰ k (q ∷ ys)
mem-swap k p q xs ys h m = elim (MemD.cases_cons m) [
  | inl e ↦ MemD.tail (h (MemD.head e))
  | inr n ↦ elim (MemD.cases_cons n) [ inl e ↦ MemD.head e | inr l ↦ MemD.tail (h (MemD.tail l)) ]
]

mem-insert_path :
    (k p : RelativePath) (ps : List RelativePath) → Memᴰ k (p ∷ ps) → Memᴰ k (insert_path p ps)
unfolding insert_path
mem-insert_path k p [] m = m
mem-insert_path k p (q ∷ qs) m =
    elim (compare_path p q)
      as (λ o. Memᴰ k (elim o [ gt ↦ q ∷ insert_path p qs | _ ↦ p ∷ q ∷ qs ])) [
        | lt ↦ m
        | eq ↦ m
        | gt ↦ mem-swap k p q qs (insert_path p qs) (mem-insert_path k p qs) m
      ]

mem-sort : (k : RelativePath) (ps : List RelativePath) → Memᴰ k ps → Memᴰ k (sort ps)
unfolding sort
mem-sort k [] m = m
mem-sort k (p ∷ ps) m =
    mem-insert_path k p (sort ps)
      (elim (MemD.cases_cons m) [ inl e ↦ MemD.head e | inr l ↦ MemD.tail (mem-sort k ps l) ])

pub Covered-sort : (fs : Files) (ps : List RelativePath) → Covered fs ps → Covered fs (sort ps)
Covered-sort fs ps c = Covered-mono fs ps (sort ps) (λ k m. mem-sort k ps m) c

lt≢gt : ¬ (lt ≡ gt)
lt≢gt e = absurd (cc)

eq≢gt : ¬ (eq ≡ gt)
eq≢gt e = absurd (cc)

-- No path stands before one that it is greater than.
abbrev pub IsOrdered : List RelativePath → Type 0
IsOrdered [] = Unit
IsOrdered (p ∷ []) = Unit
IsOrdered (p ∷ q ∷ ps) = ¬ (compare_path p q ≡ gt) × IsOrdered (q ∷ ps)

not_gt : (p q : RelativePath) → compare_path p q ≡ gt → ¬ (compare_path q p ≡ gt)
not_gt p q e f = lt≢gt (sym (compare_path_flip p q e) ∙ f)

insert_path-IsOrdered :
    (p q : RelativePath) (ps : List RelativePath)
    → compare_path p q ≡ gt
    → IsOrdered (q ∷ ps)
    → IsOrdered (q ∷ insert_path p ps)
unfolding insert_path
insert_path-IsOrdered p q [] e o = (not_gt p q e, tt)
insert_path-IsOrdered p q (r ∷ ps) e (h, o) =
    elim (compare_path p r)
        as (λ c.
          compare_path p r ≡ c
          → IsOrdered (q ∷ elim c [ gt ↦ r ∷ insert_path p ps | _ ↦ p ∷ r ∷ ps ])) [
            | lt ↦ λ d. (not_gt p q e, ((λ f. lt≢gt (sym d ∙ f)), o))
            | eq ↦ λ d. (not_gt p q e, ((λ f. eq≢gt (sym d ∙ f)), o))
            | gt ↦ λ d. (h, insert_path-IsOrdered p r ps d o)
          ]
      refl

pub sort-IsOrdered : (ps : List RelativePath) → IsOrdered (sort ps)
unfolding sort insert_path
sort-IsOrdered [] = tt
sort-IsOrdered (p ∷ ps) = insert_first p (sort ps) (sort-IsOrdered ps)
  where
    insert_first :
        (p : RelativePath) (qs : List RelativePath) → IsOrdered qs → IsOrdered (insert_path p qs)
    insert_first p [] o = tt
    insert_first p (q ∷ qs) o =
        elim (compare_path p q)
            as (λ c.
              compare_path p q ≡ c
              → IsOrdered (elim c [ gt ↦ q ∷ insert_path p qs | _ ↦ p ∷ q ∷ qs ])) [
                | lt ↦ λ d. ((λ f. lt≢gt (sym d ∙ f)), o)
                | eq ↦ λ d. ((λ f. eq≢gt (sym d ∙ f)), o)
                | gt ↦ λ d. insert_path-IsOrdered p q qs d o
              ]
          refl
