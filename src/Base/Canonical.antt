-- ===== src/Base/Canonical.antt =====
-- Sorting by a total order and dropping equal neighbours gives one list for each set of elements.
use mathlib.Core.Bool.{Bool, true, false, true≢false, Bool-set}
use mathlib.Core.HLevel.{×_prop}
use mathlib.Core.Path.{◌≡◌, refl, sym, ◌∙◌, subst}
use mathlib.Core.List.{List, [], ◌∷◌, Memᴰ}
use mathlib.Core.List.Memᴰ as MemD
use mathlib.Core.Logic.{◌↔◌, ◌⊎◌, inl, inr}
use etas.Base.Tests.{Bool-cases}
use etas.Base.Lists.{All}
use etas.Base.Sorted.{mem-sort_by, mem-dedup_by}
use etas.Base.Sort.{insert_by, sort_by, dedup_after, dedup_by, All-insert_by}

-- A Boolean test that is a total order, with a test for equality.
pub record IsOrder {ℓ} {A : Type ℓ} (le same : A → A → Bool) : Type ℓ where
  pub le_flip : (a b : A) → le a b ≡ false → le b a ≡ true
  pub le_trans : (a b c : A) → le a b ≡ true → le b c ≡ true → le a c ≡ true
  pub le_antisym : (a b : A) → le a b ≡ true → le b a ≡ true → a ≡ b
  pub same_iff : (a b : A) → (same a b ≡ true) ↔ (a ≡ b)

-- The same elements, whatever their order and how often they stand.
abbrev pub SameElements {ℓ} : {A : Type ℓ} → List A → List A → Type ℓ
SameElements xs ys = (z : _) → Memᴰ z xs ↔ Memᴰ z ys

pub SameElements-sym {ℓ} : {A : Type ℓ} {xs ys : List A} → SameElements xs ys → SameElements ys xs
SameElements-sym h z = ((h z).1, (h z).0)

pub SameElements-trans {ℓ} :
    {A : Type ℓ} {xs ys zs : List A} → SameElements xs ys → SameElements ys zs → SameElements xs zs
SameElements-trans h k z = ((λ m. (k z).0 ((h z).0 m)), (λ m. (h z).1 ((k z).1 m)))

module _ {ℓ} {A : Type ℓ} (le : A → A → Bool) where
  abbrev pub IsAscending : List A → Type 0
  IsAscending [] = Unit
  IsAscending (x ∷ xs) = All (λ y. le x y ≡ true) xs × IsAscending xs

  abbrev pub IsStrict : List A → Type 0
  IsStrict [] = Unit
  IsStrict (x ∷ xs) = All (λ y. le y x ≡ false) xs × IsStrict xs

  All-prop : (x : A) (ys : List A) → IsProp (All (λ y. le y x ≡ false) ys)
  All-prop x [] = hlevel
  All-prop x (y ∷ ys) = ×_prop (Bool-set _ _) (All-prop x ys)

  pub IsStrict-prop : (xs : List A) → IsProp (IsStrict xs)
  IsStrict-prop [] = hlevel
  IsStrict-prop (x ∷ xs) = ×_prop (All-prop x xs) (IsStrict-prop xs)

module _ {ℓ} {A : Type ℓ} {le same : A → A → Bool} (order : IsOrder le same) where
  open order use {le_flip, le_trans, le_antisym, same_iff}

  le_refl : (a : A) → le a a ≡ true
  le_refl a = elim (Bool-cases (le a a)) [ inl e ↦ e | inr e ↦ le_flip a a e ]

  All-le :
      (x y : A) (zs : List A)
      → le x y ≡ true
      → All (λ z. le y z ≡ true) zs
      → All (λ z. le x z ≡ true) zs
  All-le x y [] h a = tt
  All-le x y (z ∷ zs) h (k, a) = (le_trans x y z h k, All-le x y zs h a)

  insert_by-IsAscending :
      (x : A) (ys : List A) → IsAscending le ys → IsAscending le (insert_by le x ys)
  unfolding insert_by
  insert_by-IsAscending x [] h = (tt, tt)
  insert_by-IsAscending x (y ∷ ys) (a, h) = elim (Bool-cases (le x y)) [
    | inl e ↦ rw e ((e, All-le x y ys e a), (a, h))
    | inr e ↦
        rw e (
          All-insert_by (λ z. le y z ≡ true) le x ys (le_flip x y e) a,
          insert_by-IsAscending x ys h,
        )
  ]

  pub sort_by-IsAscending : (xs : List A) → IsAscending le (sort_by le xs)
  unfolding sort_by
  sort_by-IsAscending [] = tt
  sort_by-IsAscending (x ∷ xs) = insert_by-IsAscending x (sort_by le xs) (sort_by-IsAscending xs)

  before_trans : (z y x : A) → le z y ≡ false → le x y ≡ true → le z x ≡ false
  before_trans z y x h k = elim (Bool-cases (le z x)) [
    | inl e ↦ absurd (true≢false (sym (le_trans z x y e k) ∙ h))
    | inr e ↦ e
  ]

  All-before :
      (x y : A) (zs : List A)
      → le x y ≡ true
      → All (λ z. le z y ≡ false) zs
      → All (λ z. le z x ≡ false) zs
  All-before x y [] h a = tt
  All-before x y (z ∷ zs) h (k, a) = (before_trans z y x k h, All-before x y zs h a)

  dedup_after-IsStrict :
      (last : A) (xs : List A)
      → IsAscending le (last ∷ xs)
      → IsStrict le (last ∷ dedup_after same last xs)
  unfolding dedup_after
  dedup_after-IsStrict last [] h = (tt, tt)
  dedup_after-IsStrict last (y ∷ ys) ((k, a), (b, h)) = elim (Bool-cases (same y last)) [
    | inl e ↦ rw e (dedup_after-IsStrict last ys (a, h))
    | inr e ↦ rw e (next e (dedup_after-IsStrict y ys (b, h)))
  ]
    where
      next :
          same y last ≡ false
          → IsStrict le (y ∷ dedup_after same y ys)
          → IsStrict le (last ∷ y ∷ dedup_after same y ys)
      next e (c, s) = ((above e, All-before last y (dedup_after same y ys) k c), (c, s))
        where
          above : same y last ≡ false → le y last ≡ false
          above e = elim (Bool-cases (le y last)) [
            | inl q ↦ absurd (true≢false (sym ((same_iff y last).1 (le_antisym y last q k)) ∙ e))
            | inr q ↦ q
          ]

  dedup_by-IsStrict : (xs : List A) → IsAscending le xs → IsStrict le (dedup_by same xs)
  unfolding dedup_by
  dedup_by-IsStrict [] h = tt
  dedup_by-IsStrict (x ∷ xs) h = dedup_after-IsStrict x xs h

  pub sort_dedup-IsStrict : (xs : List A) → IsStrict le (dedup_by same (sort_by le xs))
  sort_dedup-IsStrict xs = dedup_by-IsStrict (sort_by le xs) (sort_by-IsAscending xs)

  pub sort_dedup-SameElements : (xs : List A) → SameElements (dedup_by same (sort_by le xs)) xs
  sort_dedup-SameElements xs z =
      let sorted = mem-sort_by le xs z in
      let dropped = mem-dedup_by same (λ a b. (same_iff a b).0) (sort_by le xs) z in
      ((λ m. sorted.0 (dropped.0 m)), (λ m. dropped.1 (sorted.1 m)))

  mem-cases : {z x : A} {xs : List A} → Memᴰ z (x ∷ xs) → (z ≡ x) ⊎ Memᴰ z xs
  mem-cases (MemD.head e) = inl e
  mem-cases (MemD.tail m) = inr m

  no_mem : {z : A} → Memᴰ z [] → ⊥
  no_mem m = elim m [ ]

  before-mem : (x z : A) (xs : List A) → All (λ y. le y x ≡ false) xs → Memᴰ z xs → le z x ≡ false
  before-mem x z (y ∷ ys) (p, a) m = elim (mem-cases m) [
    | inl e ↦ subst (λ k. le k x ≡ false) (sym e) p
    | inr k ↦ before-mem x z ys a k
  ]
  before-mem x z [] a m = absurd (no_mem m)

  -- Without the first element, which stands once.
  mem-rest :
      (x y : A) (xs ys : List A)
      → x ≡ y
      → All (λ z. le z x ≡ false) xs
      → ((z : A) → Memᴰ z (x ∷ xs) → Memᴰ z (y ∷ ys))
      → (z : A) → Memᴰ z xs
      → Memᴰ z ys
  mem-rest x y xs ys e a h z m = elim (mem-cases (h z (MemD.tail m))) [
    | inl q ↦ absurd (
        true≢false
          (sym (le_refl x) ∙ subst (λ k. le k x ≡ false) (q ∙ sym e) (before-mem x z xs a m)))
    | inr k ↦ k
  ]

  first_lem :
      (x y : A) (xs ys : List A)
      → All (λ z. le z x ≡ false) xs
      → All (λ z. le z y ≡ false) ys
      → SameElements (x ∷ xs) (y ∷ ys)
      → x ≡ y
  first_lem x y xs ys a b h = elim (mem-cases ((h x).0 (MemD.head refl))) [
    | inl e ↦ e
    | inr m ↦ elim (mem-cases ((h y).1 (MemD.head refl))) [
      | inl e ↦ sym e
      | inr k ↦
          absurd (true≢false (sym (le_flip x y (before-mem y x ys b m)) ∙ before-mem x y xs a k))
    ]
  ]

  -- A strictly ascending list is the only one with its elements.
  pub IsStrict-unique :
      (xs ys : List A) → IsStrict le xs → IsStrict le ys → SameElements xs ys → xs ≡ ys
  IsStrict-unique [] [] s t h = refl
  IsStrict-unique [] (y ∷ ys) s t h = absurd (no_mem ((h y).1 (MemD.head refl)))
  IsStrict-unique (x ∷ xs) [] s t h = absurd (no_mem ((h x).0 (MemD.head refl)))
  IsStrict-unique (x ∷ xs) (y ∷ ys) (a, s) (b, t) h =
      let e = first_lem x y xs ys a b h in
      let rest = IsStrict-unique xs ys s t (λ z.
        (mem-rest x y xs ys e a (λ k. (h k).0) z, mem-rest y x ys xs (sym e) b (λ k. (h k).1) z)) in
      λ i. e i ∷ rest i
