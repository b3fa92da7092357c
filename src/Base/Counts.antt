-- ===== src/Base/Counts.antt =====
-- Texts in a list, up to their order: sorting gives one list for each number of times that the texts
-- stand.
use etas.Base.{
  ℕ, ◌+◌, ◌<◌, Text, same_text, same_text_iff, same_text_refl, Bool, true, List, [], ◌∷◌, ◌≡◌, ◌↔◌,
  refl, sym, ap, ◌∙◌, arith, All, if◌then◌else◌,
}
use etas.Base.Sort.{insert_by, sort_by}
use etas.Base.Canonical.{IsOrder, IsAscending, sort_by-IsAscending}

abbrev pub count : Text → List Text → ℕ
count t [] = 0
count t (x ∷ xs) = (if same_text x t then 1 else 0) + count t xs

-- The same texts, each as often.
abbrev pub Permuted : List Text → List Text → Type 0
Permuted xs ys = (t : Text) → count t xs ≡ count t ys

module _ (le : Text → Text → Bool) where
  count-insert_by : (t x : Text) (ys : List Text) → count t (insert_by le x ys) ≡ count t (x ∷ ys)
  unfolding insert_by
  count-insert_by t x [] = refl
  count-insert_by t x (y ∷ ys) = ground (arith, count-insert_by t x ys)

  count-sort_by : (t : Text) (xs : List Text) → count t (sort_by le xs) ≡ count t xs
  unfolding sort_by
  count-sort_by t [] = refl
  count-sort_by t (x ∷ xs) = ground (arith, count-insert_by t x (sort_by le xs), count-sort_by t xs)

module _ {le : Text → Text → Bool} (order : IsOrder le same_text) where
  open order use {le_flip, le_antisym}

  le_refl : (a : Text) → le a a ≡ true
  le_refl a = ground (arith, le_flip a a)

  above_lem :
      (x t : Text) (xs : List Text)
      → All (λ y. le x y ≡ true) xs
      → 0 < count t (x ∷ xs)
      → le x t ≡ true
  above_lem x t [] a h = ground (arith, le_refl x, same_text_iff x t)
  above_lem x t (y ∷ ys) (a, rest) h =
      ground (arith, le_refl x, a, same_text_iff x t, same_text_iff y t, above_lem x t ys rest)

  first_lem :
      (x y : Text) (xs ys : List Text)
      → All (λ z. le x z ≡ true) xs
      → All (λ z. le y z ≡ true) ys
      → Permuted (x ∷ xs) (y ∷ ys)
      → x ≡ y
  first_lem x y xs ys a b h =
      le_antisym x y (above_lem x y xs a (ground (arith, h y, same_text_refl y)))
        (above_lem y x ys b (ground (arith, h x, same_text_refl x)))

  ascending_unique :
      (xs ys : List Text) → IsAscending le xs → IsAscending le ys → Permuted xs ys → xs ≡ ys
  ascending_unique [] [] s t h = refl
  ascending_unique [] (y ∷ ys) s t h = absurd (ground (arith, h y, same_text_refl y))
  ascending_unique (x ∷ xs) [] s t h = absurd (ground (arith, h x, same_text_refl x))
  ascending_unique (x ∷ xs) (y ∷ ys) (a, s) (b, t) h =
      let e = first_lem x y xs ys a b h in
      let rest = ascending_unique xs ys s t (λ z. ground (arith, h z, ap (λ k. same_text k z) e)) in
      λ i. e i ∷ rest i

  -- Two lists are sorted to one exactly when they have the same texts, each as often.
  pub sort_by_iff : (xs ys : List Text) → (sort_by le xs ≡ sort_by le ys) ↔ Permuted xs ys
  sort_by_iff xs ys = (
    (λ e t. sym (count-sort_by le t xs) ∙ ap (count t) e ∙ count-sort_by le t ys),
    λ h.
        ascending_unique (sort_by le xs) (sort_by le ys) (sort_by-IsAscending order xs)
          (sort_by-IsAscending order ys)
          (λ t. count-sort_by le t xs ∙ h t ∙ sym (count-sort_by le t ys)),
  )
