-- ===== src/Base/Sort.antt =====
-- `slice::sort_by`: stable sorting, with the order as a Boolean test that equal elements pass.
use mathlib.Core.Bool.{Bool}
use mathlib.Core.List.{List, [], ◌∷◌}
use mathlib.Core.Logic.{inl, inr}
use etas.Base.Tests.{Bool-cases, if◌then◌else◌}
use etas.Base.Lists.{All}

module _ {ℓ} {A : Type ℓ} (le : A → A → Bool) where
  unfoldable pub insert_by : A → List A → List A
  insert_by x [] = x ∷ []
  insert_by x (y ∷ ys) = if le x y then x ∷ y ∷ ys else y ∷ insert_by x ys

  unfoldable pub sort_by : List A → List A
  unfolding insert_by
  sort_by [] = []
  sort_by (x ∷ xs) = insert_by x (sort_by xs)

-- `Vec::dedup_by`, with the element kept last as the second argument of the test.
module _ {ℓ} {A : Type ℓ} (same : A → A → Bool) where
  unfoldable pub dedup_after : A → List A → List A
  dedup_after last [] = []
  dedup_after last (y ∷ ys) =
      let dropped = dedup_after last ys in
      let kept = dedup_after y ys in if same y last then dropped else y ∷ kept

  unfoldable pub dedup_by : List A → List A
  unfolding dedup_after
  dedup_by [] = []
  dedup_by (x ∷ xs) = x ∷ dedup_after x xs

-- Sorting and dropping neighbours keep a property of all elements.
module _ {ℓ κ} {A : Type ℓ} (P : A → Type κ) where
  pub All-insert_by :
      (le : A → A → Bool) (x : A) (xs : List A) → P x → All P xs → All P (insert_by le x xs)
  unfolding insert_by
  All-insert_by le x [] p h = (p, tt)
  All-insert_by le x (y ∷ ys) p (q, h) = elim (Bool-cases (le x y)) [
    | inl e ↦ rw e (p, (q, h))
    | inr e ↦ rw e (q, All-insert_by le x ys p h)
  ]

  pub All-sort_by : (le : A → A → Bool) (xs : List A) → All P xs → All P (sort_by le xs)
  unfolding sort_by
  All-sort_by le [] h = tt
  All-sort_by le (x ∷ xs) (p, h) = All-insert_by le x (sort_by le xs) p (All-sort_by le xs h)

  All-dedup_after :
      (same : A → A → Bool) (last : A) (xs : List A) → All P xs → All P (dedup_after same last xs)
  unfolding dedup_after
  All-dedup_after same last [] h = tt
  All-dedup_after same last (y ∷ ys) (q, h) = elim (Bool-cases (same y last)) [
    | inl e ↦ rw e (All-dedup_after same last ys h)
    | inr e ↦ rw e (q, All-dedup_after same y ys h)
  ]

  pub All-dedup_by : (same : A → A → Bool) (xs : List A) → All P xs → All P (dedup_by same xs)
  unfolding dedup_by
  All-dedup_by same [] h = tt
  All-dedup_by same (x ∷ xs) (p, h) = (p, All-dedup_after same x xs h)
