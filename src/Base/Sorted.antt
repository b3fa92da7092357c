-- ===== src/Base/Sorted.antt =====
-- Sorting a list and dropping equal neighbours keeps its elements.
use mathlib.Core.Bool.{Bool, true}
use mathlib.Core.Path.{◌≡◌, ◌∙◌}
use mathlib.Core.List.{List, [], ◌∷◌, Memᴰ}
use mathlib.Core.List.Memᴰ as MemD
use mathlib.Core.Logic.{◌↔◌, inl, inr}
use etas.Base.Tests.{Bool-cases}
use etas.Base.Sort.{insert_by, sort_by, dedup_after, dedup_by}

module _ {ℓ} {A : Type ℓ} where
  cons-cases :
      {z x : A} {xs ys : List A}
      → (Memᴰ z xs → Memᴰ z ys)
      → (z ≡ x → Memᴰ z ys)
      → Memᴰ z (x ∷ xs)
      → Memᴰ z ys
  cons-cases later now (MemD.head e) = now e
  cons-cases later now (MemD.tail m) = later m

  mem-insert_by :
      (le : A → A → Bool) (x : A) (xs : List A) (z : A)
      → Memᴰ z (insert_by le x xs) ↔ Memᴰ z (x ∷ xs)
  unfolding insert_by
  mem-insert_by le x [] z = ((λ m. m), (λ m. m))
  mem-insert_by le x (y ∷ ys) z = elim (Bool-cases (le x y)) [
    | inl e ↦ rw e ((λ m. m), (λ m. m))
    | inr e ↦ rw e (
      cons-cases (λ m. swapped ((mem-insert_by le x ys z).0 m)) (λ k. MemD.tail (MemD.head k)),
      cons-cases
          (cons-cases (λ m. MemD.tail ((mem-insert_by le x ys z).1 (MemD.tail m)))
            (λ k. MemD.head k))
          (λ k. MemD.tail ((mem-insert_by le x ys z).1 (MemD.head k))),
    )
  ]
    where
      swapped : Memᴰ z (x ∷ ys) → Memᴰ z (x ∷ y ∷ ys)
      swapped = cons-cases (λ m. MemD.tail (MemD.tail m)) (λ k. MemD.head k)

  pub mem-sort_by : (le : A → A → Bool) (xs : List A) (z : A) → Memᴰ z (sort_by le xs) ↔ Memᴰ z xs
  unfolding sort_by
  mem-sort_by le [] z = ((λ m. m), (λ m. m))
  mem-sort_by le (x ∷ xs) z =
      let inserted = mem-insert_by le x (sort_by le xs) z in
      let ih = mem-sort_by le xs z in
      (
        (λ m. cons-cases (λ k. MemD.tail (ih.0 k)) (λ k. MemD.head k) (inserted.0 m)),
        cons-cases (λ k. inserted.1 (MemD.tail (ih.1 k))) (λ k. inserted.1 (MemD.head k)),
      )

  -- The element kept last stands before what follows.
  mem-dedup_after :
      (same : A → A → Bool)
      → ((a b : A) → same a b ≡ true → a ≡ b)
      → (last : A) (xs : List A) (z : A)
      → Memᴰ z (last ∷ dedup_after same last xs) ↔ Memᴰ z (last ∷ xs)
  unfolding dedup_after
  mem-dedup_after same exact last [] z = ((λ m. m), (λ m. m))
  mem-dedup_after same exact last (y ∷ ys) z = elim (Bool-cases (same y last)) [
    | inl e ↦ rw e (
      (λ m.
          cons-cases (λ k. MemD.tail (MemD.tail k)) (λ k. MemD.head k)
            ((mem-dedup_after same exact last ys z).0 m)),
      cons-cases
          (cons-cases (λ k. (mem-dedup_after same exact last ys z).1 (MemD.tail k))
            (λ k. MemD.head (k ∙ exact y last e)))
          (λ k. MemD.head k),
    )
    | inr e ↦ rw e (
      cons-cases (λ k. MemD.tail ((mem-dedup_after same exact y ys z).0 k)) (λ k. MemD.head k),
      cons-cases (λ k. MemD.tail ((mem-dedup_after same exact y ys z).1 k)) (λ k. MemD.head k),
    )
  ]

  pub mem-dedup_by :
      (same : A → A → Bool)
      → ((a b : A) → same a b ≡ true → a ≡ b)
      → (xs : List A) (z : A) → Memᴰ z (dedup_by same xs) ↔ Memᴰ z xs
  unfolding dedup_by
  mem-dedup_by same exact [] z = ((λ m. m), (λ m. m))
  mem-dedup_by same exact (x ∷ xs) z = mem-dedup_after same exact x xs z
