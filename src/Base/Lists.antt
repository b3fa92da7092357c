-- ===== src/Base/Lists.antt =====
-- Lists measured and indexed by native numbers, and the searches of Rust's iterators.
use Prim.Native.Nat.{ℕ, zero, suc, ◌+◌}
use mathlib.Core.Path.{◌≡◌, refl, ap}
use mathlib.Core.Logic.{◌↔◌}
use mathlib.Core.Bool.{Bool, true, false, ◌&&◌, ◌||◌}
use mathlib.Core.List.{List, [], ◌∷◌, ◌++◌}
use mathlib.Core.Option.{Option, none, some}
use native.Mathlib.Omega.{arith}
use etas.Base.Tests.{if◌then◌else◌}

module _ {ℓ} {A : Type ℓ} where
  abbrev pub length : List A → ℕ
  length [] = 0
  length (x ∷ xs) = suc (length xs)

  abbrev pub take : ℕ → List A → List A
  take zero xs = []
  take (suc n) [] = []
  take (suc n) (x ∷ xs) = x ∷ take n xs

  abbrev pub drop : ℕ → List A → List A
  drop zero xs = xs
  drop (suc n) [] = []
  drop (suc n) (x ∷ xs) = drop n xs

  abbrev pub replicate : ℕ → A → List A
  replicate zero a = []
  replicate (suc n) a = a ∷ replicate n a

  abbrev pub is_empty : List A → Bool
  is_empty [] = true
  is_empty (x ∷ xs) = false

  abbrev pub all : (A → Bool) → List A → Bool
  all p [] = true
  all p (x ∷ xs) = p x && all p xs

  abbrev pub any : (A → Bool) → List A → Bool
  any p [] = false
  any p (x ∷ xs) = p x || any p xs

  -- `iter().find(p)`: the first element that passes.
  abbrev pub find : (A → Bool) → List A → Option A
  find p [] = none
  find p (x ∷ xs) = let rest = find p xs in if p x then some x else rest

  pub length-append : (xs ys : List A) → length (xs ++ ys) ≡ length xs + length ys
  length-append [] ys = omega arith
  length-append (x ∷ xs) ys = omega (arith, length-append xs ys)

  pub length-replicate : (n : ℕ) (a : A) → length (replicate n a) ≡ n
  length-replicate zero a = refl
  length-replicate (suc n) a = ap suc (length-replicate n a)

  pub all-append : (p : A → Bool) (xs ys : List A) → all p (xs ++ ys) ≡ (all p xs && all p ys)
  all-append p [] ys = refl
  all-append p (x ∷ xs) ys = ground (arith, all-append p xs ys)

  pub append-eq-nil : (xs ys : List A) → (xs ++ ys ≡ []) ↔ ((xs ≡ []) × (ys ≡ []))
  append-eq-nil [] ys = ground arith
  append-eq-nil (x ∷ xs) ys = ground arith

  pub take-length_append : (xs ys : List A) → take (length xs) (xs ++ ys) ≡ xs
  take-length_append [] ys = refl
  take-length_append (x ∷ xs) ys = ap (λ zs. x ∷ zs) (take-length_append xs ys)

  pub drop-length_append : (xs ys : List A) → drop (length xs) (xs ++ ys) ≡ ys
  drop-length_append [] ys = refl
  drop-length_append (x ∷ xs) ys = drop-length_append xs ys

-- A predicate by recursion computes to tuples, which the tactics read and build.
abbrev pub All {ℓ κ} : {A : Type ℓ} → (A → Type κ) → List A → Type κ
All P [] = Unit
All P (x ∷ xs) = P x × All P xs

module _ {ℓ κ} {A : Type ℓ} {B : Type κ} where
  -- `iter().find_map(f)`
  abbrev pub find_map : (A → Option B) → List A → Option B
  find_map f [] = none
  find_map f (x ∷ xs) = let rest = find_map f xs in elim (f x) [ some b ↦ some b | none ↦ rest ]

  abbrev pub concat_map : (A → List B) → List A → List B
  concat_map f [] = []
  concat_map f (x ∷ xs) = f x ++ concat_map f xs

  pub concat_map-eq-nil :
      (f : A → List B) (xs : List A) → (concat_map f xs ≡ []) ↔ All (λ x. f x ≡ []) xs
  concat_map-eq-nil f [] = ((λ _. tt), (λ _. refl))
  concat_map-eq-nil f (x ∷ xs) =
      let both = append-eq-nil (f x) (concat_map f xs) in
      let ih = concat_map-eq-nil f xs in
      ((λ h. ((both.0 h).0, ih.0 (both.0 h).1)), (λ h. both.1 (h.0, ih.1 h.1)))

pub All-append {ℓ κ} :
    {A : Type ℓ} (P : A → Type κ) (xs ys : List A) → All P xs → All P ys → All P (xs ++ ys)
All-append P [] ys h k = k
All-append P (x ∷ xs) ys (p, h) k = (p, All-append P xs ys h k)
