-- ===== src/Base/Strings.antt =====
-- Text as the bytes of its UTF-8 form: what Rust's `str` methods that the source calls do to it.
use Prim.Native.Nat.{ℕ}
use Prim.Native.Char.{code}
use Prim.Native.String.{String}
use mathlib.Core.Path.{◌≡◌, refl}
use mathlib.Core.Logic.{◌↔◌, inl, inr}
use mathlib.Core.Bool.{Bool, true, false, ◌&&◌}
use mathlib.Core.List.{List, [], ◌∷◌, ◌++◌}
use mathlib.Core.Option.{Option, none, some}
use native.Mathlib.Omega.{arith}
use etas.Base.Tests.{◌==◌, if◌then◌else◌, Bool-cases}
use etas.Base.Lists.{any}

abbrev pub Text : Type 0
Text = List ℕ

-- The bytes of an ASCII literal.
abbrev pub codes : String → Text
codes String.[] = []
codes (String.◌∷◌ c s) = code c ∷ codes s

unfoldable pub same_text : Text → Text → Bool
same_text [] [] = true
same_text (x ∷ xs) (y ∷ ys) = x == y && same_text xs ys
same_text _ _ = false

pub same_text_iff : (a b : Text) → (same_text a b ≡ true) ↔ (a ≡ b)
unfolding same_text
same_text_iff [] [] = ground arith
same_text_iff [] (y ∷ ys) = ground arith
same_text_iff (x ∷ xs) [] = ground arith
same_text_iff (x ∷ xs) (y ∷ ys) = ground (arith, same_text_iff xs ys)

pub same_text_refl : (a : Text) → same_text a a ≡ true
same_text_refl a = (same_text_iff a a).1 refl

-- `str::strip_prefix`
unfoldable pub strip_prefix : Text → Text → Option Text
strip_prefix [] t = some t
strip_prefix (p ∷ ps) [] = none
strip_prefix (p ∷ ps) (x ∷ xs) = let rest = strip_prefix ps xs in if p == x then rest else none

pub strip_prefix-append : (p t : Text) → strip_prefix p (p ++ t) ≡ some t
unfolding strip_prefix
strip_prefix-append [] t = refl
strip_prefix-append (p ∷ ps) t = ground (arith, strip_prefix-append ps t)

pub strip_prefix-eq-some : (p t r : Text) → (strip_prefix p t ≡ some r) ↔ (t ≡ p ++ r)
unfolding strip_prefix
strip_prefix-eq-some [] t r = ground arith
strip_prefix-eq-some (p ∷ ps) [] r = ground arith
strip_prefix-eq-some (p ∷ ps) (x ∷ xs) r = ground (arith, strip_prefix-eq-some ps xs r)

-- `str::contains(char)` for an ASCII character
abbrev pub contains : Text → ℕ → Bool
contains t c = any (λ x. x == c) t

abbrev consed : ℕ → Option (Text × Text) → Option (Text × Text)
consed x none = none
consed x (some (a, b)) = some (x ∷ a, b)

-- `str::split_once(char)`: the parts before and after the first occurrence.
unfoldable pub split_once : ℕ → Text → Option (Text × Text)
split_once c [] = none
split_once c (x ∷ xs) =
    let rest = split_once c xs in if x == c then some ([], xs) else consed x rest

pub split_once-append :
    (c : ℕ) (a b : Text) → contains a c ≡ false → split_once c (a ++ c ∷ b) ≡ some (a, b)
unfolding split_once
split_once-append c [] b h = ground arith
split_once-append c (x ∷ xs) b h = ground (arith, split_once-append c xs b)

pub split_once-none : (c : ℕ) (a : Text) → contains a c ≡ false → split_once c a ≡ none
unfolding split_once
split_once-none c [] h = refl
split_once-none c (x ∷ xs) h = ground (arith, split_once-none c xs)

consed-ne-nil : (x : ℕ) (o : Option (Text × Text)) (b : Text) → consed x o ≡ some ([], b) → ⊥
consed-ne-nil x none b h = cc
consed-ne-nil x (some (a, r)) b h = ground arith

consed-eq-some :
    (x : ℕ) (o : Option (Text × Text)) (y : ℕ) (a b : Text)
    → consed x o ≡ some (y ∷ a, b)
    → (x ≡ y) × (o ≡ some (a, b))
consed-eq-some x none y a b h = cc
consed-eq-some x (some (a', b')) y a b h = ground arith

pub split_once_sound :
    (c : ℕ) (t a b : Text)
    → split_once c t ≡ some (a, b)
    → (t ≡ a ++ c ∷ b) × (contains a c ≡ false)
unfolding split_once
split_once_sound c [] a b h = cc
split_once_sound c (x ∷ xs) [] b h = elim (Bool-cases (x == c)) [
  | inl e ↦ ground arith
  | inr e ↦ absurd (consed-ne-nil x (split_once c xs) b (rw e at h))
]
split_once_sound c (x ∷ xs) (y ∷ a) b h = elim (Bool-cases (x == c)) [
  | inl e ↦ ground arith
  | inr e ↦
      let inner = consed-eq-some x (split_once c xs) y a b (rw e at h) in
      let ih = split_once_sound c xs a b inner.1 in ground arith
]

abbrev pub add_head : ℕ → List Text → List Text
add_head x [] = (x ∷ []) ∷ []
add_head x (p ∷ ps) = (x ∷ p) ∷ ps

-- `str::split(char)`: the pieces between the separators, one at least.
unfoldable pub split : ℕ → Text → List Text
split c [] = [] ∷ []
split c (x ∷ xs) = let pieces = split c xs in if x == c then [] ∷ pieces else add_head x pieces

-- `[..].join(",")`
unfoldable pub join : Text → List Text → Text
join sep [] = []
join sep (p ∷ []) = p
join sep (p ∷ q ∷ ps) = p ++ (sep ++ join sep (q ∷ ps))
