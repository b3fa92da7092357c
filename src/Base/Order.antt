-- ===== src/Base/Order.antt =====
-- The byte order of texts, which `String: Ord` and `BTreeMap<String, _>` go by.
use Prim.Native.Nat.{compare, Ordering, lt, eq, gt}
use etas.Base.{Text, [], ◌∷◌, ◌≡◌, ◌≢◌, refl, ◌↔◌, arith}

unfoldable pub cmp : Text → Text → Ordering
cmp [] [] = eq
cmp [] (y ∷ ys) = lt
cmp (x ∷ xs) [] = gt
cmp (x ∷ xs) (y ∷ ys) = let rest = cmp xs ys in elim (compare x y) [ lt ↦ lt | gt ↦ gt | eq ↦ rest ]

pub cmp-eq_iff : (a b : Text) → (cmp a b ≡ eq) ↔ (a ≡ b)
unfolding cmp
cmp-eq_iff [] [] = ground arith
cmp-eq_iff [] (y ∷ ys) = ground arith
cmp-eq_iff (x ∷ xs) [] = ground arith
cmp-eq_iff (x ∷ xs) (y ∷ ys) = ground (arith, cmp-eq_iff xs ys)

pub cmp_refl : (a : Text) → cmp a a ≡ eq
cmp_refl a = (cmp-eq_iff a a).1 refl

pub cmp_flip : (a b : Text) → cmp a b ≡ gt → cmp b a ≡ lt
unfolding cmp
cmp_flip [] [] h = ground arith
cmp_flip [] (y ∷ ys) h = ground arith
cmp_flip (x ∷ xs) [] h = ground arith
cmp_flip (x ∷ xs) (y ∷ ys) h = ground (arith, cmp_flip xs ys)

pub cmp_trans : (a b c : Text) → cmp a b ≡ lt → cmp b c ≡ lt → cmp a c ≡ lt
unfolding cmp
cmp_trans [] [] c h k = ground arith
cmp_trans [] (y ∷ ys) [] h k = ground arith
cmp_trans [] (y ∷ ys) (z ∷ zs) h k = refl
cmp_trans (x ∷ xs) [] c h k = ground arith
cmp_trans (x ∷ xs) (y ∷ ys) [] h k = ground arith
cmp_trans (x ∷ xs) (y ∷ ys) (z ∷ zs) h k = ground (arith, cmp_trans xs ys zs)

pub le_trans : (a b c : Text) → cmp a b ≢ gt → cmp b c ≢ gt → cmp a c ≢ gt
unfolding cmp
le_trans [] b [] h k = ground arith
le_trans [] b (z ∷ zs) h k = ground arith
le_trans (x ∷ xs) [] c h k = ground arith
le_trans (x ∷ xs) (y ∷ ys) [] h k = ground arith
le_trans (x ∷ xs) (y ∷ ys) (z ∷ zs) h k = ground (arith, le_trans xs ys zs)
