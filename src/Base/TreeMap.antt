-- ===== src/Base/TreeMap.antt =====
-- `BTreeMap<String, V>`: entries in ascending order of their keys, each key once.
use Prim.Native.Nat.{lt, eq, gt}
use etas.Base.{Text, same_text, same_text_iff, if◌then◌else◌}
use etas.Base.{Option, none, some, List, [], ◌∷◌, ◌≡◌, refl, arith}
use etas.Base.Order.{cmp, cmp-eq_iff, cmp_flip, cmp_refl}

abbrev pub TreeMap {ℓ} : Type ℓ → Type ℓ
TreeMap V = List (Text × V)

module _ {ℓ} {V : Type ℓ} where
  unfoldable pub get : Text → TreeMap V → Option V
  get k [] = none
  get k ((j, v) ∷ m) = if same_text j k then some v else get k m

  unfoldable pub insert : Text → V → TreeMap V → TreeMap V
  insert k v [] = (k, v) ∷ []
  insert k v ((j, w) ∷ m) =
      let rest = insert k v m in
      elim (cmp k j) [ lt ↦ (k, v) ∷ (j, w) ∷ m | eq ↦ (j, v) ∷ m | gt ↦ (j, w) ∷ rest ]

  -- An inserted key has its new value, and every other key keeps its own.
  pub get-insert :
      (k i : Text) (v : V) (m : TreeMap V)
      → get i (insert k v m) ≡ (if same_text k i then some v else get i m)
  unfolding get insert
  get-insert k i v [] = refl
  get-insert k i v ((j, w) ∷ m) =
      ground (
        arith,
        get-insert k i v m,
        cmp-eq_iff k j,
        same_text_iff k i,
        same_text_iff j i,
        cmp_refl k,
      )

  abbrev pub Above : Text → TreeMap V → Type 0
  Above k [] = Unit
  Above k ((j, w) ∷ m) = cmp k j ≡ lt

  -- Keys strictly ascend.
  abbrev pub IsSorted : TreeMap V → Type 0
  IsSorted [] = Unit
  IsSorted ((k, v) ∷ m) = Above k m × IsSorted m

  Above-insert :
      (i k : Text) (v : V) (m : TreeMap V) → cmp i k ≡ lt → Above i m → Above i (insert k v m)
  unfolding insert
  Above-insert i k v [] h a = h
  Above-insert i k v ((j, w) ∷ m) h a = ground arith

  pub insert-IsSorted : (k : Text) (v : V) (m : TreeMap V) → IsSorted m → IsSorted (insert k v m)
  unfolding insert
  insert-IsSorted k v [] s = (tt, tt)
  insert-IsSorted k v ((j, w) ∷ m) s =
      ground (arith, insert-IsSorted k v m, cmp_flip k j, cmp-eq_iff k j, Above-insert j k v m)
