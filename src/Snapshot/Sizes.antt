-- ===== src/Snapshot/Sizes.antt =====
-- The files read so far: their bytes in all, the largest of them, and which paths they have.
use etas.Base.{ℕ, ◌+◌, ◌≤◌, none, true}
use etas.Base.{List, [], ◌∷◌, ◌++◌, ◌≡◌, refl, arith, length, is_some}
use Prim.Native.Nat.{lt, eq, gt}
use mathlib.Core.List.{Memᴰ}
use mathlib.Core.List.Memᴰ as MemD
use etas.Base.Paths.{RelativePath, compare_path, compare_path_refl}
use etas.Snapshot.{Files}
use etas.Snapshot.Reader.{lookup, insert}

abbrev pub sizes : Files → ℕ
sizes [] = 0
sizes ((k, v) ∷ m) = length v + sizes m

pub sizes-insert :
    (k : RelativePath) (v : List ℕ) (m : Files)
    → lookup k m ≡ none
    → sizes (insert k v m) ≡ length v + sizes m
unfolding lookup insert
sizes-insert k v [] h = refl
sizes-insert k v ((j, w) ∷ m) h = ground (arith, sizes-insert k v m)

abbrev pub SizesAtMost : ℕ → Files → Type 0
SizesAtMost n [] = Unit
SizesAtMost n ((k, v) ∷ m) = (length v ≤ n) × SizesAtMost n m

pub SizesAtMost-insert :
    (n : ℕ) (k : RelativePath) (v : List ℕ) (m : Files)
    → length v ≤ n
    → SizesAtMost n m
    → SizesAtMost n (insert k v m)
unfolding insert
SizesAtMost-insert n k v [] h s = (h, tt)
SizesAtMost-insert n k v ((j, w) ∷ m) h s = ground (arith, SizesAtMost-insert n k v m)

-- Every path has its bytes.
abbrev pub Known : Files → List RelativePath → Type 0
Known fs [] = Unit
Known fs (p ∷ ps) = (is_some (lookup p fs) ≡ true) × Known fs ps

pub Known-append :
    (fs : Files) (ps : List RelativePath) (p : RelativePath)
    → Known fs ps
    → is_some (lookup p fs) ≡ true
    → Known fs (ps ++ p ∷ [])
Known-append fs [] p h k = (k, tt)
Known-append fs (q ∷ ps) p (h, hs) k = (h, Known-append fs ps p hs k)

pub is_some-lookup-insert :
    (q k : RelativePath) (v : List ℕ) (m : Files)
    → is_some (lookup q m) ≡ true
    → is_some (lookup q (insert k v m)) ≡ true
unfolding lookup insert
is_some-lookup-insert q k v [] h = absurd (cc)
is_some-lookup-insert q k v ((j, w) ∷ m) h = ground (arith, is_some-lookup-insert q k v m)

pub is_some-lookup-insert_same :
    (k : RelativePath) (v : List ℕ) (m : Files) → is_some (lookup k (insert k v m)) ≡ true
unfolding lookup insert
is_some-lookup-insert_same k v [] = ground (arith, compare_path_refl k)
is_some-lookup-insert_same k v ((j, w) ∷ m) =
    ground (arith, compare_path_refl k, is_some-lookup-insert_same k v m)

pub Known-insert :
    (k : RelativePath) (v : List ℕ) (m : Files) (ps : List RelativePath)
    → Known m ps
    → Known (insert k v m) (ps ++ k ∷ [])
Known-insert k v m [] h = (is_some-lookup-insert_same k v m, tt)
Known-insert k v m (q ∷ ps) (h, hs) = (is_some-lookup-insert q k v m h, Known-insert k v m ps hs)

-- Every file is at one of the paths.
abbrev pub Covered : Files → List RelativePath → Type 0
Covered [] ps = Unit
Covered ((k, v) ∷ m) ps = Memᴰ k ps × Covered m ps

pub Covered-mono :
    (fs : Files) (ps qs : List RelativePath)
    → ((k : RelativePath) → Memᴰ k ps → Memᴰ k qs)
    → Covered fs ps
    → Covered fs qs
Covered-mono [] ps qs h c = tt
Covered-mono ((k, v) ∷ m) ps qs h (c, cs) = (h k c, Covered-mono m ps qs h cs)

Covered-add :
    (k : RelativePath) (v : List ℕ) (m : Files) (ps : List RelativePath)
    → Memᴰ k ps
    → Covered m ps
    → Covered (insert k v m) ps
unfolding insert
Covered-add k v [] ps h c = (h, tt)
Covered-add k v ((j, w) ∷ m) ps h (c, cs) =
    elim (compare_path k j)
      as (λ o.
        Covered (elim o [ lt ↦ (k, v) ∷ (j, w) ∷ m | eq ↦ (j, v) ∷ m | gt ↦ (j, w) ∷ insert k v m ])
          ps) [ lt ↦ (h, (c, cs)) | eq ↦ (c, cs) | gt ↦ (c, Covered-add k v m ps h cs) ]

-- The paths to hash are those of the files that were read.
abbrev pub Linked : Files → List RelativePath → Type 0
Linked fs ps = Known fs ps × Covered fs ps

pub Linked-append :
    (fs : Files) (ps : List RelativePath) (p : RelativePath)
    → Linked fs ps
    → is_some (lookup p fs) ≡ true
    → Linked fs (ps ++ p ∷ [])
Linked-append fs ps p (k, c) h =
    (Known-append fs ps p k h, Covered-mono fs ps (ps ++ p ∷ []) (λ q m. MemD.append_left _ m) c)

pub Linked-insert :
    (k : RelativePath) (v : List ℕ) (m : Files) (ps : List RelativePath)
    → Linked m ps
    → Linked (insert k v m) (ps ++ k ∷ [])
Linked-insert k v m ps (known, c) = (
  Known-insert k v m ps known,
  Covered-add k v m (ps ++ k ∷ []) (MemD.append_right ps (MemD.head refl))
      (Covered-mono m ps (ps ++ k ∷ []) (λ q h. MemD.append_left _ h) c),
)
