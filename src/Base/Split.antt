-- ===== src/Base/Split.antt =====
-- `split` and `join` undo one another.
use etas.Base.{ℕ, Text, split, add_head, join, contains, All, Bool-cases, inl, inr, ==_iff, ==_refl}
use etas.Base.{List, [], ◌∷◌, ◌++◌, ◌≡◌, ◌≢◌, refl, ap, ◌∙◌, false, arith, ◌==◌}

pub split-ne-nil : (c : ℕ) (t : Text) → split c t ≢ []
unfolding split
split-ne-nil c [] h = cc
split-ne-nil c (x ∷ xs) h = elim (Bool-cases (x == c)) [
  | inl e ↦ cc (rw e at h)
  | inr e ↦ add_head-ne-nil x (split c xs) (rw e at h)
]
  where
    add_head-ne-nil : (x : ℕ) (ps : List Text) → add_head x ps ≢ []
    add_head-ne-nil x [] k = cc
    add_head-ne-nil x (p ∷ ps) k = cc

join-add_head :
    (sep : Text) (x : ℕ) (ps : List Text) → ps ≢ [] → join sep (add_head x ps) ≡ x ∷ join sep ps
unfolding join
join-add_head sep x [] h = absurd (h refl)
join-add_head sep x (p ∷ []) h = refl
join-add_head sep x (p ∷ q ∷ ps) h = refl

join-nil_cons : (sep : Text) (ps : List Text) → ps ≢ [] → join sep ([] ∷ ps) ≡ sep ++ join sep ps
unfolding join
join-nil_cons sep [] h = absurd (h refl)
join-nil_cons sep (p ∷ ps) h = refl

-- Joining the pieces by their separator gives the text.
pub join-split : (c : ℕ) (t : Text) → join (c ∷ []) (split c t) ≡ t
unfolding split
join-split c [] = unfold join in refl
join-split c (x ∷ xs) = elim (Bool-cases (x == c)) [
  | inl e ↦
      rw (e, join-nil_cons (c ∷ []) (split c xs) (split-ne-nil c xs), join-split c xs)
        (ground (arith, ==_iff x c))
  | inr e ↦ rw (e, join-add_head (c ∷ []) x (split c xs) (split-ne-nil c xs), join-split c xs) refl
]

pub split-none : (c : ℕ) (t : Text) → contains t c ≡ false → split c t ≡ t ∷ []
unfolding split
split-none c [] h = refl
split-none c (x ∷ xs) h = ground (arith, split-none c xs)

pub split-append :
    (c : ℕ) (p t : Text) → contains p c ≡ false → split c (p ++ c ∷ t) ≡ p ∷ split c t
unfolding split
split-append c [] t h = rw ==_refl refl
split-append c (x ∷ xs) t h = ground (arith, split-append c xs t)

-- Splitting a joined list of pieces without separators gives the list.
pub split-join :
    (c : ℕ) (p : Text) (ps : List Text)
    → All (λ q. contains q c ≡ false) (p ∷ ps)
    → split c (join (c ∷ []) (p ∷ ps)) ≡ p ∷ ps
unfolding join
split-join c p [] h = split-none c p h.0
split-join c p (q ∷ ps) h =
    split-append c p (join (c ∷ []) (q ∷ ps)) h.0 ∙ ap (λ rest. p ∷ rest) (split-join c q ps h.1)
