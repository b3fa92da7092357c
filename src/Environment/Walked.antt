-- ===== src/Environment/Walked.antt =====
-- What the walk of a graph has seen: every reference that it adds is that of a package whose children it
-- has seen too.
use etas.Base.{
  Text, same_text, same_text_iff, same_text_refl, Bool, true, false, ◌||◌, List, ◌∷◌, ◌≡◌, ◌⊎◌, inl,
  inr, refl, arith,
}
use etas.Base.Distinct.{member}
use etas.Metadata.{ResolvedDependency, Dependencies, nil, cons, dependencies}
use etas.Lockfile.{Lockfile}
use etas.Environment.Agree.{key, IsLocked}

module _ {K M : Type 0} (content_digest : ResolvedDependency K M → Text) where
  module _ (lockfile : Lockfile) where
    abbrev pub Expanded : List Text → Dependencies K M → Type 0
    Expanded seen nil = Unit {0}
    Expanded seen (cons d ds) =
        IsLocked content_digest lockfile d
        × (member (key content_digest d) seen ≡ true)
        × Expanded seen ds

    abbrev Within : List Text → List Text → Type 0
    Within seen seen' = (k : Text) → member k seen ≡ true → member k seen' ≡ true

    Expanded-mono :
        (seen seen' : List Text) (ds : Dependencies K M)
        → Within seen seen'
        → Expanded seen ds
        → Expanded seen' ds
    Expanded-mono seen seen' nil w h = tt
    Expanded-mono seen seen' (cons d ds) w (l, m, h) =
        (l, w (key content_digest d) m, Expanded-mono seen seen' ds w h)

    module _ (R : ResolvedDependency K M → Type 0) where
      -- Every reference that the walk adds to the set is that of a package whose children it has seen.
      abbrev pub Walked : List Text → List Text → Type 0
      Walked seen seen' =
          Within seen seen'
          × ((k : Text)
              → member k seen' ≡ true
              → (member k seen ≡ true)
                ⊎ ((x : ResolvedDependency K M) × R x
                    × (key content_digest x ≡ k)
                    × Expanded seen' (dependencies x)))

      pub Walked-refl : (seen : List Text) → Walked seen seen
      Walked-refl seen = ((λ k h. h), (λ k h. inl h))

      pub Walked-trans : (a b c : List Text) → Walked a b → Walked b c → Walked a c
      Walked-trans a b c (wab, pab) (wbc, pbc) =
          ((λ k h. wbc k (wab k h)), (λ k h. earlier k (pbc k h)))
        where
          of_first :
              (k : Text)
              → (member k a ≡ true)
                ⊎ ((x : ResolvedDependency K M) × R x
                    × (key content_digest x ≡ k)
                    × Expanded b (dependencies x))
              → (member k a ≡ true)
                ⊎ ((x : ResolvedDependency K M) × R x
                    × (key content_digest x ≡ k)
                    × Expanded c (dependencies x))
          of_first k (inl h) = inl h
          of_first k (inr (x, r, e, h)) = inr (x, r, e, Expanded-mono b c (dependencies x) wbc h)

          earlier :
              (k : Text)
              → (member k b ≡ true)
                ⊎ ((x : ResolvedDependency K M) × R x
                    × (key content_digest x ≡ k)
                    × Expanded c (dependencies x))
              → (member k a ≡ true)
                ⊎ ((x : ResolvedDependency K M) × R x
                    × (key content_digest x ≡ k)
                    × Expanded c (dependencies x))
          earlier k (inl h) = of_first k (pab k h)
          earlier k (inr h) = inr h

      -- Adding a package whose children are then seen.
      pub Walked-cons :
          (d : ResolvedDependency K M) (seen seen' : List Text)
          → R d
          → Expanded seen' (dependencies d)
          → Walked (key content_digest d ∷ seen) seen'
          → Walked seen seen' × (member (key content_digest d) seen' ≡ true)
      Walked-cons d seen seen' r ex (w, p) = (
        ((λ k h. w k (ground (arith, h))), (λ k h. sort_out k (p k h))),
        w (key content_digest d) (ground (arith, same_text_refl (key content_digest d))),
      )
        where
          split :
              (k : Text) (b : Bool)
              → same_text (key content_digest d) k ≡ b
              → (b || member k seen) ≡ true
              → (member k seen ≡ true)
                ⊎ ((x : ResolvedDependency K M) × R x
                    × (key content_digest x ≡ k)
                    × Expanded seen' (dependencies x))
          split k true e h = inr (d, r, (same_text_iff (key content_digest d) k).0 e, ex)
          split k false e h = inl h

          sort_out :
              (k : Text)
              → (member k (key content_digest d ∷ seen) ≡ true)
                ⊎ ((x : ResolvedDependency K M) × R x
                    × (key content_digest x ≡ k)
                    × Expanded seen' (dependencies x))
              → (member k seen ≡ true)
                ⊎ ((x : ResolvedDependency K M) × R x
                    × (key content_digest x ≡ k)
                    × Expanded seen' (dependencies x))
          sort_out k (inl h) = split k (same_text (key content_digest d) k) refl h
          sort_out k (inr h) = inr h
