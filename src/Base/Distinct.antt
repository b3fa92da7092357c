-- ===== src/Base/Distinct.antt =====
-- Lists of texts without repetitions, as a loop with a set of the texts seen finds them.
use etas.Base.{Text, Bool, false, List, [], ◌∷◌, ◌≡◌, ◌≢◌, ◌↔◌, arith, All, any}
use etas.Base.{same_text, same_text_iff}

-- `BTreeSet::contains` of the texts inserted so far.
abbrev pub member : Text → List Text → Bool
member t seen = any (λ s. same_text s t) seen

abbrev pub Away : List Text → Text → Type 0
Away seen t = All (λ s. s ≢ t) seen

abbrev pub Distinct : List Text → Type 0
Distinct [] = Unit
Distinct (t ∷ ts) = All (λ u. t ≢ u) ts × Distinct ts

pub member_iff : (t : Text) (seen : List Text) → (member t seen ≡ false) ↔ Away seen t
member_iff t [] = ground arith
member_iff t (s ∷ seen) = ground (arith, same_text_iff s t, member_iff t seen)

-- What is left to ask of the texts `ts` once those of `seen` have passed.
abbrev pub Fresh : List Text → List Text → Type 0
Fresh seen ts = All (Away seen) ts × Distinct ts

All-pair {ℓ κ μ} :
    {A : Type ℓ} (P : A → Type κ) (Q : A → Type μ) (xs : List A)
    → All (λ x. P x × Q x) xs ↔ (All P xs × All Q xs)
All-pair P Q [] = ((λ _. (tt, tt)), (λ _. tt))
All-pair P Q (x ∷ xs) =
    let ih = All-pair P Q xs in
    (
      (λ h. ((h.0.0, (ih.0 h.1).0), (h.0.1, (ih.0 h.1).1))),
      (λ k. ((k.0.0, k.1.0), ih.1 (k.0.1, k.1.1))),
    )

-- One round of the loop.
pub Fresh-cons :
    (seen : List Text) (t : Text) (ts : List Text)
    → (Away seen t × Fresh (t ∷ seen) ts) ↔ Fresh seen (t ∷ ts)
Fresh-cons seen t ts =
    let pair = All-pair (λ u. t ≢ u) (Away seen) ts in
    (
      (λ (a, f). let both = pair.0 f.0 in ((a, both.1), (both.0, f.1))),
      (λ (a, d). (a.0, (pair.1 (d.0, a.1), d.1))),
    )

pub Fresh-nil : (ts : List Text) → Fresh [] ts ↔ Distinct ts
Fresh-nil ts = ((λ f. f.1), (λ d. (away ts, d)))
  where
    away : (us : List Text) → All (Away []) us
    away [] = tt
    away (u ∷ us) = (tt, away us)
