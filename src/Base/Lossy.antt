-- ===== src/Base/Lossy.antt =====
-- `String::from_utf8_lossy`: an ill-formed maximal piece becomes U+FFFD.
use etas.Base.{
  ℕ, Text, true, false, [], ◌∷◌, ◌++◌, ◌==◌, is_empty, if◌then◌else◌, Option, none, some,
}
use etas.Base.{◌≡◌, refl, ◌∙◌, arith}
use mathlib.Core.List.{append_assoc}
use etas.Base.Utf8.{Pending, idle, lead, step, valid_from, is_utf8}

abbrev replacement : Text → Text
replacement t = 0xef ∷ 0xbf ∷ 0xbd ∷ t

-- `held` are the bytes of a character that is not complete.
lossy_from : Pending → Text → Text → Text
lossy_from p held [] = if is_empty held then [] else replacement []
lossy_from p held (b ∷ bs) =
    let afresh = lossy_from idle [] bs in
    let again = elim (lead b) as (λ _. Text) [
      | none ↦ replacement afresh
      | some q ↦
          let whole = lossy_from q [] bs in
          let part = lossy_from q (b ∷ []) bs in if q.left == 0 then b ∷ whole else part
    ] in
    elim (step p b) [
      | none ↦ if is_empty held then replacement afresh else replacement again
      | some q ↦
          let whole = lossy_from q [] bs in
          let part = lossy_from q (held ++ b ∷ []) bs in
          if q.left == 0 then held ++ b ∷ whole else part
    ]

unfoldable pub from_utf8_lossy : Text → Text
unfolding lossy_from
from_utf8_lossy t = lossy_from idle [] t

kept_lem :
    (q : Pending) (held : Text) (b : ℕ) (bs : Text)
    → ((h : Text) → (q.left ≡ 0 → h ≡ []) → lossy_from q h bs ≡ h ++ bs)
    → (if q.left == 0 then held ++ b ∷ lossy_from q [] bs else lossy_from q (held ++ b ∷ []) bs)
      ≡ held ++ b ∷ bs
kept_lem q held b bs ih =
    let whole = ih [] (λ _. refl) in
    let part = λ (n : q.left ≡ 0 → ⊥).
      ih (held ++ b ∷ []) (λ e. absurd (n e)) ∙ append_assoc held (b ∷ []) bs in
    ground (arith, whole, part)

stepped_lem :
    (p : Pending) (held : Text) (b : ℕ) (bs : Text) (o : Option Pending)
    → step p b ≡ o
    → elim o [ none ↦ false | some q ↦ valid_from q bs ] ≡ true
    → ((q : Pending) (h : Text)
        → valid_from q bs ≡ true
        → (q.left ≡ 0 → h ≡ [])
        → lossy_from q h bs ≡ h ++ bs)
    → lossy_from p held (b ∷ bs) ≡ held ++ b ∷ bs
unfolding lossy_from
stepped_lem p held b bs none e v ih = absurd (cc)
stepped_lem p held b bs (some q) e v ih = rw (e, lossy_from) (kept_lem q held b bs (λ h. ih q h v))

lossy_from-valid :
    (p : Pending) (held t : Text)
    → valid_from p t ≡ true
    → (p.left ≡ 0 → held ≡ [])
    → lossy_from p held t ≡ held ++ t
unfolding lossy_from valid_from
lossy_from-valid p held [] v h = ground arith
lossy_from-valid p held (b ∷ bs) v h =
    stepped_lem p held b bs (step p b) refl v λ q k w n. lossy_from-valid q k bs w n

-- Valid UTF-8 is left as it is.
pub from_utf8_lossy-valid : (t : Text) → is_utf8 t ≡ true → from_utf8_lossy t ≡ t
unfolding from_utf8_lossy is_utf8
from_utf8_lossy-valid t v = lossy_from-valid idle [] t v (λ _. refl)
