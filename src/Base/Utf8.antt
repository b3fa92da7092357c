-- ===== src/Base/Utf8.antt =====
-- The validity test of `String::from_utf8`, over bytes.
use etas.Base.{
  ℕ, ◌-◌, ◌<◌, ◌≡◌, Text, Bool, true, false, [], ◌∷◌, ◌&&◌, leb, ltb, ◌==◌, if◌then◌else◌,
}
use etas.Base.{Option, none, some, arith, All, refl}

-- How many continuation bytes are still to come, and the range of the next one.
pub record Pending : Type 0 where
  pub left : ℕ
  pub low : ℕ
  pub high : ℕ

abbrev pub idle : Pending
idle = record { left = 0; low = 0x80; high = 0xbf }

abbrev more : ℕ → ℕ → ℕ → Option Pending
more n a b = some (record { left = n; low = a; high = b })

-- The first byte of a character: shortest forms only, no surrogates, nothing past U+10FFFF.
unfoldable pub lead : ℕ → Option Pending
lead b =
    if ltb b 0x80
    then some idle
    else if ltb b 0xc2
    then none
    else if ltb b 0xe0
    then more 1 0x80 0xbf
    else if b == 0xe0
    then more 2 0xa0 0xbf
    else if b == 0xed
    then more 2 0x80 0x9f
    else if ltb b 0xf0
    then more 2 0x80 0xbf
    else if b == 0xf0
    then more 3 0x90 0xbf
    else if ltb b 0xf4
    then more 3 0x80 0xbf
    else if b == 0xf4
    then more 3 0x80 0x8f
    else none

unfoldable pub step : Pending → ℕ → Option Pending
step p b =
    if p.left == 0
    then lead b
    else if leb p.low b && leb b p.high
    then more (p.left - 1) 0x80 0xbf
    else none

unfoldable pub valid_from : Pending → Text → Bool
valid_from p [] = p.left == 0
valid_from p (b ∷ bs) = elim (step p b) [ none ↦ false | some q ↦ valid_from q bs ]

unfoldable pub is_utf8 : Text → Bool
unfolding valid_from step lead
is_utf8 t = valid_from idle t

step-byte :
    (p : Pending) (b : ℕ) {q : Pending}
    → p.high < 256
    → step p b ≡ some q
    → (b < 256) × (q.high < 256)
unfolding step lead
step-byte p b h e = ground arith

after-bytes :
    (p : Pending) (b : ℕ) (bs : Text) (o : Option Pending)
    → p.high < 256
    → step p b ≡ o
    → ((q : Pending) → q.high < 256 → valid_from q bs ≡ true → All (λ b. b < 256) bs)
    → elim o [ none ↦ false | some q ↦ valid_from q bs ] ≡ true
    → All (λ b. b < 256) (b ∷ bs)
after-bytes p b bs none h e ih v = absurd (cc)
after-bytes p b bs (some q) h e ih v = let bounds = step-byte p b h e in (bounds.0, ih q bounds.1 v)

valid_from-bytes :
    (p : Pending) (t : Text) → p.high < 256 → valid_from p t ≡ true → All (λ b. b < 256) t
unfolding valid_from
valid_from-bytes p [] h v = tt
valid_from-bytes p (b ∷ bs) h v =
    after-bytes p b bs (step p b) h refl (λ q. valid_from-bytes q bs) v

-- A valid text is made of bytes.
pub is_utf8-bytes : (t : Text) → is_utf8 t ≡ true → All (λ b. b < 256) t
unfolding is_utf8
is_utf8-bytes t v = valid_from-bytes idle t (omega arith) v

accepts_euro : is_utf8 (0xe2 ∷ 0x82 ∷ 0xac ∷ []) ≡ true
unfolding is_utf8
accepts_euro = refl

rejects_overlong : is_utf8 (0xc0 ∷ 0x80 ∷ []) ≡ false
unfolding is_utf8
rejects_overlong = refl
