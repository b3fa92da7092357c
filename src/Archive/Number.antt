-- ===== src/Archive/Number.antt =====
-- A number that fits into its field is read back.
use etas.Base.{ℕ, zero, suc, ◌+◌, ◌-◌, ◌/◌, ◌%◌, ◌^◌, ◌≤◌, ◌<◌, Text, Option, some, true}
use etas.Base.{
  [], ◌∷◌, ◌++◌, ◌≡◌, refl, ap, ◌∙◌, arith, All, length, length-append, if◌then◌else◌, is_empty,
  ◌≢◌,
}
use etas.Base.Utf8.{is_utf8, valid_from, step, lead}
use etas.Base.Lossy.{from_utf8_lossy-valid}
use etas.Manifest.Names.{start, space_step, is_blank}
use Prim.Native.Nat.{max}
use etas.Archive.Octal.{
  write_bytes, octal_low, octal_count, format_octal, write_octal, drop_zeros, drop_last_zeros,
  trim_start, trim_end, trim, u64_max, push_digit, digits, from_str_radix, read_octal,
}

length-octal_low : (n value : ℕ) → length (octal_low n value) ≡ n
unfolding octal_low
length-octal_low zero value = refl
length-octal_low (suc n) value = omega (
  arith,
  length-append (octal_low n (value / 8)) ((b'0' + value % 8) ∷ []),
  length-octal_low n (value / 8),
)

digits-append :
    (acc : Option ℕ) (s : Text) (b : ℕ) → digits acc (s ++ b ∷ []) ≡ push_digit (digits acc s) b
unfolding digits
digits-append acc [] b = refl
digits-append acc (c ∷ s) b = digits-append (push_digit acc c) s b

pow_step : (n value : ℕ) → value < 8 ^ suc n → value / 8 < 8 ^ n
pow_step n value h = omega arith

digit_lem :
    (value : ℕ) → value ≤ u64_max → push_digit (some (value / 8)) (b'0' + value % 8) ≡ some value
digit_lem value h = ground arith

digits-octal_low :
    (n value : ℕ)
    → value < 8 ^ n
    → value ≤ u64_max
    → digits (some 0) (octal_low n value) ≡ some value
unfolding digits octal_low
digits-octal_low zero value h k = ground arith
digits-octal_low (suc n) value h k =
    digits-append (some 0) (octal_low n (value / 8)) (b'0' + value % 8)
    ∙ ap (λ o. push_digit o (b'0' + value % 8))
        (digits-octal_low n (value / 8) (pow_step n value h) (omega arith))
    ∙ digit_lem value k

-- A text of octal digits.
abbrev IsOctal : Text → Type 0
IsOctal t = All (λ b. (b'0' ≤ b) × (b ≤ b'7')) t

IsOctal-append : (s : Text) (b : ℕ) → IsOctal s → (b'0' ≤ b) × (b ≤ b'7') → IsOctal (s ++ b ∷ [])
IsOctal-append [] b h k = (k, tt)
IsOctal-append (c ∷ s) b (h, hs) k = (h, IsOctal-append s b hs k)

octal_low-IsOctal : (n value : ℕ) → IsOctal (octal_low n value)
unfolding octal_low
octal_low-IsOctal zero value = tt
octal_low-IsOctal (suc n) value =
    IsOctal-append (octal_low n (value / 8)) (b'0' + value % 8) (octal_low-IsOctal n (value / 8))
      (omega arith, omega arith)

octal-is_utf8 : (t : Text) → IsOctal t → is_utf8 (t ++ 0 ∷ []) ≡ true
unfolding is_utf8 valid_from step lead
octal-is_utf8 [] h = refl
octal-is_utf8 (b ∷ t) h = ground (arith, octal-is_utf8 t)

drop_last_zeros-octal : (t : Text) → IsOctal t → drop_last_zeros (t ++ 0 ∷ []) ≡ t
drop_last_zeros-octal [] h = refl
drop_last_zeros-octal (b ∷ t) h = ground (arith, drop_last_zeros-octal t)

trim_end-octal : (t : Text) → IsOctal t → trim_end t ≡ t
unfolding trim_end is_blank space_step
trim_end-octal [] h = refl
trim_end-octal (b ∷ t) h = ground (arith, trim_end-octal t)

trim_start-octal :
    (b : ℕ) (t : Text) → (b'0' ≤ b) × (b ≤ b'7') → trim_start start (b ∷ t) (b ∷ t) ≡ b ∷ t
unfolding trim_start space_step
trim_start-octal b t h = ground arith

drop_zeros-octal : (t : Text) → IsOctal t → t ≢ [] → drop_zeros (t ++ 0 ∷ []) ≡ t ++ 0 ∷ []
drop_zeros-octal [] h n = absurd (n refl)
drop_zeros-octal (b ∷ t) h n = ground arith

trim-octal : (t : Text) → IsOctal t → trim t ≡ t
unfolding trim trim_start
trim-octal [] h = refl
trim-octal (b ∷ t) h = ap trim_end (trim_start-octal b t h.0) ∙ trim_end-octal (b ∷ t) h

from_str_radix-octal : (t : Text) → IsOctal t → t ≢ [] → from_str_radix t ≡ digits (some 0) t
unfolding from_str_radix
from_str_radix-octal [] h n = absurd (n refl)
from_str_radix-octal (b ∷ []) h n = refl
from_str_radix-octal (b ∷ c ∷ t) h n = ground arith

parse_trimmed : Text → Option ℕ
parse_trimmed t = if is_empty t then some 0 else from_str_radix t

read_octal-octal : (t : Text) → IsOctal t → t ≢ [] → read_octal (t ++ 0 ∷ []) ≡ digits (some 0) t
unfolding read_octal parse_trimmed
read_octal-octal t h n =
    ap (λ u. parse_trimmed (trim (drop_last_zeros (drop_zeros u))))
      (from_utf8_lossy-valid (t ++ 0 ∷ []) (octal-is_utf8 t h))
    ∙ ap (λ u. parse_trimmed (trim (drop_last_zeros u))) (drop_zeros-octal t h n)
    ∙ ap (λ u. parse_trimmed (trim u)) (drop_last_zeros-octal t h)
    ∙ ap parse_trimmed (trim-octal t h)
    ∙ parsed t h n
  where
    parsed : (u : Text) → IsOctal u → u ≢ [] → parse_trimmed u ≡ digits (some 0) u
    parsed [] g m = absurd (m refl)
    parsed (b ∷ u) g m = from_str_radix-octal (b ∷ u) g m

octal_low-ne-nil : (n value : ℕ) → octal_low (suc n) value ≢ []
octal_low-ne-nil n value e = absurd (omega (arith, length-octal_low (suc n) value, ap length e))

octal_count-bound : (fuel n value : ℕ) → value < 8 ^ suc n → octal_count fuel value ≤ suc n
unfolding octal_count
octal_count-bound zero n value h = omega arith
octal_count-bound (suc fuel) zero value h = ground arith
octal_count-bound (suc fuel) (suc n) value h =
    ground (arith, octal_count-bound fuel n (value / 8) (pow_step (suc n) value h))

-- Bytes of the field's own length replace all of it.
pub write_bytes-full :
    (target bytes : Text) → length bytes ≡ length target → write_bytes target bytes ≡ bytes
write_bytes-full [] [] e = refl
write_bytes-full [] (b ∷ bytes) e = absurd (omega (arith, e))
write_bytes-full (t ∷ target) [] e = absurd (omega (arith, e))
write_bytes-full (t ∷ target) (b ∷ bytes) e =
    ap (λ u. b ∷ u) (write_bytes-full target bytes (omega (arith, e)))

max_lem : (l n c : ℕ) → l ≡ suc (suc n) → c ≤ suc n → max (l - 1) c ≡ suc n
max_lem l n c e h = ground arith

-- A number that has no more digits than the field has room for fills the field, but for a zero byte.
pub write_octal-fits :
    (target : Text) (value n : ℕ)
    → length target ≡ suc (suc n)
    → value < 8 ^ suc n
    → write_octal target value ≡ octal_low (suc n) value ++ 0 ∷ []
unfolding write_octal format_octal
write_octal-fits target value n l h =
    ap (λ w. write_bytes target (octal_low w value ++ 0 ∷ []))
      (max_lem (length target) n (octal_count 22 value) l (octal_count-bound 22 n value h))
    ∙ write_bytes-full target (octal_low (suc n) value ++ 0 ∷ []) (
        omega (
          arith,
          l,
          length-append (octal_low (suc n) value) (0 ∷ []),
          length-octal_low (suc n) value,
        ))

-- A number is read back from its field of a tar header, if it has no more octal digits than the field
-- has room for before the closing zero byte.
pub read_octal-write_octal :
    (target : Text) (value n : ℕ)
    → length target ≡ suc (suc n)
    → value < 8 ^ suc n
    → value ≤ u64_max
    → read_octal (write_octal target value) ≡ some value
read_octal-write_octal target value n l h k =
    ap read_octal (write_octal-fits target value n l h)
    ∙ read_octal-octal (octal_low (suc n) value) (octal_low-IsOctal (suc n) value)
        (octal_low-ne-nil n value)
    ∙ digits-octal_low (suc n) value h k
