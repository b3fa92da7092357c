-- ===== src/Archive/Octal.antt =====
-- The number fields of a tar header: `write_bytes`, `write_octal`, `write_checksum` and `read_octal` of
-- crates/etas_package/src/source/archive.rs, with the formatting and parsing that they call.
use Prim.Native.Nat.{max}
use etas.Base.{
  ℕ, zero, suc, ◌+◌, ◌-◌, ◌*◌, ◌/◌, ◌%◌, ◌^◌, Text, Option, none, some, Bool, true, false,
}
use etas.Base.{
  ◌≡◌, refl, List, [], ◌∷◌, ◌++◌, ltb, leb, ◌==◌, ◌&&◌, if◌then◌else◌, is_empty, length, take, drop,
  replicate,
}
use etas.Base.Lossy.{from_utf8_lossy}
use etas.Manifest.Names.{Space, start, space_step, is_blank}

-- What stands in `target` after `bytes` are copied over its beginning, as far as they fit.
abbrev pub write_bytes : Text → Text → Text
write_bytes target bytes = take (length target) bytes ++ drop (length bytes) target

-- The `n` last octal digits.
unfoldable pub octal_low : ℕ → ℕ → Text
octal_low zero value = []
octal_low (suc n) value = octal_low n (value / 8) ++ (b'0' + value % 8) ∷ []

-- How many octal digits a number has; 22 are enough for a `u64`.
unfoldable pub octal_count : ℕ → ℕ → ℕ
octal_count zero value = 1
octal_count (suc fuel) value =
    let rest = octal_count fuel (value / 8) in if ltb value 8 then 1 else suc rest

-- `format!("{value:0width$o}")`
unfoldable pub format_octal : ℕ → ℕ → Text
unfolding octal_low octal_count
format_octal width value = octal_low (max width (octal_count 22 value)) value

unfoldable pub write_octal : Text → ℕ → Text
unfolding format_octal
write_octal target value = write_bytes target (format_octal (length target - 1) value ++ 0 ∷ [])

unfoldable pub write_checksum : Text → ℕ → Text
unfolding format_octal
write_checksum target value = write_bytes target (format_octal 6 value ++ 0 ∷ b' ' ∷ [])

-- Zero bytes go at both ends: `trim_matches(char::from(0))`.
abbrev pub drop_zeros : Text → Text
drop_zeros [] = []
drop_zeros (b ∷ bs) = if b == 0 then drop_zeros bs else b ∷ bs

abbrev pub drop_last_zeros : Text → Text
drop_last_zeros [] = []
drop_last_zeros (b ∷ bs) =
    let rest = drop_last_zeros bs in if b == 0 && is_empty rest then [] else b ∷ rest

-- `str::trim`: the text from its first character that is no White_Space, kept in `from` meanwhile.
unfoldable pub trim_start : Space → Text → Text → Text
unfolding space_step
trim_start s from [] = from
trim_start s from (b ∷ bs) =
    let again = trim_start start bs bs in
    elim (space_step s b) [ none ↦ from | some start ↦ again | some s' ↦ trim_start s' from bs ]

unfoldable pub trim_end : Text → Text
trim_end [] = []
trim_end (b ∷ bs) = let rest = trim_end bs in if is_blank (b ∷ bs) then [] else b ∷ rest

unfoldable pub trim : Text → Text
unfolding trim_start trim_end
trim t = trim_end (trim_start start t t)

abbrev pub u64_max : ℕ
u64_max = 2 ^ 64 - 1

abbrev pub push_digit : Option ℕ → ℕ → Option ℕ
push_digit none b = none
push_digit (some acc) b =
    if leb b'0' b && leb b b'7' && leb (acc * 8 + (b - b'0')) u64_max
    then some (acc * 8 + (b - b'0'))
    else none

unfoldable pub digits : Option ℕ → Text → Option ℕ
digits acc [] = acc
digits acc (b ∷ bs) = digits (push_digit acc b) bs

-- `u64::from_str_radix(text, 8)`: a `+` may lead.
unfoldable pub from_str_radix : Text → Option ℕ
unfolding digits
from_str_radix [] = none
from_str_radix (b ∷ []) = digits (some 0) (b ∷ [])
from_str_radix (b ∷ c ∷ bs) =
    if b == b'+' then digits (some 0) (c ∷ bs) else digits (some 0) (b ∷ c ∷ bs)

unfoldable pub read_octal : Text → Option ℕ
unfolding from_str_radix trim
read_octal bytes =
    let trimmed = trim (drop_last_zeros (drop_zeros (from_utf8_lossy bytes))) in
    if is_empty trimmed then some 0 else from_str_radix trimmed

reads_size : read_octal (b' ' ∷ b'1' ∷ b'7' ∷ b' ' ∷ 0 ∷ 0 ∷ []) ≡ some 15
unfolding read_octal from_utf8_lossy etas.Base.Utf8.step etas.Base.Utf8.lead is_blank
reads_size = refl
