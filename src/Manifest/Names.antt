-- ===== src/Manifest/Names.antt =====
-- The recognisers of crates/etas_package/src/manifest/mod.rs for import roots, GitHub repositories
-- and checksums, and `str::trim` where it only serves to find a blank text.
use etas.Base.{ℕ, Text, codes, Option, none, some, Bool, true, false, not, ◌&&◌, ◌||◌, [], ◌∷◌}
use etas.Base.{◌==◌, leb, if◌then◌else◌, all, is_empty, length, contains, split, split_once}
use etas.Base.{strip_prefix}

abbrev pub is_ascii_digit : ℕ → Bool
is_ascii_digit c = leb b'0' c && leb c b'9'

abbrev pub is_ascii_alphabetic : ℕ → Bool
is_ascii_alphabetic c = (leb b'a' c && leb c b'z') || (leb b'A' c && leb c b'Z')

abbrev pub is_ascii_alphanumeric : ℕ → Bool
is_ascii_alphanumeric c = is_ascii_alphabetic c || is_ascii_digit c

-- One segment of an import root: the body of the closure.
unfoldable pub is_identifier : Text → Bool
is_identifier [] = false
is_identifier (first ∷ chars) =
    (first == b'_' || is_ascii_alphabetic first)
    && all (λ ch. ch == b'_' || is_ascii_alphanumeric ch) chars

unfoldable pub is_valid_import_root : Text → Bool
is_valid_import_root import_root =
    not (is_empty import_root) && all is_identifier (split b'.' import_root)

unfoldable pub is_github_name_char : ℕ → Bool
is_github_name_char character =
    is_ascii_alphanumeric character || character == b'-' || character == b'_' || character == b'.'

unfoldable pub is_valid_github_repo : Text → Bool
is_valid_github_repo value = elim (split_once b'/' value) [
  | none ↦ false
  | some (owner, repo) ↦
      not (is_empty owner)
      && not (is_empty repo)
      && not (contains repo b'/')
      && all is_github_name_char owner
      && all is_github_name_char repo
]

abbrev pub is_lower_hex : ℕ → Bool
is_lower_hex c = is_ascii_digit c || (leb b'a' c && leb c b'f')

unfoldable pub is_blake3_checksum : Text → Bool
is_blake3_checksum value = elim (strip_prefix (codes "blake3:") value) [
  | none ↦ false
  | some hex ↦ length hex == 64 && all is_lower_hex hex
]

-- `value.trim().is_empty()`: every character is White_Space. The states are the bytes that may begin
-- such a character: U+0085, U+00A0, U+1680, U+2000 to U+200A, U+2028, U+2029, U+202F, U+205F, U+3000.
pub data Space : Type 0 where
  start c2 e1 e1_9a e2 e2_80 e2_81 e3 e3_80 : Space

abbrev to_start : Bool → Option Space
to_start test = if test then some start else none

unfoldable pub space_step : Space → ℕ → Option Space
space_step start b =
    if (leb 9 b && leb b 13) || b == 32
    then some start
    else if b == 0xc2
    then some c2
    else if b == 0xe1
    then some e1
    else if b == 0xe2
    then some e2
    else if b == 0xe3
    then some e3
    else none
space_step c2 b = to_start (b == 0x85 || b == 0xa0)
space_step e1 b = if b == 0x9a then some e1_9a else none
space_step e1_9a b = to_start (b == 0x80)
space_step e2 b = if b == 0x80 then some e2_80 else if b == 0x81 then some e2_81 else none
space_step e2_80 b = to_start ((leb 0x80 b && leb b 0x8a) || b == 0xa8 || b == 0xa9 || b == 0xaf)
space_step e2_81 b = to_start (b == 0x9f)
space_step e3 b = if b == 0x80 then some e3_80 else none
space_step e3_80 b = to_start (b == 0x80)

blank_from : Space → Text → Bool
blank_from start [] = true
blank_from _ [] = false
blank_from s (b ∷ bs) = elim (space_step s b) [ none ↦ false | some t ↦ blank_from t bs ]

unfoldable pub is_blank : Text → Bool
unfolding blank_from space_step
is_blank t = blank_from start t
