-- ===== src/Resolver/Codec.antt =====
-- The percent code of lockfile values: `encode_lock_value` of crates/etas_package/src/resolver/lock.rs
-- (and its copy in environment.rs), `decode_lock_value` and `from_hex` of source.rs.
use etas.Base.{
  ℕ, ◌+◌, ◌-◌, ◌*◌, ◌/◌, ◌%◌, ◌<◌, Text, Option, none, some, Bool, true, false, ◌||◌, ◌&&◌,
}
use etas.Base.{[], ◌∷◌, ◌≡◌, refl, arith, All, ltb, leb, ◌==◌, if◌then◌else◌, Bool-cases, inl, inr}
use etas.Base.{contains}
use etas.Base.Utf8.{is_utf8, is_utf8-bytes}
use etas.Manifest.Names.{is_ascii_alphanumeric}

is_plain : ℕ → Bool
is_plain byte =
    is_ascii_alphanumeric byte || byte == b'-' || byte == b'.' || byte == b'_' || byte == b'~'

-- One digit of `{:02X}`
hex_digit : ℕ → ℕ
hex_digit n = if ltb n 10 then b'0' + n else b'A' + (n - 10)

unfoldable pub encode_lock_value : Text → Text
unfolding is_plain hex_digit
encode_lock_value [] = []
encode_lock_value (byte ∷ value) =
    let rest = encode_lock_value value in
    if is_plain byte
    then byte ∷ rest
    else b'%' ∷ hex_digit (byte / 16) ∷ hex_digit (byte % 16) ∷ rest

unfoldable pub from_hex : ℕ → Option ℕ
from_hex byte =
    if leb b'0' byte && leb byte b'9'
    then some (byte - b'0')
    else if leb b'a' byte && leb byte b'f'
    then some (byte - b'a' + 10)
    else if leb b'A' byte && leb byte b'F'
    then some (byte - b'A' + 10)
    else none

abbrev push : ℕ → Option Text → Option Text
push b none = none
push b (some bs) = some (b ∷ bs)

abbrev hex_pair : Option ℕ → Option ℕ → Option Text → Option Text
hex_pair (some high) (some low) rest = push (high * 16 + low) rest
hex_pair _ _ rest = none

-- The `while` loop: it consumes one byte, or three from a `%`.
decode_bytes : Text → Option Text
unfolding from_hex
decode_bytes [] = some []
decode_bytes (byte ∷ []) = if byte == b'%' then none else some (byte ∷ [])
decode_bytes (byte ∷ high ∷ []) =
    if byte == b'%' then none else push byte (decode_bytes (high ∷ []))
decode_bytes (byte ∷ high ∷ low ∷ rest) = elim (byte == b'%') [
  | true ↦ hex_pair (from_hex high) (from_hex low) (decode_bytes rest)
  | false ↦ push byte (decode_bytes (high ∷ low ∷ rest))
]

unfoldable pub decode_lock_value : Text → Option Text
unfolding decode_bytes
decode_lock_value value = elim (decode_bytes value) [
  | none ↦ none
  | some output ↦ if is_utf8 output then some output else none
]

from_hex-hex_digit : (n : ℕ) → n < 16 → from_hex (hex_digit n) ≡ some n
unfolding from_hex hex_digit
from_hex-hex_digit n h = ground arith

decode_bytes-plain :
    (b : ℕ) (t : Text) → (b == b'%') ≡ false → decode_bytes (b ∷ t) ≡ push b (decode_bytes t)
unfolding decode_bytes
decode_bytes-plain b [] h = ground arith
decode_bytes-plain b (c ∷ []) h = ground arith
decode_bytes-plain b (c ∷ d ∷ t) h = ground arith

decode_bytes-escape :
    (b : ℕ) (t : Text)
    → b < 256
    → decode_bytes (b'%' ∷ hex_digit (b / 16) ∷ hex_digit (b % 16) ∷ t) ≡ push b (decode_bytes t)
unfolding decode_bytes
decode_bytes-escape b t h =
    rw (from_hex-hex_digit (b / 16) (omega arith), from_hex-hex_digit (b % 16) (omega arith))
      (let e : b / 16 * 16 + b % 16 ≡ b = omega arith in rw e refl)

plain_no_percent : (b : ℕ) → is_plain b ≡ true → (b == b'%') ≡ false
unfolding is_plain
plain_no_percent b h = ground arith

decode_bytes-encode :
    (t : Text) → All (λ b. b < 256) t → decode_bytes (encode_lock_value t) ≡ some t
unfolding encode_lock_value
decode_bytes-encode [] h = unfold decode_bytes in refl
decode_bytes-encode (b ∷ t) h = elim (Bool-cases (is_plain b)) [
  | inl e ↦
      rw (e, decode_bytes-plain b (encode_lock_value t) (plain_no_percent b e))
        (rw (decode_bytes-encode t h.1) refl)
  | inr e ↦
      rw (e, decode_bytes-escape b (encode_lock_value t) h.0) (rw (decode_bytes-encode t h.1) refl)
]

-- Every text that is valid UTF-8 is decoded from its code.
pub decode-encode_lock_value :
    (t : Text) → is_utf8 t ≡ true → decode_lock_value (encode_lock_value t) ≡ some t
unfolding decode_lock_value
decode-encode_lock_value t h =
    rw (decode_bytes-encode t (is_utf8-bytes t h), decode_lock_value) (rw h refl)

-- No code has a `&`, so a code ends where the next part of a query begins.
pub encode_lock_value_no_amp : (t : Text) → contains (encode_lock_value t) b'&' ≡ false
unfolding encode_lock_value
encode_lock_value_no_amp [] = refl
encode_lock_value_no_amp (b ∷ t) = ground (arith, encode_lock_value_no_amp t)
