-- ===== src/Store.antt =====
-- `package_store_relative_path` of crates/etas_package/src/store/mod.rs: where the package store keeps
-- the payload of a checksum.
use etas.Base.{
  length, ℕ, Text, codes, strip_prefix, strip_prefix-append, strip_prefix-eq-some, Option, none,
  some, Bool, true, not, ◌&&◌, ◌||◌,
}
use etas.Base.{
  [], ◌∷◌, ◌++◌, ◌≡◌, ◌≢◌, ◌↔◌, refl, sym, ap, ◌∙◌, arith, All, all, is_empty, leb, if◌then◌else◌,
}
use mathlib.Core.Option.{some-injective}
use etas.Diagnostics.{Result, ok, err, PackageError, manifest_error}
use etas.Manifest.Names.{is_ascii_digit, is_blake3_checksum}
use etas.Manifest.Grammar.{is_blake3_checksum_iff, IsLowerHex, all_iff}

abbrev is_ascii_hexdigit : ℕ → Bool
is_ascii_hexdigit c = is_ascii_digit c || (leb b'a' c && leb c b'f') || (leb b'A' c && leb c b'F')

abbrev is_ascii_uppercase : ℕ → Bool
is_ascii_uppercase c = leb b'A' c && leb c b'Z'

abbrev store_error : PackageError
store_error = manifest_error (codes ".etas/store/packages")

abbrev pub store_path : Text → Text
store_path digest = codes ".etas/store/packages/blake3/" ++ digest

unfoldable pub digest_path : Option Text → Result PackageError Text
digest_path none = err store_error
digest_path (some digest) =
    if is_empty digest || not (all (λ c. is_ascii_hexdigit c && not (is_ascii_uppercase c)) digest)
    then err store_error
    else ok (store_path digest)

unfoldable pub package_store_relative_path : Text → Result PackageError Text
unfolding digest_path
package_store_relative_path checksum = digest_path (strip_prefix (codes "blake3:") checksum)

-- A digest of lower-case hexadecimal digits, one at least.
abbrev pub IsDigest : Text → Type 0
IsDigest digest = (digest ≢ []) × All IsLowerHex digest

hex_char_iff : (c : ℕ) → ((is_ascii_hexdigit c && not (is_ascii_uppercase c)) ≡ true) ↔ IsLowerHex c
hex_char_iff c = ground arith

digest_path_iff :
    (digest path : Text)
    → (digest_path (some digest) ≡ ok path) ↔ (IsDigest digest × (path ≡ store_path digest))
unfolding digest_path
digest_path_iff [] path = ground arith
digest_path_iff (c ∷ cs) path = ground (arith, all_iff _ _ hex_char_iff (c ∷ cs))

found-IsDigest :
    (checksum path : Text) (o : Option Text)
    → strip_prefix (codes "blake3:") checksum ≡ o
    → digest_path o ≡ ok path
    → (digest : Text) × IsDigest digest
      × (checksum ≡ codes "blake3:" ++ digest)
      × (path ≡ store_path digest)
unfolding digest_path
found-IsDigest checksum path none e h = absurd (cc)
found-IsDigest checksum path (some digest) e h =
    let both = (digest_path_iff digest path).0 h in
    (digest, both.0, (strip_prefix-eq-some (codes "blake3:") checksum digest).0 e, both.1)

-- The store has a place for a checksum exactly when it is `blake3:` and lower-case hexadecimal digits,
-- one at least; the place is named by these digits and nothing else.
pub package_store_relative_path_iff :
    (checksum path : Text)
    → (package_store_relative_path checksum ≡ ok path) ↔ (
        (digest : Text) × IsDigest digest
        × (checksum ≡ codes "blake3:" ++ digest)
        × (path ≡ store_path digest))
unfolding package_store_relative_path
package_store_relative_path_iff checksum path = (
  found-IsDigest checksum path (strip_prefix (codes "blake3:") checksum) refl,
  (λ (digest, d, c, p).
      ap digest_path ((strip_prefix-eq-some (codes "blake3:") checksum digest).1 c)
      ∙ (digest_path_iff digest path).1 (d, p)),
)

store_path_injective : (a b : Text) → store_path a ≡ store_path b → a ≡ b
store_path_injective a b e =
    let prefix = codes ".etas/store/packages/blake3/" in
    some-injective a b (
      sym (strip_prefix-append prefix a)
      ∙ ap (strip_prefix prefix) e
      ∙ strip_prefix-append prefix b)

-- Payloads with different checksums never share a place in the store.
pub package_store_relative_path_injective :
    (a b path : Text)
    → package_store_relative_path a ≡ ok path
    → package_store_relative_path b ≡ ok path
    → a ≡ b
package_store_relative_path_injective a b path ha hb =
    let (d, _, ea, pa) = (package_store_relative_path_iff a path).0 ha in
    let (e, _, eb, pb) = (package_store_relative_path_iff b path).0 hb in
    ea ∙ ap (λ t. codes "blake3:" ++ t) (store_path_injective d e (sym pa ∙ pb)) ∙ sym eb

-- Every checksum that the manifest accepts has a place in the store.
pub is_blake3_checksum-store_path :
    (checksum : Text)
    → is_blake3_checksum checksum ≡ true
    → (digest : Text) × (checksum ≡ codes "blake3:" ++ digest)
      × (package_store_relative_path checksum ≡ ok (store_path digest))
is_blake3_checksum-store_path checksum h =
    let (hex, n, all_hex, e) = (is_blake3_checksum_iff checksum).0 h in
    (
      hex,
      e,
      (package_store_relative_path_iff checksum (store_path hex)).1
          (hex, (not_empty hex n, all_hex), e, refl),
    )
  where
    not_empty : (hex : Text) → length hex ≡ 64 → hex ≢ []
    not_empty [] n k = absurd (ground arith)
    not_empty (c ∷ cs) n k = absurd (cc)
