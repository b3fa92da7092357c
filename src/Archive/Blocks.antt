-- ===== src/Archive/Blocks.antt =====
-- Where the fields of a header are.
use etas.Base.{ℕ, zero, suc, ◌+◌, ◌≤◌, Text, codes, true, false, ◌==◌, all, contains}
use etas.Base.{
  [], ◌∷◌, ◌++◌, ◌≡◌, ◌≢◌, refl, sym, ap, ◌∙◌, arith, length, take, drop, replicate, length-append,
}
use etas.Base.{take-length_append, drop-length_append}
use etas.Base.Utf8.{is_utf8}
use etas.Base.Lossy.{from_utf8_lossy, from_utf8_lossy-valid}
use etas.Archive.Octal.{write_bytes, write_octal, write_checksum}
use etas.Archive.Tar.{zeros, header_with, size_field, until_zero, read_c_string, first_byte, block}

length-write_bytes : (target bytes : Text) → length (write_bytes target bytes) ≡ length target
length-write_bytes [] [] = refl
length-write_bytes [] (b ∷ bytes) = refl
length-write_bytes (t ∷ target) [] = refl
length-write_bytes (t ∷ target) (b ∷ bytes) = ap suc (length-write_bytes target bytes)

length-write_octal : (target : Text) (value : ℕ) → length (write_octal target value) ≡ length target
unfolding write_octal
length-write_octal target value = length-write_bytes target _

pub length-write_checksum :
    (target : Text) (value : ℕ) → length (write_checksum target value) ≡ length target
unfolding write_checksum
length-write_checksum target value = length-write_bytes target _

module _ {n : ℕ} (xs ys : Text) (e : length xs ≡ n) where
  pub take_exact : take n (xs ++ ys) ≡ xs
  take_exact = rw (sym e) (take-length_append xs ys)

  pub drop_exact : drop n (xs ++ ys) ≡ ys
  drop_exact = rw (sym e) (drop-length_append xs ys)

drop_more : (xs ys : Text) (k : ℕ) → drop (length xs + k) (xs ++ ys) ≡ drop k ys
drop_more [] ys k = let e : 0 + k ≡ k = omega arith in ap (λ m. drop m ys) e
drop_more (x ∷ xs) ys k =
    let e : suc (length xs) + k ≡ suc (length xs + k) = omega arith in
    ap (λ m. drop m (x ∷ xs ++ ys)) e ∙ drop_more xs ys k

drop_past : (n k : ℕ) (xs ys : Text) → length xs ≡ n → drop (n + k) (xs ++ ys) ≡ drop k ys
drop_past n k xs ys e = rw (sym e) (drop_more xs ys k)

module _ (path cs : Text) (size : ℕ) (c : length cs ≡ 8) where
  length-name : length (write_bytes (zeros 100) path) ≡ 100
  length-name = length-write_bytes (zeros 100) path

  modes : Text
  modes = write_octal (zeros 8) 420 ++ (write_octal (zeros 8) 0 ++ write_octal (zeros 8) 0)

  length-modes : length modes ≡ 24
  unfolding modes
  length-modes = omega (
    arith,
    length-append (write_octal (zeros 8) 420) (write_octal (zeros 8) 0 ++ write_octal (zeros 8) 0),
    length-append (write_octal (zeros 8) 0) (write_octal (zeros 8) 0),
    length-write_octal (zeros 8) 420,
    length-write_octal (zeros 8) 0,
  )

  times : Text
  times = write_octal (zeros 12) 0 ++ cs

  length-times : length times ≡ 20
  unfolding times
  length-times =
      omega (arith, c, length-append (write_octal (zeros 12) 0) cs, length-write_octal (zeros 12) 0)

  rest : Text
  rest = b'0' ∷ zeros 100 ++ ((codes "ustar" ++ 0 ∷ []) ++ (codes "00" ++ zeros 247))

  pieces :
      header_with path cs size
      ≡ write_bytes (zeros 100) path ++ (modes ++ (size_field size ++ (times ++ rest)))
  unfolding modes times rest
  pieces = refl

  pub length-header_with : length (header_with path cs size) ≡ block
  unfolding rest
  length-header_with =
      ap length pieces
      ∙ omega (
        arith,
        length-append (write_bytes (zeros 100) path)
            (modes ++ (size_field size ++ (times ++ rest))),
        length-name,
        length-append modes (size_field size ++ (times ++ rest)),
        length-modes,
        length-append (size_field size) (times ++ rest),
        length-write_octal (zeros 12) size,
        length-append times rest,
        length-times,
      )

  pub name_lem : take 100 (header_with path cs size) ≡ write_bytes (zeros 100) path
  name_lem = rw pieces (take_exact _ _ length-name)

  pub size_lem : take 12 (drop 124 (header_with path cs size)) ≡ size_field size
  size_lem =
      ap (λ h. take 12 (drop 124 h)) pieces
      ∙ ap (take 12) (
          drop_past 100 24 (write_bytes (zeros 100) path) _ length-name
          ∙ drop_exact modes _ length-modes)
      ∙ take_exact (size_field size) _ (length-write_octal (zeros 12) size)

  pub type_lem : first_byte (drop 156 (header_with path cs size)) ≡ b'0'
  unfolding rest
  type_lem =
      ap (λ h. first_byte (drop 156 h)) pieces
      ∙ ap first_byte (
          drop_past 100 56 (write_bytes (zeros 100) path) _ length-name
          ∙ drop_past 24 32 modes _ length-modes
          ∙ drop_past 12 20 (size_field size) _ (length-write_octal (zeros 12) size)
          ∙ drop_exact times _ length-times)

  -- A header of a non-empty name is no end of the archive.
  pub header_with-not_zero :
      (b : ℕ) (name : Text)
      → path ≡ b ∷ name
      → b ≢ 0
      → all (λ b. b == 0) (header_with path cs size) ≡ false
  header_with-not_zero b name e n =
      ap (λ p. all (λ b. b == 0) (header_with p cs size)) e ∙ ground arith

until_zero-zeros : (k : ℕ) → until_zero (replicate k 0) ≡ []
until_zero-zeros zero = refl
until_zero-zeros (suc k) = refl

until_zero-append : (t : Text) (k : ℕ) → contains t 0 ≡ false → until_zero (t ++ replicate k 0) ≡ t
until_zero-append [] k h = until_zero-zeros k
until_zero-append (b ∷ t) k h = ground (arith, until_zero-append t k)

write_bytes-zeros :
    (n : ℕ) (t : Text)
    → length t ≤ n
    → (k : ℕ) × (write_bytes (replicate n 0) t ≡ t ++ replicate k 0)
write_bytes-zeros zero [] h = (zero, refl)
write_bytes-zeros (suc n) [] h = (suc n, refl)
write_bytes-zeros zero (b ∷ t) h = absurd (omega (arith, h))
write_bytes-zeros (suc n) (b ∷ t) h =
    let (k, e) = write_bytes-zeros n t (omega (arith, h)) in (k, ap (λ u. b ∷ u) e)

-- A name is read back from its field.
pub read_c_string-write_bytes :
    (t : Text)
    → length t ≤ 100
    → contains t 0 ≡ false
    → is_utf8 t ≡ true
    → read_c_string (write_bytes (zeros 100) t) ≡ t
unfolding read_c_string
read_c_string-write_bytes t l z u =
    let (k, e) = write_bytes-zeros 100 t l in
    ap (λ w. from_utf8_lossy (until_zero w)) e
    ∙ ap from_utf8_lossy (until_zero-append t k z)
    ∙ from_utf8_lossy-valid t u
