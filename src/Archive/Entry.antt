-- ===== src/Archive/Entry.antt =====
-- One packed file: its header, and what unpacking makes of it.
use etas.Base.{
  ℕ, zero, suc, ◌+◌, ◌-◌, ◌≤◌, ◌<◌, ◌^◌, Text, Option, none, some, Bool, true, false, ◌==◌, all,
  contains, ltb, leb,
}
use etas.Base.{
  List, [], ◌∷◌, ◌++◌, ◌≡◌, ◌≢◌, refl, sym, ap, ◌∙◌, arith, All, length, take, drop, replicate,
  length-append, length-replicate,
}
use etas.Base.{drop-length_append, take-length_append, if◌then◌else◌}
use etas.Base.Utf8.{is_utf8}
use etas.Base.Paths.{RelativePath}
use etas.Diagnostics.{ok, err}
use etas.Archive.Octal.{write_bytes}
use etas.Archive.Names.{IsSegment, normals, name_of, slashes-name_of, safe_archive_path-name_of}
use etas.Archive.Number.{read_octal-write_octal}
use etas.Archive.Tar.{
  empty_path, Action, make_dirs, write_file, Unpacked, parent, perform, content, or_stop, block,
  padding, zeros, slashes, header, size_field, safe_archive_path, unpack_entry, unpack_block,
  first_byte,
}
use etas.Archive.Blocks.{
  length-write_checksum, length-header_with, name_lem, size_lem, type_lem, header_with-not_zero,
  read_c_string-write_bytes,
}

-- A file to pack, and the path below the destination that its name stands for.
pub record Packed : Type 0 where
  pub relative : Text
  pub payload : Text
  pub target : RelativePath

-- The name is the segments of the target, joined by slashes; it fits its field and has no zero byte; and
-- the size fits its field.
pub record IsPackable (p : Packed) : Type 0 where
  pub first : Text
  pub rest : List Text
  pub segments : All IsSegment (first ∷ rest)
  pub named : p.relative ≡ name_of (first ∷ rest)
  pub placed : p.target ≡ normals (first ∷ rest)
  pub short : length p.relative ≤ 100
  pub text : is_utf8 p.relative ≡ true
  pub no_zero : contains p.relative 0 ≡ false
  pub small : length p.payload < 8 ^ 11

-- What packing and unpacking rely on.
pub record IsReady (p : Packed) : Type 0 where
  pub short : length (slashes p.relative) ≤ 100
  pub text : is_utf8 (slashes p.relative) ≡ true
  pub no_zero : contains (slashes p.relative) 0 ≡ false
  pub safe : safe_archive_path (slashes p.relative) ≡ ok p.target
  pub small : length p.payload < 8 ^ 11

IsReady-of : (p : Packed) → IsPackable p → IsReady p
IsReady-of p h =
    let same : slashes p.relative ≡ p.relative =
      ap slashes h.named ∙ slashes-name_of (h.first ∷ h.rest) h.segments ∙ sym h.named in
    record {
      short = rw same h.short;
      text = rw same h.text;
      no_zero = rw same h.no_zero;
      safe =
          ap safe_archive_path (same ∙ h.named)
          ∙ safe_archive_path-name_of h.first h.rest h.segments
          ∙ ap ok (sym h.placed);
      small = h.small;
    }

pub AllReady : (ps : List Packed) → All IsPackable ps → All IsReady ps
AllReady [] h = tt
AllReady (p ∷ ps) (h, hs) = (IsReady-of p h, AllReady ps hs)

abbrev pub files : List Packed → List (Text × Option Text)
files [] = []
files (p ∷ ps) = (p.relative, some p.payload) ∷ files ps

-- Each file after the directory that it is in.
abbrev pub writes : List Packed → List Action
writes [] = []
writes (p ∷ ps) =
    make_dirs (take (length p.target - 1) p.target) ∷ write_file p.target p.payload ∷ writes ps

abbrev pub steps : List Packed → List Action
steps [] = []
steps (p ∷ ps) = make_dirs (parent p.target) ∷ write_file p.target p.payload ∷ steps ps

parent_lem : (path : RelativePath) → parent path ≡ take (length path - 1) path
parent_lem [] = refl
parent_lem (c ∷ []) = refl
parent_lem (c ∷ d ∷ path) =
    ap (λ cs. c ∷ cs) (parent_lem (d ∷ path))
    ∙ ap (λ k. take k (c ∷ d ∷ path)) (one_less (length path))
  where
    one_less : (n : ℕ) → suc (suc n - 1) ≡ suc (suc n) - 1
    one_less n = omega arith

pub steps-writes : (ps : List Packed) → steps ps ≡ writes ps
steps-writes [] = refl
steps-writes (p ∷ ps) = rw (parent_lem p.target, steps-writes ps) refl

abbrev pub always : List Action → Action → Bool
always done action = true

module _ (path : Text) (size : ℕ) where
  pub length-header : length (header path size) ≡ block
  unfolding header
  length-header = length-header_with path _ size (length-write_checksum (replicate 8 b' ') _)

  pub header-name : take 100 (header path size) ≡ write_bytes (zeros 100) path
  unfolding header
  header-name = name_lem path _ size (length-write_checksum (replicate 8 b' ') _)

  header-size : take 12 (drop 124 (header path size)) ≡ size_field size
  unfolding header
  header-size = size_lem path _ size (length-write_checksum (replicate 8 b' ') _)

  header-type : first_byte (drop 156 (header path size)) ≡ b'0'
  unfolding header
  header-type = type_lem path _ size (length-write_checksum (replicate 8 b' ') _)

empty_name : (target : RelativePath) → safe_archive_path [] ≢ ok target
unfolding safe_archive_path etas.Base.Paths.components etas.Base.split etas.Base.same_text
empty_name target e = absurd (apart (sym refused ∙ e))
  where
    refused : safe_archive_path [] ≡ err empty_path
    refused = refl

    apart : err empty_path ≡ ok target → ⊥
    apart k = absurd (cc)

header-not_zero :
    (path : Text) (size : ℕ) (target : RelativePath)
    → contains path 0 ≡ false
    → safe_archive_path path ≡ ok target
    → all (λ b. b == 0) (header path size) ≡ false
unfolding header
header-not_zero [] size target z s = absurd (empty_name target s)
header-not_zero (b ∷ name) size target z s =
    header_with-not_zero (b ∷ name) _ size (length-write_checksum (replicate 8 b' ') _) b name refl
      (ground arith)

module _ (next : ℕ → List Action → Unpacked) where
  -- The header of a packed file is followed to the writing of its payload.
  pub unpack_block-header :
      (p : Packed) (bytes : Text) (offset : ℕ) (done : List Action)
      → IsReady p
      → content always bytes (offset + block) (length p.payload) ≡ ok p.payload
      → (let done' =
            (done ++ make_dirs (parent p.target) ∷ []) ++ write_file p.target p.payload ∷ [] in
          let rest = next (offset + block + length p.payload + padding (length p.payload)) done' in
          unpack_block always
            (header (slashes p.relative) (length p.payload))
            bytes
            offset
            done
            next
          ≡ record {
            done = make_dirs (parent p.target) ∷ write_file p.target p.payload ∷ rest.done;
            result = rest.result;
          })
  unfolding unpack_block unpack_entry perform or_stop
  unpack_block-header p bytes offset done good c =
      let name = slashes p.relative in
      let size = length p.payload in
      rw (header-not_zero name size p.target good.no_zero good.safe) (
        rw (header-size name size) (
          rw (read_octal-write_octal (zeros 12) size 10 refl good.small (omega (arith, good.small)))
            (rw (header-name name size) (
              rw (read_c_string-write_bytes name good.short good.no_zero good.text)
                (rw good.safe (rw (header-type name size) (rw c refl)))))))
