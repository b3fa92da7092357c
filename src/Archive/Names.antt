-- ===== src/Archive/Names.antt =====
-- The names of packed files: path segments joined by slashes, as `append_file` writes them and
-- `safe_archive_path` reads them, of crates/etas_package/src/source/archive.rs.
use etas.Base.{ℕ, Text, codes, same_text_iff, contains, join, concat_map, false, All}
use etas.Base.{List, [], ◌∷◌, ◌++◌, ◌≡◌, ◌≢◌, refl, ap, ◌∙◌, arith}
use etas.Base.Split.{split-join}
use etas.Base.Paths.{normal, RelativePath, components, pieces, first_piece, piece}
use etas.Diagnostics.{ok}
use etas.Manifest.Validate.{is_absolute}
use etas.Archive.Tar.{slashes, safe_components, safe_archive_path}

-- A segment of a path: not empty, not `.` and not `..`, without a slash of either kind.
pub record IsSegment (t : Text) : Type 0 where
  pub not_empty : t ≢ []
  pub not_here : t ≢ codes "."
  pub not_up : t ≢ codes ".."
  pub no_slash : contains t b'/' ≡ false
  pub no_backslash : contains t b'\\' ≡ false

abbrev pub normals : List Text → RelativePath
normals [] = []
normals (t ∷ ts) = normal t ∷ normals ts

abbrev pub name_of : List Text → Text
name_of segments = join (codes "/") segments

slashes-same : (t : Text) → contains t b'\\' ≡ false → slashes t ≡ t
slashes-same [] h = refl
slashes-same (b ∷ bs) h = ground (arith, slashes-same bs)

contains-append :
    (c : ℕ) (s t : Text) → contains s c ≡ false → contains t c ≡ false → contains (s ++ t) c ≡ false
contains-append c [] t h k = k
contains-append c (b ∷ bs) t h k = ground (arith, contains-append c bs t)

contains-name_of : (ts : List Text) → All IsSegment ts → contains (name_of ts) b'\\' ≡ false
unfolding join
contains-name_of [] h = refl
contains-name_of (t ∷ []) (h, _) = h.no_backslash
contains-name_of (t ∷ u ∷ ts) (h, hs) =
    contains-append b'\\' t (b'/' ∷ name_of (u ∷ ts)) h.no_backslash
      (ground (arith, contains-name_of (u ∷ ts) hs))

pub slashes-name_of : (ts : List Text) → All IsSegment ts → slashes (name_of ts) ≡ name_of ts
slashes-name_of ts h = slashes-same (name_of ts) (contains-name_of ts h)

piece_lem : (t : Text) → IsSegment t → piece t ≡ normal t ∷ []
unfolding piece
piece_lem t h =
    ground (arith, h, same_text_iff t [], same_text_iff t (codes "."), same_text_iff t (codes ".."))

first_piece_lem : (t : Text) → IsSegment t → first_piece t ≡ normal t ∷ []
unfolding first_piece
first_piece_lem t h = ground (arith, h.not_here, piece_lem t h, same_text_iff t (codes "."))

concat_piece : (ts : List Text) → All IsSegment ts → concat_map piece ts ≡ normals ts
concat_piece [] h = refl
concat_piece (t ∷ ts) (h, hs) = rw (piece_lem t h, concat_piece ts hs) refl

pieces_lem :
    (t : Text) (ts : List Text) → All IsSegment (t ∷ ts) → pieces (t ∷ ts) ≡ normals (t ∷ ts)
unfolding pieces
pieces_lem t [] (h, _) = first_piece_lem t h
pieces_lem [] (u ∷ ts) (h, hs) = absurd (h.not_empty refl)
pieces_lem (c ∷ t) (u ∷ ts) (h, hs) = rw (first_piece_lem (c ∷ t) h, concat_piece (u ∷ ts) hs) refl

no_slashes : (ts : List Text) → All IsSegment ts → All (λ t. contains t b'/' ≡ false) ts
no_slashes [] h = tt
no_slashes (t ∷ ts) (h, hs) = (h.no_slash, no_slashes ts hs)

components-name_of :
    (t : Text) (ts : List Text)
    → All IsSegment (t ∷ ts)
    → components (name_of (t ∷ ts)) ≡ normals (t ∷ ts)
unfolding components
components-name_of t ts h =
    ap pieces (split-join b'/' t ts (no_slashes (t ∷ ts) h)) ∙ pieces_lem t ts h

safe_components-normals : (ts : List Text) → safe_components (normals ts) ≡ ok (normals ts)
unfolding safe_components
safe_components-normals [] = refl
safe_components-normals (t ∷ ts) = rw (safe_components-normals ts) refl

not_absolute :
    (t : Text) (ts : List Text) → All IsSegment (t ∷ ts) → is_absolute (name_of (t ∷ ts)) ≡ false
unfolding join
not_absolute [] ts (h, _) = absurd (h.not_empty refl)
not_absolute (c ∷ t) [] (h, _) = ground (arith, h.no_slash)
not_absolute (c ∷ t) (u ∷ ts) (h, _) = ground (arith, h.no_slash)

-- A name is read as the path of its segments.
pub safe_archive_path-name_of :
    (t : Text) (ts : List Text)
    → All IsSegment (t ∷ ts)
    → safe_archive_path (name_of (t ∷ ts)) ≡ ok (normals (t ∷ ts))
unfolding safe_archive_path
safe_archive_path-name_of t ts h =
    rw (not_absolute t ts h, components-name_of t ts h, safe_components-normals (t ∷ ts)) refl
