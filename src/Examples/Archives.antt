-- ===== src/Examples/Archives.antt =====
-- Archives, and the theorems on them.
use etas.Base.{
  ℕ, suc, ◌≤◌, Text, codes, Option, none, some, Bool, true, false, List, [], ◌∷◌, ◌≡◌, refl, length,
  replicate, length-append, arith,
}
use etas.Base.Paths.{normal}
use etas.Diagnostics.{ok}
use etas.Archive.Octal.{write_octal, read_octal}
use etas.Archive.Number.{read_octal-write_octal}
use etas.Archive.Tar.{unpack_tar_bytes, pack_tar, zeros}
use etas.Archive.Inside.{IsSafe, unpack_tar_bytes-IsSafe}
use etas.Archive.Entry.{Packed, IsPackable, files, writes, always}
use etas.Archive.RoundTrip.{archive, entry, length-entry, unpack_tar_bytes-pack_tar}

read_octal-write_octal_example : read_octal (write_octal (zeros 12) 1234) ≡ some 1234
read_octal-write_octal_example =
    read_octal-write_octal (zeros 12) 1234 10 refl (omega arith) (omega arith)

abbrev manifest_file : Packed
manifest_file = record {
  relative = codes "etas.toml";
  payload = codes "name";
  target = normal (codes "etas.toml") ∷ [];
}

abbrev source_file : Packed
source_file = record {
  relative = codes "src/main.etas";
  payload = codes "flow";
  target = normal (codes "src") ∷ normal (codes "main.etas") ∷ [];
}

manifest_file-IsPackable : IsPackable manifest_file
unfolding etas.Base.Utf8.is_utf8 etas.Base.join
manifest_file-IsPackable = record {
  first = codes "etas.toml";
  rest = [];
  segments = (
    record {
      not_empty = λ e. cc;
      not_here = λ e. absurd (ground (arith, e));
      not_up = λ e. absurd (ground (arith, e));
      no_slash = refl;
      no_backslash = refl;
    },
    tt,
  );
  named = refl;
  placed = refl;
  short = omega arith;
  text = refl;
  no_zero = refl;
  small = omega arith;
}

source_file-IsPackable : IsPackable source_file
unfolding etas.Base.Utf8.is_utf8 etas.Base.join
source_file-IsPackable = record {
  first = codes "src";
  rest = codes "main.etas" ∷ [];
  segments = (
    record {
      not_empty = λ e. cc;
      not_here = λ e. absurd (ground (arith, e));
      not_up = λ e. absurd (ground (arith, e));
      no_slash = refl;
      no_backslash = refl;
    },
    (
      record {
        not_empty = λ e. cc;
        not_here = λ e. absurd (ground (arith, e));
        not_up = λ e. absurd (ground (arith, e));
        no_slash = refl;
        no_backslash = refl;
      },
      tt,
    ),
  );
  named = refl;
  placed = refl;
  short = omega arith;
  text = refl;
  no_zero = refl;
  small = omega arith;
}

length-archive : length (archive (manifest_file ∷ source_file ∷ [])) ≡ 3072
length-archive = omega (
  arith,
  length-append (entry manifest_file) (archive (source_file ∷ [])),
  length-append (entry source_file) (archive []),
  length-entry manifest_file,
  length-entry source_file,
)

unpack_tar_bytes-pack_tar_example :
    (pack_tar (files (manifest_file ∷ source_file ∷ []))
      ≡ ok (archive (manifest_file ∷ source_file ∷ [])))
    × (unpack_tar_bytes always
          (suc (length (archive (manifest_file ∷ source_file ∷ []))))
          (archive (manifest_file ∷ source_file ∷ []))
          0
          []
        ≡ record { done = writes (manifest_file ∷ source_file ∷ []); result = some (ok tt) })
unpack_tar_bytes-pack_tar_example =
    unpack_tar_bytes-pack_tar (manifest_file ∷ source_file ∷ [])
      (manifest_file-IsPackable, (source_file-IsPackable, tt)) (omega (arith, length-archive))

unpack_tar_bytes-IsSafe_example : IsSafe (
    unpack_tar_bytes always
      (suc (length (archive (source_file ∷ []))))
      (archive (source_file ∷ []))
      0
      [])
unpack_tar_bytes-IsSafe_example = unpack_tar_bytes-IsSafe always (archive (source_file ∷ []))
