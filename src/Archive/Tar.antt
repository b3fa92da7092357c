-- ===== src/Archive/Tar.antt =====
-- `append_file`, `unpack_tar_bytes`, `safe_archive_path` and `read_c_string` of
-- crates/etas_package/src/source/archive.rs. The array slices of a header are the pieces that it is
-- put together from.
use etas.Base.{ℕ, zero, suc, ◌+◌, ◌-◌, ◌%◌, Text, codes, Option, none, some, Bool}
use etas.Base.{
  List, [], ◌∷◌, ◌++◌, ltb, ◌==◌, ◌||◌, all, if◌then◌else◌, is_empty, length, take, drop, replicate,
}
use etas.Base.Lossy.{from_utf8_lossy}
use etas.Base.Paths.{Component, normal, cur_dir, RelativePath, components}
use etas.Diagnostics.{Result, ok, err, ◌>>=◌, ◌>>◌, fail_if, ok_or}
use etas.Manifest.Validate.{is_absolute}
use etas.Archive.Octal.{write_bytes, write_octal, write_checksum, read_octal, u64_max}

-- One constructor for each message; `io` is a failed call of the file system.
pub data ArchiveError : Type 0 where
  path_too_long not_readable invalid_size : ArchiveError
  absolute_path escapes_root empty_path : ArchiveError
  size_overflows exceeds_archive link_not_allowed unsupported_type no_terminator io : ArchiveError

abbrev pub block : ℕ
block = 512

abbrev pub zeros : ℕ → Text
zeros n = replicate n 0

abbrev sum : Text → ℕ
sum [] = 0
sum (b ∷ bs) = b + sum bs

-- `replace('\\', "/")`
abbrev pub slashes : Text → Text
slashes [] = []
slashes (b ∷ bs) = (if b == b'\\' then b'/' else b) ∷ slashes bs

abbrev pub size_field : ℕ → Text
size_field size = write_octal (zeros 12) size

-- A header whose bytes 148 to 156 are `checksum`.
abbrev pub header_with : (path checksum : Text) → ℕ → Text
header_with path checksum size =
    write_bytes (zeros 100) path
    ++ ((write_octal (zeros 8) 420 ++ (write_octal (zeros 8) 0 ++ write_octal (zeros 8) 0))
        ++ (size_field size
            ++ (((write_octal (zeros 12) 0 ++ checksum)
                ++ (b'0' ∷ zeros 100
                    ++ ((codes "ustar" ++ 0 ∷ []) ++ (codes "00" ++ zeros 247)))))))

unfoldable pub header : Text → ℕ → Text
header path size =
    header_with path
      (write_checksum (replicate 8 b' ') (sum (header_with path (replicate 8 b' ') size))) size

abbrev pub padding : ℕ → ℕ
padding size = (block - size % block) % block

-- What a file adds to the archive; `read` is what `fs::read` gives.
unfoldable pub append_file : Text → Option Text → Result ArchiveError Text
unfolding header
append_file relative read = do
  fail_if (ltb 100 (length (slashes relative))) path_too_long
  bytes ← ok_or read not_readable
  ok (header (slashes relative) (length bytes) ++ (bytes ++ zeros (padding (length bytes))))

-- The loop of `pack_etaspkg` over the sorted files, and the two blocks that end the archive.
unfoldable pub pack_tar : List (Text × Option Text) → Result ArchiveError Text
unfolding append_file
pack_tar [] = ok (zeros block ++ zeros block)
pack_tar ((relative, read) ∷ files) = do
  entry ← append_file relative read
  rest ← pack_tar files
  ok (entry ++ rest)

-- Up to the first zero byte.
abbrev pub until_zero : Text → Text
until_zero [] = []
until_zero (b ∷ bs) = let rest = until_zero bs in if b == 0 then [] else b ∷ rest

unfoldable pub read_c_string : Text → Text
read_c_string bytes = from_utf8_lossy (until_zero bytes)

-- The loop of `safe_archive_path` over the components.
unfoldable pub safe_components : List Component → Result ArchiveError RelativePath
safe_components [] = ok []
safe_components (normal segment ∷ parts) =
    safe_components parts >>= λ rest. ok (normal segment ∷ rest)
safe_components (cur_dir ∷ parts) = safe_components parts
safe_components (_ ∷ parts) = err escapes_root

unfoldable pub safe_archive_path : Text → Result ArchiveError RelativePath
unfolding safe_components
safe_archive_path name = do
  fail_if (is_absolute name) absolute_path
  output ← safe_components (components name)
  fail_if (is_empty output) empty_path
  ok output

-- What unpacking does below the destination.
pub data Action : Type 0 where
  make_dirs : RelativePath → Action
  write_file : RelativePath → Text → Action

-- The actions done, in order, and how the run ends. `none` means that the fuel ran out.
pub record Unpacked : Type 0 where
  pub done : List Action
  pub result : Option (Result ArchiveError (Unit {0}))

abbrev pub stop : Option (Result ArchiveError (Unit {0})) → Unpacked
stop result = record { done = []; result = result }

abbrev pub parent : RelativePath → RelativePath
parent [] = []
parent (c ∷ []) = []
parent (c ∷ d ∷ path) = c ∷ parent (d ∷ path)

abbrev pub first_byte : Text → ℕ
first_byte [] = 0
first_byte (b ∷ bs) = b

-- `disk done action` says whether the file system carries out `action` after those `done`.
module _ (disk : List Action → Action → Bool) where
  -- `fs_call(..).map_err(..)?`, and what follows.
  unfoldable pub perform : List Action → Action → (List Action → Unpacked) → Unpacked
  perform done action next =
      let rest = next (done ++ action ∷ []) in
      if disk done action
      then record { done = action ∷ rest.done; result = rest.result }
      else stop (some (err io))

  -- A file's bytes, from `offset` on.
  unfoldable pub content : Text → ℕ → ℕ → Result ArchiveError Text
  content bytes offset size =
      if ltb u64_max (offset + size)
      then err size_overflows
      else if ltb (length bytes) (offset + size)
      then err exceeds_archive
      else ok (take size (drop offset bytes))

  unfoldable pub or_stop : {A : Type 0} → Result ArchiveError A → (A → Unpacked) → Unpacked
  or_stop (err e) next = stop (some (err e))
  or_stop (ok a) next = next a

  -- The `match` on the entry's type. `offset` is behind the header, and `next` the rest of the loop.
  unfoldable pub unpack_entry :
      (entry : ℕ)
      → Text
      → ℕ
      → ℕ
      → RelativePath
      → List Action
      → (ℕ → List Action → Unpacked)
      → Unpacked
  unfolding perform content or_stop
  unpack_entry entry bytes offset size target done next =
      if entry == 0 || entry == b'0'
      then (or_stop (content bytes offset size) λ payload.
          perform done (make_dirs (parent target)) λ done'.
            perform done' (write_file target payload)
              λ done''. next (offset + size + padding size) done'')
      else if entry == b'5'
      then (perform done (make_dirs target) λ done'. next offset done')
      else if entry == b'1' || entry == b'2'
      then stop (some (err link_not_allowed))
      else stop (some (err unsupported_type))

  -- What follows the test that a block is left, which is `head`.
  unfoldable pub unpack_block :
      Text → Text → ℕ → List Action → (ℕ → List Action → Unpacked) → Unpacked
  unfolding unpack_entry read_c_string safe_archive_path
  unpack_block head bytes offset done next =
      if all (λ b. b == 0) head
      then stop (some (ok tt))
      else (or_stop (ok_or (read_octal (take 12 (drop 124 head))) invalid_size) λ size.
          or_stop (safe_archive_path (read_c_string (take 100 head))) λ target.
            unpack_entry (first_byte (drop 156 head)) bytes (offset + block) size target done next)

  unfoldable pub unpack_tar_bytes : ℕ → Text → ℕ → List Action → Unpacked
  unfolding unpack_block
  unpack_tar_bytes zero bytes offset done = stop none
  unpack_tar_bytes (suc fuel) bytes offset done =
      if ltb (length bytes) (offset + block)
      then stop (some (err no_terminator))
      else unpack_block (take block (drop offset bytes)) bytes offset done
          (λ o d. unpack_tar_bytes fuel bytes o d)
