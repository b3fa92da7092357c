-- ===== src/Archive/RoundTrip.antt =====
-- What is packed is what is unpacked.
use etas.Base.{ℕ, zero, suc, ◌+◌, ◌≤◌, Text, some, false, ltb}
use etas.Base.{
  List, [], ◌∷◌, ◌++◌, ◌≡◌, refl, sym, ap, ◌∙◌, arith, All, length, take, drop, length-append,
  length-replicate,
}
use etas.Base.{drop-length_append, take-length_append}
use mathlib.Core.List.{append_assoc}
use etas.Diagnostics.{ok}
use etas.Archive.Octal.{u64_max}
use etas.Archive.Tar.{
  Action, make_dirs, write_file, Unpacked, stop, parent, content, block, padding, zeros, slashes,
  header, append_file, pack_tar, unpack_block, unpack_tar_bytes,
}
use etas.Archive.Blocks.{take_exact}
use etas.Archive.Entry.{
  Packed, IsReady, files, writes, steps, steps-writes, AllReady, IsPackable, always, length-header,
  unpack_block-header,
}

content-exact :
    (pre payload post bytes : Text) (offset : ℕ)
    → bytes ≡ pre ++ (payload ++ post)
    → offset ≡ length pre
    → length bytes ≤ u64_max
    → content always bytes offset (length payload) ≡ ok payload
unfolding content
content-exact pre payload post bytes offset e o h =
    let n : length bytes ≡ length pre + (length payload + length post) =
      ap length e
      ∙ length-append pre (payload ++ post)
      ∙ ap (λ k. length pre + k) (length-append payload post) in
    let cut : take (length payload) (drop offset bytes) ≡ payload =
      ap (λ b. take (length payload) (drop offset b)) e
      ∙ ap (λ k. take (length payload) (drop k (pre ++ (payload ++ post)))) o
      ∙ ap (take (length payload)) (drop-length_append pre (payload ++ post))
      ∙ take-length_append payload post in
    ground (arith, n, cut, o)

-- The bytes of one packed file.
abbrev pub entry : Packed → Text
entry p =
    header (slashes p.relative) (length p.payload)
    ++ (p.payload ++ zeros (padding (length p.payload)))

abbrev pub archive : List Packed → Text
archive [] = zeros block ++ zeros block
archive (p ∷ ps) = entry p ++ archive ps

pack_tar-archive : (ps : List Packed) → All IsReady ps → pack_tar (files ps) ≡ ok (archive ps)
unfolding pack_tar append_file
pack_tar-archive [] h = refl
pack_tar-archive (p ∷ ps) (good, goods) =
    let fits : ltb 100 (length (slashes p.relative)) ≡ false = ground (arith, good.short) in
    rw fits (rw (pack_tar-archive ps goods) refl)

pub length-entry :
    (p : Packed) → length (entry p) ≡ block + (length p.payload + padding (length p.payload))
length-entry p =
    length-append (header (slashes p.relative) (length p.payload))
      (p.payload ++ zeros (padding (length p.payload)))
    ∙ ap (λ n. n + length (p.payload ++ zeros (padding (length p.payload))))
        (length-header (slashes p.relative) (length p.payload))
    ∙ ap (λ n. block + n)
        (length-append p.payload (zeros (padding (length p.payload)))
          ∙ ap (λ n. length p.payload + n) (length-replicate (padding (length p.payload)) 0))

entry_parts :
    (p : Packed) (after : Text)
    → entry p ++ after
      ≡ header (slashes p.relative) (length p.payload)
        ++ (p.payload ++ (zeros (padding (length p.payload)) ++ after))
entry_parts p after =
    append_assoc (header (slashes p.relative) (length p.payload))
      (p.payload ++ zeros (padding (length p.payload))) after
    ∙ ap (λ t. header (slashes p.relative) (length p.payload) ++ t)
        (append_assoc p.payload (zeros (padding (length p.payload))) after)

-- Where the archive still to be read begins.
module _ (pre left bytes : Text) (offset : ℕ) (e : bytes ≡ pre ++ left)
    (o : offset ≡ length pre) where
  drop_lem : drop offset bytes ≡ left
  drop_lem = ap (drop offset) e ∙ ap (λ k. drop k (pre ++ left)) o ∙ drop-length_append pre left

  length_lem : length bytes ≡ offset + length left
  length_lem = ap length e ∙ length-append pre left ∙ ap (λ k. k + length left) (sym o)

  enter_lem :
      (head after : Text) (fuel : ℕ) (done : List Action)
      → left ≡ head ++ after
      → length head ≡ block
      → unpack_tar_bytes always (suc fuel) bytes offset done
        ≡ unpack_block always head bytes offset done
            (λ o' d. unpack_tar_bytes always fuel bytes o' d)
  unfolding unpack_tar_bytes
  enter_lem head after fuel done l n =
      let room : ltb (length bytes) (offset + block) ≡ false =
        ground (arith, length_lem, ap length l, length-append head after, n) in
      rw room (
        ap
          (λ h.
            unpack_block always h bytes offset done
              (λ o' d. unpack_tar_bytes always fuel bytes o' d))
          (ap (take block) (drop_lem ∙ l) ∙ take_exact head after n))

zero_block :
    (bytes : Text) (offset : ℕ) (done : List Action) (next : ℕ → List Action → Unpacked)
    → unpack_block always (zeros block) bytes offset done next ≡ stop (some (ok tt))
unfolding unpack_block
zero_block bytes offset done next = refl

loop_lem :
    (ps : List Packed) (pre bytes : Text) (offset fuel : ℕ) (done : List Action)
    → All IsReady ps
    → bytes ≡ pre ++ archive ps
    → offset ≡ length pre
    → length bytes ≤ u64_max
    → length (archive ps) ≤ fuel
    → unpack_tar_bytes always fuel bytes offset done
      ≡ record { done = steps ps; result = some (ok tt) }
loop_lem [] pre bytes offset zero done h e o m f = absurd (omega (arith, f))
loop_lem [] pre bytes offset (suc fuel) done h e o m f =
    enter_lem pre (archive []) bytes offset e o (zeros block) (zeros block) fuel done refl refl
    ∙ zero_block bytes offset done _
loop_lem (p ∷ ps) pre bytes offset zero done h e o m f =
    absurd (omega (arith, f, length-append (entry p) (archive ps), length-entry p))
loop_lem (p ∷ ps) pre bytes offset (suc fuel) done (good, goods) e o m f =
    let head = header (slashes p.relative) (length p.payload) in
    let pad = zeros (padding (length p.payload)) in
    let after = p.payload ++ (pad ++ archive ps) in
    let whole : bytes ≡ (pre ++ head) ++ after =
      e ∙ ap (λ t. pre ++ t) (entry_parts p (archive ps)) ∙ sym (append_assoc pre head after) in
    let at : offset + block ≡ length (pre ++ head) =
      omega
        (arith, o, length-append pre head, length-header (slashes p.relative) (length p.payload)) in
    enter_lem pre (archive (p ∷ ps)) bytes offset e o head after fuel done
      (entry_parts p (archive ps)) (length-header (slashes p.relative) (length p.payload))
    ∙ unpack_block-header (λ o' d. unpack_tar_bytes always fuel bytes o' d) p bytes offset done good
        (content-exact (pre ++ head) p.payload (pad ++ archive ps) bytes (offset + block) whole at
          m)
    ∙ ap
        (λ (u : Unpacked). record {
          done = make_dirs (parent p.target) ∷ write_file p.target p.payload ∷ u.done;
          result = u.result;
        })
        (loop_lem ps (pre ++ entry p) bytes _ fuel _ goods
          (e ∙ sym (append_assoc pre (entry p) (archive ps)))
          (omega (arith, o, length-append pre (entry p), length-entry p)) m
          (omega (arith, f, length-append (entry p) (archive ps), length-entry p)))

-- Files whose names are segments joined by slashes, none of them empty, `.` or `..` or with a slash or
-- backslash of its own, and fit a header, and whose sizes have eleven octal digits at most, are packed
-- without an error. If the archive has no more bytes than a `u64` counts, unpacking it on a disk that
-- refuses nothing ends without an error, and writes just these files, in order, each at the path of its
-- segments, with its bytes and after the directory that it is in.
pub unpack_tar_bytes-pack_tar :
    (ps : List Packed)
    → All IsPackable ps
    → length (archive ps) ≤ u64_max
    → (pack_tar (files ps) ≡ ok (archive ps))
      × (unpack_tar_bytes always (suc (length (archive ps))) (archive ps) 0 []
          ≡ record { done = writes ps; result = some (ok tt) })
unpack_tar_bytes-pack_tar ps good m =
    let ready = AllReady ps good in
    (
      pack_tar-archive ps ready,
      loop_lem ps [] (archive ps) 0 (suc (length (archive ps))) [] ready refl refl m (omega arith)
          ∙ ap (λ actions. record { done = actions; result = some (ok tt) }) (steps-writes ps),
    )
