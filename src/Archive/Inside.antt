-- ===== src/Archive/Inside.antt =====
-- Unpacking ends, and stays below the destination.
use etas.Base.{
  ℕ, zero, suc, ◌+◌, ◌≤◌, Text, none, some, Bool, true, false, ◌==◌, ◌||◌, ltb, all, is_empty,
}
use etas.Base.{List, [], ◌∷◌, ◌++◌, ◌≡◌, ◌≢◌, refl, arith, All, length, if◌then◌else◌, take, drop}
use mathlib.Core.Path.{subst}
use etas.Base.Paths.{
  Component, RelativePath, IsNormal, normal, cur_dir, root_dir, parent_dir, components,
}
use etas.Diagnostics.{Result, ok, err, ◌>>=◌, ◌>>◌, fail_if}
use etas.Manifest.Validate.{is_absolute}
use etas.Archive.Tar.{
  ArchiveError, absolute_path, empty_path, no_terminator, Action, make_dirs, write_file, Unpacked,
  stop, parent, perform, content, or_stop, block, padding, safe_components, safe_archive_path,
  unpack_entry, unpack_block, unpack_tar_bytes, first_byte, read_c_string,
}

-- Directories and files below the destination; a file is not the destination itself.
abbrev pub IsInside : Action → Type 0
IsInside (make_dirs path) = IsNormal path
IsInside (write_file path bytes) = IsNormal path × (path ≢ [])

abbrev pub IsSafe : Unpacked → Type 0
IsSafe u = All IsInside u.done × (u.result ≢ none)

abbrev IsTarget : Result ArchiveError RelativePath → Type 0
IsTarget (ok path) = IsNormal path
IsTarget (err e) = Unit

cons_lem :
    (t : Text) (r : Result ArchiveError RelativePath)
    → IsTarget r
    → IsTarget (r >>= λ rest. ok (normal t ∷ rest))
cons_lem t (ok rest) h = h
cons_lem t (err e) h = tt

safe_components-IsNormal : (parts : List Component) → IsTarget (safe_components parts)
unfolding safe_components
safe_components-IsNormal [] = tt
safe_components-IsNormal (normal t ∷ parts) =
    cons_lem t (safe_components parts) (safe_components-IsNormal parts)
safe_components-IsNormal (cur_dir ∷ parts) = safe_components-IsNormal parts
safe_components-IsNormal (root_dir ∷ parts) = tt
safe_components-IsNormal (parent_dir ∷ parts) = tt

accepted_lem :
    (absolute : Bool) (r : Result ArchiveError RelativePath) (path : RelativePath)
    → IsTarget r
    → (fail_if absolute absolute_path
        >> (r >>= λ output. fail_if (is_empty output) empty_path >> ok output))
      ≡ ok path
    → IsNormal path × (path ≢ [])
accepted_lem true r path h e = absurd (cc)
accepted_lem false (err x) path h e = absurd (cc)
accepted_lem false (ok []) path h e = absurd (cc)
accepted_lem false (ok (c ∷ cs)) path h e = (subst IsTarget e h, λ k. absurd (cc))

pub safe_archive_path-IsNormal :
    (name : Text) (path : RelativePath)
    → safe_archive_path name ≡ ok path
    → IsNormal path × (path ≢ [])
unfolding safe_archive_path
safe_archive_path-IsNormal name path e =
    accepted_lem (is_absolute name) (safe_components (components name)) path
      (safe_components-IsNormal (components name)) e

parent-IsNormal : (path : RelativePath) → IsNormal path → IsNormal (parent path)
parent-IsNormal [] h = tt
parent-IsNormal (normal t ∷ []) h = tt
parent-IsNormal (normal t ∷ d ∷ path) h = parent-IsNormal (d ∷ path) h
parent-IsNormal (root_dir ∷ _) h = elim h [ ]
parent-IsNormal (cur_dir ∷ _) h = elim h [ ]
parent-IsNormal (parent_dir ∷ _) h = elim h [ ]

stop-IsSafe : (r : Result ArchiveError (Unit {0})) → IsSafe (stop (some r))
stop-IsSafe r = (tt, λ e. absurd (cc))

or_stop-IsSafe :
    (disk : List Action → Action → Bool) {A : Type 0} (m : Result ArchiveError A)
    (next : A → Unpacked)
    → ((a : A) → m ≡ ok a → IsSafe (next a))
    → IsSafe (or_stop disk m next)
unfolding or_stop
or_stop-IsSafe disk (err e) next h = stop-IsSafe (err e)
or_stop-IsSafe disk (ok a) next h = h a refl

if-IsSafe : (test : Bool) (u v : Unpacked) → IsSafe u → IsSafe v → IsSafe (if test then u else v)
if-IsSafe true u v hu hv = hu
if-IsSafe false u v hu hv = hv

module _ (disk : List Action → Action → Bool) where
  perform-IsSafe :
      (done : List Action) (action : Action) (next : List Action → Unpacked)
      → IsInside action
      → ((d : List Action) → IsSafe (next d))
      → IsSafe (perform disk done action next)
  unfolding perform
  perform-IsSafe done action next h k =
      if-IsSafe (disk done action) _ _
        ((h, (k (done ++ action ∷ [])).0), (k (done ++ action ∷ [])).1) (stop-IsSafe _)

  unpack_entry-IsSafe :
      (entry : ℕ) (bytes : Text) (offset size : ℕ) (target : RelativePath) (done : List Action)
      (next : ℕ → List Action → Unpacked)
      → IsNormal target × (target ≢ [])
      → ((o : ℕ) (d : List Action) → offset ≤ o → IsSafe (next o d))
      → IsSafe (unpack_entry disk entry bytes offset size target done next)
  unfolding unpack_entry
  unpack_entry-IsSafe entry bytes offset size target done next t h =
      if-IsSafe (entry == 0 || entry == b'0') _ _
        (or_stop-IsSafe disk (content disk bytes offset size) _ λ payload _.
          perform-IsSafe done _ _ (parent-IsNormal target t.0) λ d.
            perform-IsSafe d (write_file target payload) _ t
              λ d'. h (offset + size + padding size) d' (omega arith))
        (if-IsSafe (entry == b'5') _ _ (perform-IsSafe done _ _ t.0 λ d. h offset d (omega arith))
          (if-IsSafe (entry == b'1' || entry == b'2') _ _ (stop-IsSafe _) (stop-IsSafe _)))

  unpack_block-IsSafe :
      (head bytes : Text) (offset : ℕ) (done : List Action) (next : ℕ → List Action → Unpacked)
      → ((o : ℕ) (d : List Action) → offset + block ≤ o → IsSafe (next o d))
      → IsSafe (unpack_block disk head bytes offset done next)
  unfolding unpack_block
  unpack_block-IsSafe head bytes offset done next h =
      if-IsSafe (all (λ b. b == 0) head) _ _ (stop-IsSafe _) (
        or_stop-IsSafe disk _ _ λ size _.
          or_stop-IsSafe disk (safe_archive_path (read_c_string (take 100 head))) _ λ target e.
            unpack_entry-IsSafe (first_byte (drop 156 head)) bytes (offset + block) size target done
              next (safe_archive_path-IsNormal (read_c_string (take 100 head)) target e) h)

  loop-IsSafe :
      (fuel : ℕ) (bytes : Text) (offset : ℕ) (done : List Action)
      → length bytes ≤ offset + fuel
      → IsSafe (unpack_tar_bytes disk (suc fuel) bytes offset done)
  unfolding unpack_tar_bytes
  loop-IsSafe zero bytes offset done h =
      let ends : ltb (length bytes) (offset + block) ≡ true = ground arith in
      rw (ends, unpack_tar_bytes) (stop-IsSafe (err no_terminator))
  loop-IsSafe (suc fuel) bytes offset done h =
      if-IsSafe (ltb (length bytes) (offset + block)) _ _ (stop-IsSafe _) (
        unpack_block-IsSafe (take block (drop offset bytes)) bytes offset done _
          λ o d g. loop-IsSafe fuel bytes o d (omega arith))

  -- Whatever bytes an archive has and whatever the file system refuses, unpacking ends, and every
  -- directory and file that it makes is below the destination: no component is `..` or a root.
  pub unpack_tar_bytes-IsSafe :
      (bytes : Text) → IsSafe (unpack_tar_bytes disk (suc (length bytes)) bytes 0 [])
  unpack_tar_bytes-IsSafe bytes = loop-IsSafe (length bytes) bytes 0 [] (omega arith)
