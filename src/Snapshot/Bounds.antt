-- ===== src/Snapshot/Bounds.antt =====
-- The reader stays within its limits, and its loop over the directories ends.
use etas.Base.{ℕ, zero, suc, ◌+◌, ◌-◌, ◌≤◌, Text, Option, none, some, Bool, true, false}
use etas.Base.{List, [], ◌∷◌, ◌++◌, ◌≡◌, refl, arith, length, is_some}
use etas.Base.Paths.{RelativePath, normal}
use etas.Diagnostics.{Result, ok, err}
use etas.Snapshot.{
  Files, Kind, file, dir, symlink, other, Opened, System, SourceSnapshotLimits, SourceSnapshotError,
}
use etas.Snapshot.Hoare.{
  Good, Hoare, Hoare-pure, Hoare-fail, Hoare-lift, Hoare-with_self, Hoare-fail_when, Hoare-bind,
  Hoare-access, Hoare-and, Hoare-named, Hoare-weaken,
}
use etas.Snapshot.Reader.{
  lookup, Reader, checkpoint, checked_metadata, add_file, read_opened, read_regular, read_known,
  again, read_file, push_dir, read_entry, read_entries, list_dir, read_dir, read_pending,
}
use etas.Snapshot.Sizes.{
  sizes, sizes-insert, SizesAtMost, SizesAtMost-insert, Linked, Linked-append,
  is_some-lookup-insert_same, Linked-insert,
}
use etas.Snapshot.Checks.{At, checkpoint-At, visit-At, check_size-At, read_chunks-At}

abbrev pub IsWithin : {E : Type 0} → SourceSnapshotLimits → Reader E → Type 0
IsWithin limits r =
    (r.entries ≤ limits.max_entries)
    × (r.total ≤ limits.max_total_bytes)
    × (r.total ≡ sizes r.files)
    × SizesAtMost limits.max_file_bytes r.files
    × Linked r.files r.checksum_paths

module _ {E : Type 0} (sys : System) (root : Text) (limits : SourceSnapshotLimits) where
  abbrev pub Grown : ℕ → Reader E → Type 0
  Grown n r = IsWithin limits r × (n ≤ r.entries)

  -- What does not depend on the accesses holds after a look at the metadata.
  checked_metadata-Kept :
      (P : Reader E → Type 0) (relative : RelativePath)
      → ((r : Reader E) (n : ℕ) → P r → P (record r { accesses = n }))
      → Hoare {E = E} P (checked_metadata sys root limits relative) (λ _. P)
  unfolding checked_metadata
  checked_metadata-Kept P relative h =
      Hoare-bind (λ _. P) _ _ (Hoare-access _ λ r p. h r _ p) λ now. Hoare-lift _ λ a r p e. p

  abbrev pub Added : ℕ → RelativePath → Reader E → Type 0
  Added n relative r = Grown n r × (is_some (lookup relative r.files) ≡ true)

  module _ (relative : RelativePath) (n t : ℕ) (fs : Files) (ps : List RelativePath)
      (within : n ≤ limits.max_entries) (room : t ≤ limits.max_total_bytes) (total : t ≡ sizes fs)
      (small : SizesAtMost limits.max_file_bytes fs) (known : Linked fs ps) where
    add_file-Grown :
        (bytes : List ℕ)
        → lookup relative fs ≡ none
        → length bytes ≤ limits.max_file_bytes
        → length bytes ≤ limits.max_total_bytes - t
        → Hoare {E = E}
            (At n t fs ps)
            (add_file sys root limits relative bytes)
            (λ _. Added n relative)
    unfolding add_file
    add_file-Grown bytes new h k = record {
      at = λ r a r' (p, q, w, z) e. ground (
        arith,
        sizes-insert relative bytes fs new,
        SizesAtMost-insert limits.max_file_bytes relative bytes fs h small,
        is_some-lookup-insert_same relative bytes fs,
        Linked-insert relative bytes fs ps known,
      );
    }

    read_regular-Grown :
        (reads : List (Option (List ℕ))) (is_file : Option Bool)
        → lookup relative fs ≡ none
        → Hoare {E = E}
            (At n t fs ps)
            (read_regular sys root limits relative reads is_file)
            (λ _. Added n relative)
    unfolding read_regular
    read_regular-Grown reads none new = Hoare-fail _
    read_regular-Grown reads (some false) new = Hoare-fail _
    read_regular-Grown reads (some true) new =
        Hoare-bind _ _ _
          (read_chunks-At sys root limits relative n t fs ps reads [] (omega arith) (omega arith))
          λ bytes. Hoare-and λ h k. add_file-Grown bytes new h k

    read_opened-Grown :
        (opened : Option Opened)
        → lookup relative fs ≡ none
        → Hoare {E = E}
            (At n t fs ps)
            (read_opened sys root limits relative opened)
            (λ _. Added n relative)
    unfolding read_opened
    read_opened-Grown none new = Hoare-fail _
    read_opened-Grown (some opened) new = read_regular-Grown opened.reads opened.is_file new

    read_known-Grown :
        (len : ℕ) (known : Option (List ℕ))
        → lookup relative fs ≡ known
        → Hoare {E = E}
            (At n t fs ps)
            (read_known sys root limits len relative known)
            (λ _. Added n relative)
    unfolding read_known again
    read_known-Grown len (some bytes) e = record {
      at = λ r a r' p k. ground (arith, Linked-append fs ps relative known (cc));
    }
    read_known-Grown len none e =
        Hoare-bind _ _ _ (check_size-At sys root limits len n t fs ps) λ _. Hoare-and λ h k.
          Hoare-bind (λ _. At n t fs ps) _ _ (Hoare-access 1 λ r p. p)
            λ now. read_opened-Grown (sys.open_regular now relative) e

  pub read_file-Grown :
      (relative : RelativePath) (n : ℕ)
      → Hoare {E = E} (Grown n) (read_file sys root limits relative) (λ _. Added n relative)
  unfolding read_file
  read_file-Grown relative n = Hoare-named λ s ((_, room, total, small, known), grown).
      Hoare-weaken (At s.entries s.total s.files s.checksum_paths) (λ r e. ground arith)
        (Hoare-bind _ _ _
          (visit-At sys root limits relative s.entries s.total s.files s.checksum_paths)
          λ _.
            Hoare-bind
              (λ _ r.
                At (s.entries + 1) s.total s.files s.checksum_paths r
                × (s.entries + 1 ≤ limits.max_entries))
              _ _ (checked_metadata-Kept _ relative (λ r k p. p))
              λ metadata.
                Hoare-bind
                  (λ _ r.
                    At (s.entries + 1) s.total s.files s.checksum_paths r
                    × (s.entries + 1 ≤ limits.max_entries))
                  _ _ (Hoare-fail_when _ _ λ r p e. p)
                  λ _. Hoare-with_self _ λ u (p, q). record {
                    at = λ r a r' e k.
                        let g =
                          (read_known-Grown relative (s.entries + 1) s.total s.files
                              s.checksum_paths q room total small known metadata.len
                              (lookup relative u.files) (ground arith)).at
                            r a r' (ground arith) k in
                        ground (arith, g);
                  })

  read_entry-Grown :
      (kind : Kind) (child : RelativePath) (pending : List RelativePath) (n : ℕ)
      → Hoare {E = E} (Grown n) (read_entry sys root limits kind child pending) (λ _. Grown n)
  unfolding read_entry push_dir
  read_entry-Grown dir child pending n = record { at = λ r a r' p e. ground arith }
  read_entry-Grown file child pending n =
      Hoare-bind _ _ _ (read_file-Grown child n) λ _. Hoare-pure _ λ r (p, q). p
  read_entry-Grown symlink child pending n = Hoare-fail _
  read_entry-Grown other child pending n = Hoare-fail _

  pub checkpoint-Grown : (n : ℕ) → Hoare {E = E} (Grown n) checkpoint (λ _. Grown n)
  checkpoint-Grown n = Hoare-named λ s (p, q).
      Hoare-weaken (At s.entries s.total s.files s.checksum_paths) (λ r e. ground arith)
        (record {
          at = λ r a r' e k.
              let c = (checkpoint-At s.entries s.total s.files s.checksum_paths).at r a r' e k in
              ground (arith, c);
        })

  read_entries-Grown :
      (relative : RelativePath) (names : List (Option Text)) (pending : List RelativePath) (n : ℕ)
      → Hoare {E = E} (Grown n) (read_entries sys root limits relative names pending) (λ _. Grown n)
  unfolding read_entries
  read_entries-Grown relative [] pending n = Hoare-pure _ λ r p. p
  read_entries-Grown relative (none ∷ names) pending n =
      Hoare-bind _ _ _ (checkpoint-Grown n) λ _. Hoare-fail _
  read_entries-Grown relative (some name ∷ names) pending n =
      Hoare-bind _ _ _ (checkpoint-Grown n) λ _.
        Hoare-bind (λ _. Grown n) _ _ (checked_metadata-Kept _ _ (λ r k p. p))
          λ metadata.
            Hoare-bind _ _ _
              (read_entry-Grown metadata.kind (relative ++ normal name ∷ []) pending n)
              λ pending'. read_entries-Grown relative names pending' n

  -- A round sees one entry at least.
  read_dir-Grown :
      (relative : RelativePath) (pending : List RelativePath) (n : ℕ)
      → Hoare {E = E} (Grown n) (read_dir sys root limits relative pending) (λ _. Grown (n + 1))
  unfolding read_dir list_dir
  read_dir-Grown relative pending n = Hoare-named λ s ((_, room, total, small, known), grown).
      Hoare-weaken (At s.entries s.total s.files s.checksum_paths) (λ r e. ground arith)
        (Hoare-bind (λ _. Grown (n + 1)) _ _
          (record {
            at = λ r a r' p e.
                let v =
                  (visit-At sys root limits relative s.entries s.total s.files s.checksum_paths).at
                    r a r' p e in
                ground (arith, v);
          })
          λ _.
            Hoare-bind (λ _. Grown (n + 1)) _ _ (checked_metadata-Kept _ _ (λ r k p. p))
              λ metadata.
                Hoare-bind (λ _. Grown (n + 1)) _ _ (Hoare-fail_when _ _ λ r p e. p)
                  λ _.
                    Hoare-bind (λ _. Grown (n + 1)) _ _ (Hoare-access 1 λ r p. p)
                      λ now.
                        Hoare-bind (λ _. Grown (n + 1)) _ _ (listed (sys.read_dir now relative))
                          λ names. read_entries-Grown relative names pending (n + 1))
    where
      listed :
          (names : Option (List (Option Text)))
          → Hoare {E = E}
              (Grown (n + 1))
              (list_dir sys root limits relative names)
              (λ _. Grown (n + 1))
      listed none = Hoare-fail _
      listed (some names) = Hoare-pure _ λ r p. p

  round-Good :
      (fuel n : ℕ) (res : Result (SourceSnapshotError E) (List RelativePath × Reader E))
      → ((a : List RelativePath) (r' : Reader E) → res ≡ ok (a, r') → Grown n r')
      → ((a : List RelativePath) (r' : Reader E)
          → Grown n r'
          → Good (IsWithin limits) (read_pending sys root limits fuel a r'))
      → Good (IsWithin limits) (elim res [
        | err e ↦ some (err e)
        | ok (pending', r') ↦ read_pending sys root limits fuel pending' r'
      ])
  round-Good fuel n (err e) g k = tt
  round-Good fuel n (ok (pending', r')) g k = k pending' r' (g pending' r' refl)

  pub read_pending-Good :
      (fuel : ℕ) (pending : List RelativePath) (r : Reader E)
      → IsWithin limits r
      → limits.max_entries + 1 ≤ fuel + r.entries
      → Good (IsWithin limits) (read_pending sys root limits fuel pending r)
  unfolding read_pending
  read_pending-Good fuel [] r w h = w
  read_pending-Good zero (relative ∷ pending) r w h = ground (arith, w)
  read_pending-Good (suc fuel) (relative ∷ pending) r w h =
      round-Good fuel (r.entries + 1) (read_dir sys root limits relative pending r)
        (λ a r' e. (read_dir-Grown relative pending r.entries).at r a r' (w, omega arith) e)
        λ a r' (w', q). read_pending-Good fuel a r' w' (omega arith)
