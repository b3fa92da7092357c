-- ===== src/Snapshot/Checks.antt =====
-- What the checks of the reader leave of its state: the visit of a path, the check of a size, and the
-- reads of one file.
use etas.Base.{ℕ, ◌+◌, ◌-◌, ◌≤◌, Text, Option, none, some}
use etas.Base.{List, [], ◌∷◌, ◌++◌, ◌≡◌, arith, length, length-append}
use etas.Base.Paths.{RelativePath}
use etas.Snapshot.{Files, System, SourceSnapshotLimits}
use etas.Snapshot.Hoare.{
  Hoare, Hoare-pure, Hoare-fail, Hoare-expect, Hoare-with_self, Hoare-fail_when, Hoare-bind,
  Hoare-and,
}
use etas.Snapshot.Reader.{Reader, checkpoint, next_check, visit, check_size, read_chunks}

module _ {E : Type 0} where
  -- The fields but for the checks.
  abbrev pub At : ℕ → ℕ → Files → List RelativePath → Reader E → Type 0
  At n t fs ps r = (r.entries ≡ n) × (r.total ≡ t) × (r.files ≡ fs) × (r.checksum_paths ≡ ps)

  module _ (n t : ℕ) (fs : Files) (ps : List RelativePath) where
    pub next_check-At :
        (checks : List (Option E)) → Hoare (At n t fs ps) (next_check checks) (λ _. At n t fs ps)
    unfolding next_check
    next_check-At [] = record { at = λ r a r' p e. ground arith }
    next_check-At (none ∷ checks) = record { at = λ r a r' p e. ground arith }
    next_check-At (some x ∷ checks) = record { at = λ r a r' p e. absurd (cc) }

    pub checkpoint-At : Hoare (At n t fs ps) checkpoint (λ _. At n t fs ps)
    unfolding checkpoint
    checkpoint-At = record { at = λ r a r' p e. (next_check-At r.checks).at r a r' p e }

module _ {E : Type 0} (sys : System) (root : Text) (limits : SourceSnapshotLimits) where
  -- A visit adds one entry, and fails past the limit.
  pub visit-At :
      (path : RelativePath) (n t : ℕ) (fs : Files) (ps : List RelativePath)
      → Hoare {E = E}
          (At n t fs ps)
          (visit sys root limits path)
          (λ _ r. At (n + 1) t fs ps r × (n + 1 ≤ limits.max_entries))
  unfolding visit
  visit-At path n t fs ps =
      Hoare-bind (λ _. At n t fs ps) checkpoint _ (checkpoint-At n t fs ps)
        λ _.
          Hoare-bind (λ k r. At n t fs ps r × (k ≡ n + 1)) _ _
            (Hoare-with_self _ (λ s p. Hoare-expect _ _ (λ k r e o. ground arith)))
            λ k.
              Hoare-bind (λ _ r. At k t fs ps r × (k ≡ n + 1)) _ _
                (record { at = λ r a r' p e. ground arith })
                λ _.
                  Hoare-bind (λ _ r. At (n + 1) t fs ps r × (n + 1 ≤ limits.max_entries)) _ _
                    (Hoare-fail_when _ _ (λ r p e. ground arith))
                    λ _. Hoare-fail_when _ _ (λ r p e. p)

  pub check_size-At :
      (size n t : ℕ) (fs : Files) (ps : List RelativePath)
      → Hoare {E = E} (At n t fs ps) (check_size sys root limits size) (λ _ r.
        At n t fs ps r × (size ≤ limits.max_file_bytes) × (size ≤ limits.max_total_bytes - t))
  unfolding check_size
  check_size-At size n t fs ps =
      Hoare-bind (λ _ r. At n t fs ps r × (size ≤ limits.max_file_bytes)) _ _
        (Hoare-fail_when _ _ (λ r p e. ground arith))
        λ _. Hoare-with_self _ λ s p. Hoare-fail_when _ _ λ r q e. ground arith

  -- What is read in the end has the size of the last check, or is what was read before.
  pub read_chunks-At :
      (relative : RelativePath) (n t : ℕ) (fs : Files) (ps : List RelativePath)
      (reads : List (Option (List ℕ))) (bytes : List ℕ)
      → length bytes ≤ limits.max_file_bytes
      → length bytes ≤ limits.max_total_bytes - t
      → Hoare {E = E} (At n t fs ps) (read_chunks sys root limits relative reads bytes) (λ bs r.
        At n t fs ps r
        × (length bs ≤ limits.max_file_bytes)
        × (length bs ≤ limits.max_total_bytes - t))
  unfolding read_chunks
  read_chunks-At relative n t fs ps [] bytes h k =
      Hoare-bind (λ _. At n t fs ps) _ _ (checkpoint-At n t fs ps)
        λ _. Hoare-pure _ λ r p. (p, h, k)
  read_chunks-At relative n t fs ps (none ∷ reads) bytes h k =
      Hoare-bind (λ _. At n t fs ps) _ _ (checkpoint-At n t fs ps) λ _. Hoare-fail _
  read_chunks-At relative n t fs ps (some [] ∷ reads) bytes h k =
      Hoare-bind (λ _. At n t fs ps) _ _ (checkpoint-At n t fs ps)
        λ _. Hoare-pure _ λ r p. (p, h, k)
  read_chunks-At relative n t fs ps (some (b ∷ bs) ∷ reads) bytes h k =
      Hoare-bind (λ _. At n t fs ps) _ _ (checkpoint-At n t fs ps)
        λ _.
          Hoare-bind (λ size r. At n t fs ps r × (size ≡ length (bytes ++ b ∷ bs))) _ _
            (Hoare-expect _ _ λ size r p e. (p, ground (arith, length-append bytes (b ∷ bs))))
            λ size.
              Hoare-bind
                (λ _ r.
                  At n t fs ps r
                  × (length (bytes ++ b ∷ bs) ≤ limits.max_file_bytes)
                  × (length (bytes ++ b ∷ bs) ≤ limits.max_total_bytes - t))
                _ _
                (record {
                  at = λ r a r' (p, q) e.
                      let c = (check_size-At size n t fs ps).at r a r' p e in ground (arith, c);
                })
                λ _. Hoare-and λ u v. read_chunks-At relative n t fs ps reads (bytes ++ b ∷ bs) u v
