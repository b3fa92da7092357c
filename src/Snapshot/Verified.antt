-- ===== src/Snapshot/Verified.antt =====
-- What a snapshot of a locked package's sources satisfies.
use etas.Base.{ℕ, ◌+◌, ◌≤◌, Text, codes, Option}
use etas.Base.{List, [], ◌∷◌, ◌++◌, ◌≡◌, refl, sym, arith, same_text_iff}
use mathlib.Core.Path.{subst, ◌∙◌, ap}
use etas.Base.Paths.{IsNormal, RelativePath, components}
use etas.Diagnostics.{Result, ok, err, PackageError}
use etas.Semver.{Semver}
use etas.Manifest.Schema.{Manifest}
use etas.Manifest.Validate.{validate}
use etas.Snapshot.{
  Stat, missing, failed, found, System, SourceSnapshotLimits, SourceSnapshotError,
  LockedPackageSourceSnapshot,
}
use etas.Snapshot.Hoare.{
  Hoare-access, Good, Hoare, Hoare-pure, Hoare-fail, Hoare-expect, Hoare-lift, Hoare-fail_when,
  Hoare-bind,
}
use etas.Snapshot.Reader.{Reader, checkpoint, lookup, read_file, read_sources}
use etas.Snapshot.Bounds.{IsWithin, Grown, read_file-Grown, read_pending-Good, checkpoint-Grown}
use etas.Snapshot.Sizes.{sizes, SizesAtMost, Known, Covered, Linked}
use etas.Snapshot.Locked.{
  sort, manifest_path, metadata_paths, manifest_at, checked, load_manifest, read_metadata,
  read_metadata_files, hash_paths, finish, new_reader, read_payload, read_locked_package_sources,
}
use etas.Snapshot.Hashing.{checkpoint-same, Hashed, hash_paths-Good}
use etas.Snapshot.Payload.{
  Good-and_then, Good-index, Good-run, Known-sort, Covered-sort, IsOrdered, sort-IsOrdered,
  source_root_from-IsNormal, payload,
}

-- What a snapshot promises: it is the payload that the lock names, all of it below the package root,
-- and no larger than the limits.
pub record IsVerified (sys : System) (semver : Semver) (limits : SourceSnapshotLimits)
    (expected : Text) (s : LockedPackageSourceSnapshot) : Type 0 where
  pub entries_bound : s.entries ≤ limits.max_entries
  pub bytes_bound : s.payload_bytes ≤ limits.max_total_bytes
  pub bytes_exact : s.payload_bytes ≡ sizes s.files
  pub file_bound : SizesAtMost limits.max_file_bytes s.files
  pub manifest_valid : validate semver (s.package_root ++ codes "/etas.toml") s.manifest ≡ ok tt
  pub source_inside : IsNormal s.source_root
  pub checksum_exact : s.checksum ≡ expected
  pub hashed : List RelativePath
  pub hashed_known : Known s.files hashed
  pub hashed_all : Covered s.files hashed
  pub hashed_ordered : IsOrdered hashed
  pub hashed_exact : s.checksum ≡ codes "blake3:" ++ sys.blake3 (payload s.files hashed)

-- The manifest that is loaded is valid, and its source root is below the package root.
abbrev IsLoaded : Semver → Text → Manifest × RelativePath → Type 0
IsLoaded semver root (manifest, source_root) =
    (validate semver (manifest_at root) manifest ≡ ok tt) × IsNormal source_root

checked-ok :
    {E : Type 0} (res : Result PackageError (Unit {0})) → checked {E = E} res ≡ ok tt → res ≡ ok tt
checked-ok (ok a) e = refl
checked-ok (err e') e = absurd (cc)

module _ {E : Type 0} (sys : System) (semver : Semver) (root : Text)
    (limits : SourceSnapshotLimits) where
  read_metadata-Grown :
      (relative : RelativePath) (stat : Stat)
      → Hoare {E = E}
          (Grown sys root limits 0)
          (read_metadata sys semver root limits relative stat)
          (λ _. Grown sys root limits 0)
  unfolding read_metadata
  read_metadata-Grown relative missing = Hoare-pure _ λ r p. p
  read_metadata-Grown relative failed = Hoare-fail _
  read_metadata-Grown relative (found m) = record {
    at = λ r a r' p e. ((read_file-Grown sys root limits relative 0).at r a r' p e).0;
  }

  read_metadata_files-Grown :
      (paths : List RelativePath)
      → Hoare {E = E}
          (Grown sys root limits 0)
          (read_metadata_files sys semver root limits paths)
          (λ _. Grown sys root limits 0)
  unfolding read_metadata_files
  read_metadata_files-Grown [] = Hoare-pure _ λ r p. p
  read_metadata_files-Grown (path ∷ paths) =
      Hoare-bind (λ _. Grown sys root limits 0) _ _ (Hoare-access 1 λ r p. p)
        λ now.
          Hoare-bind _ _ _ (read_metadata-Grown path (sys.symlink_metadata now path))
            λ _. read_metadata_files-Grown paths

  load_manifest-Grown :
      (text : List ℕ)
      → Hoare {E = E}
          (Grown sys root limits 0)
          (load_manifest sys semver root limits text)
          (λ loaded r. IsLoaded semver root loaded × Grown sys root limits 0 r)
  unfolding load_manifest
  load_manifest-Grown text =
      Hoare-bind (λ _. Grown sys root limits 0) _ _ (Hoare-fail_when _ _ λ r p e. p)
        λ _.
          Hoare-bind (λ _. Grown sys root limits 0) _ _ (Hoare-expect _ _ λ m r p e. p)
            λ manifest.
              Hoare-bind
                (λ _ r.
                  (validate semver (manifest_at root) manifest ≡ ok tt) × Grown sys root limits 0 r)
                _ _ (Hoare-lift _ λ a r p e. (checked-ok _ e, p))
                λ _.
                  Hoare-bind
                    (λ source_root r.
                      IsLoaded semver root (manifest, source_root) × Grown sys root limits 0 r)
                    _ _
                    (Hoare-lift _ λ source_root r (v, p) e. (
                      (
                        v,
                        source_root_from-IsNormal {E = E} (components manifest.source.root)
                            (components manifest.source.root) [] source_root tt e,
                      ),
                      p,
                    ))
                    λ source_root. Hoare-pure _ λ r p. p

  abbrev VerifiedResult :
      Text → Result (SourceSnapshotError E) (LockedPackageSourceSnapshot × Reader E) → Type 0
  VerifiedResult expected (err e) = Unit
  VerifiedResult expected (ok (s, r)) = IsVerified sys semver limits expected s

  finish-IsVerified :
      (expected : Text) (manifest : Manifest) (source_root : RelativePath) (hashed : List ℕ)
      (paths : List RelativePath) (r0 : Reader E)
      → Grown sys root limits 0 r0
      → IsLoaded semver root (manifest, source_root)
      → Linked r0.files paths
      → IsOrdered paths
      → Hoare {E = E}
          (λ r. Hashed r0.files r0.entries r0.total (payload r0.files paths) (hashed, r))
          (finish sys semver root limits expected manifest source_root hashed)
          (λ s _. IsVerified sys semver limits expected s)
  unfolding finish
  finish-IsVerified expected manifest source_root hashed paths r0 ((en, tot, ex, small, _), _)
        (v, inside) linked ordered =
      Hoare-bind
        (λ _ r.
          Hashed r0.files r0.entries r0.total (payload r0.files paths) (hashed, r)
          × (codes "blake3:" ++ sys.blake3 hashed ≡ expected))
        _ _
        (Hoare-fail_when _ _
          λ r p t. ground (arith, same_text_iff (codes "blake3:" ++ sys.blake3 hashed) expected))
        λ _.
          Hoare-bind
            (λ _ r.
              Hashed r0.files r0.entries r0.total (payload r0.files paths) (hashed, r)
              × (codes "blake3:" ++ sys.blake3 hashed ≡ expected))
            _ _
            (record {
              at = λ r _ r' ((eh, ef, ee, et), c) k.
                  let (cf, ce, ct) = checkpoint-same r r' k in ((eh, cf ∙ ef, ce ∙ ee, ct ∙ et), c);
            })
            λ _. record {
              at = λ r s r' ((eh, ef, ee, et), c) k. subst (VerifiedResult expected) k (record {
                entries_bound = rw ee en;
                bytes_bound = rw et tot;
                bytes_exact = et ∙ ex ∙ ap sizes (sym ef);
                file_bound = subst (SizesAtMost limits.max_file_bytes) (sym ef) small;
                manifest_valid = v;
                source_inside = inside;
                checksum_exact = c;
                hashed = paths;
                hashed_known = subst (λ fs. Known fs paths) (sym ef) linked.0;
                hashed_all = subst (λ fs. Covered fs paths) (sym ef) linked.1;
                hashed_ordered = ordered;
                hashed_exact =
                    ap (λ b. codes "blake3:" ++ sys.blake3 b)
                      (eh ∙ ap (λ fs. payload fs paths) (sym ef));
              });
            }

  read_payload-Good :
      (expected : Text) (r : Reader E)
      → Grown sys root limits 0 r
      → Good
          (IsVerified sys semver limits expected)
          (read_payload sys semver root limits expected r)
  unfolding read_payload read_sources
  read_payload-Good expected r g =
      Good-and_then _ (read_file sys root limits manifest_path r) _ λ (_, r1) e1.
        let (g1, m1) = (read_file-Grown sys root limits manifest_path 0).at r _ r1 g e1 in
        Good-index _ (lookup manifest_path r1.files) _ m1 λ text _.
          Good-and_then _ (load_manifest sys semver root limits text r1) _
            λ ((manifest, source_root), r2) e2.
              let (l2, g2) = (load_manifest-Grown text).at r1 _ r2 g1 e2 in
              Good-and_then _ (read_metadata_files sys semver root limits metadata_paths r2) _
                λ (_, r3) e3.
                  let g3 = (read_metadata_files-Grown metadata_paths).at r2 _ r3 g2 e3 in
                  Good-run _ (IsWithin limits) (read_sources sys root limits source_root r3) _
                    (read_pending-Good sys root limits (limits.max_entries + 1) (source_root ∷ [])
                      r3 g3.0 (omega arith))
                    λ r4 w4.
                      Good-run _
                        (Hashed r4.files r4.entries r4.total
                          (payload r4.files (sort r4.checksum_paths)))
                        (hash_paths (sort r4.checksum_paths) [] r4) _
                        (hash_paths-Good _ _ _ _ [] r4 (Known-sort _ _ w4.4.0) (refl, refl, refl))
                        λ (bytes, r5) h5.
                          Good-and_then _
                            (finish sys semver root limits expected manifest source_root bytes r5) _
                            λ (s, r6) e6.
                              (finish-IsVerified expected manifest source_root bytes
                                  (sort r4.checksum_paths) r4 (w4, omega arith) l2
                                  (Known-sort _ _ w4.4.0, Covered-sort _ _ w4.4.1)
                                  (sort-IsOrdered r4.checksum_paths)).at
                                r5 s r6 h5 e6

-- Whatever the file system answers to each access, which others may change in between, and whenever the
-- caller interrupts, reading a locked package ends and does not panic, and a snapshot that it
-- gives is verified: its checksum is the one of the lock and the hash of the paths and bytes of all
-- its files, in ascending order of the paths, its manifest is valid, its source root is below the package
-- root, and it has at most the entries, the bytes of a file and the bytes in all that the limits allow.
pub read_locked_package_sources-IsVerified :
    {E : Type 0} (sys : System) (semver : Semver) (package_root expected : Text)
    (limits : SourceSnapshotLimits) (checks : List (Option E))
    → Good
        (IsVerified sys semver limits expected)
        (read_locked_package_sources sys semver package_root expected limits checks)
unfolding read_locked_package_sources
read_locked_package_sources-IsVerified sys semver package_root expected limits checks =
    Good-and_then _ (checkpoint (new_reader checks)) _ λ (_, r) e. Good-and_then _ _ _ λ _ _.
      Good-and_then _ _ _ λ root _. read_payload-Good sys semver root limits expected r (
        ((checkpoint-Grown sys package_root limits 0).at (new_reader checks) _ r
          ((omega arith, omega arith, refl, tt, (tt, tt)), omega arith) e))
