-- ===== src/Snapshot/Hashing.antt =====
-- Hashing the payload.
use etas.Base.{ℕ}
use etas.Base.{List, [], ◌∷◌, ◌++◌, ◌≡◌, refl, sym, arith}
use mathlib.Core.Path.{subst, ◌∙◌, ap}
use mathlib.Core.List.{append-nil, append_assoc}
use etas.Base.Paths.{RelativePath}
use etas.Diagnostics.{ok}
use etas.Snapshot.{Files}
use etas.Snapshot.Hoare.{Good}
use etas.Snapshot.Reader.{Reader, checkpoint, lookup}
use etas.Snapshot.Sizes.{Known}
use etas.Snapshot.Checks.{checkpoint-At}
use etas.Snapshot.Locked.{hash_payload_file, hash_paths}
use etas.Snapshot.Payload.{Good-and_then, Good-index, payload, bytes_of}

module _ {E : Type 0} where
  pub checkpoint-same :
      (r r' : Reader E)
      → checkpoint r ≡ ok (tt, r')
      → (r'.files ≡ r.files) × (r'.entries ≡ r.entries) × (r'.total ≡ r.total)
  checkpoint-same r r' k =
      let c =
        (checkpoint-At r.entries r.total r.files r.checksum_paths).at r tt r'
          (refl, refl, refl, refl) k in
      ground (arith, c)

  abbrev pub Hashed : Files → ℕ → ℕ → List ℕ → List ℕ × Reader E → Type 0
  Hashed fs n t bytes (out, r) = (out ≡ bytes) × (r.files ≡ fs) × (r.entries ≡ n) × (r.total ≡ t)

  -- Hashing reads the reader's files and changes none of them.
  pub hash_paths-Good :
      (fs : Files) (n t : ℕ) (paths : List RelativePath) (hashed : List ℕ) (r : Reader E)
      → Known fs paths
      → (r.files ≡ fs) × (r.entries ≡ n) × (r.total ≡ t)
      → Good (Hashed fs n t (hashed ++ payload fs paths)) (hash_paths paths hashed r)
  unfolding hash_paths
  hash_paths-Good fs n t [] hashed r known (ef, ee, et) = (sym (append-nil hashed), ef, ee, et)
  hash_paths-Good fs n t (p ∷ ps) hashed r (h, hs) (ef, ee, et) =
      Good-and_then _ (checkpoint r) _ λ (_, r') k.
        let (cf, ce, ct) = checkpoint-same r r' k in
        Good-index _ (lookup p r'.files) _ (rw (cf, ef) h) λ bytes l.
          subst
            (λ z. Good (Hashed fs n t z) (hash_paths ps (hashed ++ hash_payload_file p bytes) r'))
            (append_assoc hashed (hash_payload_file p bytes) (payload fs ps)
              ∙ ap (λ o. hashed ++ (hash_payload_file p (bytes_of o) ++ payload fs ps))
                  (sym l ∙ ap (lookup p) (cf ∙ ef)))
            (hash_paths-Good fs n t ps (hashed ++ hash_payload_file p bytes) r' hs
              (cf ∙ ef, ce ∙ ee, ct ∙ et))
