-- ===== src/HostConfig/Files.antt =====
-- The grants for files of `run_options`, of
-- crates/etas_cli/src/command/interpreter/host_config.rs, and the roots of its sandbox.
use etas.Base.{Bool, any, Text, same_text, Option, none, some, true, false, ◌≡◌}
use etas.Base.{refl, sym, inl, inr, List, [], ◌∷◌, ◌++◌, All, All-append, is_empty}
use etas.Base.{Bool-cases, arith}
use etas.Base.TreeMap.{TreeMap}
use mathlib.Core.Path.{subst}
use mathlib.Core.List.{Memᴰ, append_assoc}
use mathlib.Core.List.Memᴰ as MemD
use etas.HostConfig.{
  FilesystemMode, no_access, read_only, read_write, destructive, Host, CliFilesystemRegion,
  CliHostConfig,
}
use etas.HostConfig.Profile.{has_access}
use etas.HostConfig.Grants.{
  file_grants, write_grants, region_read_grants, region_write_grants, region_delete_grants,
  HostActionGrant, push_if, can_write, mode_grants, region_grants, regions_grants,
  has_effect_adapters, AllowListed, allow_deletes, region_deletes, mode_policy, filesystem_policy,
  destructive_policy, sandbox,
}
use etas.HostConfig.Coherent.{IsCoherent, Fits}
use etas.HostConfig.Authority.{
  Right, reads, writes, deletes, roots_of, has_right, IsRooted, IsBacked, IsAllowed, IsDocumented,
  All-push_if, add_regions-keeps, add_regions-adds,
}

All-mem_from : {A : Type 0} (before xs : List A) → All (λ x. Memᴰ x (before ++ xs)) xs
All-mem_from before [] = tt
All-mem_from before (x ∷ xs) = (
  MemD.append_right before (MemD.head refl),
  subst (λ ys. All (λ y. Memᴰ y ys) xs) (append_assoc before (x ∷ []) xs)
      (All-mem_from (before ++ x ∷ []) xs),
)

-- Every element is a member.
All-mem : {A : Type 0} (xs : List A) → All (λ x. Memᴰ x xs) xs
All-mem xs = All-mem_from [] xs

any-mem :
    {A : Type 0} (p : A → Bool) (x : A) (xs : List A) → Memᴰ x xs → p x ≡ true → any p xs ≡ true
any-mem p x [] m e = absurd (MemD.not-nil m)
any-mem p x (y ∷ ys) m e = elim (MemD.cases_cons m) [
  | inl same ↦ let here : p y ≡ true = subst (λ z. p z ≡ true) same e in rw here refl
  | inr later ↦ let there = any-mem p x ys later e in ground (arith, there)
]

eq-nil : {A : Type 0} (xs : List A) → is_empty xs ≡ true → xs ≡ []
eq-nil [] e = refl
eq-nil (x ∷ xs) e = cc

module _ (host : Host) where
  abbrev pub policies : CliHostConfig host → AllowListed host
  policies c = record {
    filesystem = filesystem_policy host c.workspace_root c.filesystem_mode c.filesystem_regions;
    endpoints = c.program_network_allowlist;
    allowed_programs = c.command_allowed_programs;
    isolation = c.command_isolation;
    deletes = destructive_policy host c.filesystem_mode c.filesystem_regions;
  }

  -- Grants that come with an adapter are backed by the policies.
  pub IsAllowed-of :
      (c : CliHostConfig host) (gs : List HostActionGrant)
      → has_effect_adapters c ≡ true
      → All (IsBacked c (policies c)) gs
      → All (IsAllowed c (sandbox host c)) gs
  unfolding sandbox
  IsAllowed-of c gs e h = rw e h

  adapters_files :
      (c : CliHostConfig host) → has_access c.filesystem_mode ≡ true → has_effect_adapters c ≡ true
  unfolding has_effect_adapters
  adapters_files c e = rw e (ground arith)

  -- A grant for the files of the whole workspace.
  workspace-IsRooted :
      (c : CliHostConfig host) (right : Right) (root : host.Root)
      → c.workspace_root ≡ some root
      → Memᴰ root (roots_of right (mode_policy host (some root) c.filesystem_mode))
      → IsRooted c (roots_of right (policies c).filesystem) none
  unfolding filesystem_policy
  workspace-IsRooted c right root e m = (
    root,
    e,
    add_regions-keeps host right c.filesystem_regions
        (mode_policy host c.workspace_root c.filesystem_mode)
        (subst
          (λ (o : Option host.Root).
            Memᴰ root (roots_of right (mode_policy host o c.filesystem_mode)))
          (sym e) m),
  )

  -- A mode with access lets its workspace be read, and written if it says so.
  mode_policy-reads :
      IsDocumented host
      → (m : FilesystemMode) (root : host.Root) → has_access m ≡ true
      → Memᴰ root (mode_policy host (some root) m).read_roots
  unfolding mode_policy
  mode_policy-reads doc no_access root e = cc
  mode_policy-reads doc read_only root e = MemD.head refl
  mode_policy-reads doc read_write root e = doc.workspace_reads root
  mode_policy-reads doc destructive root e = doc.destructive_reads root

  mode_policy-writes :
      IsDocumented host
      → (m : FilesystemMode) (root : host.Root) → can_write m ≡ true
      → Memᴰ root (mode_policy host (some root) m).write_roots
  unfolding mode_policy
  mode_policy-writes doc no_access root e = cc
  mode_policy-writes doc read_only root e = cc
  mode_policy-writes doc read_write root e = doc.workspace_writes root
  mode_policy-writes doc destructive root e = doc.destructive_writes root

  Fits-workspace :
      (m : FilesystemMode) (o : Option host.Root) (regions : TreeMap (CliFilesystemRegion host))
      → Fits m o regions
      → has_access m ≡ true
      → (root : host.Root) × (o ≡ some root)
  Fits-workspace no_access o regions h e = cc
  Fits-workspace read_only none regions h e = cc
  Fits-workspace read_write none regions h e = cc
  Fits-workspace destructive none regions h e = cc
  Fits-workspace m (some root) regions h e = (root, refl)

  pub mode_grants-IsAllowed :
      IsDocumented host
      → (c : CliHostConfig host) → IsCoherent c
      → All (IsAllowed c (sandbox host c)) (mode_grants c.filesystem_mode)
  unfolding same_text
  mode_grants-IsAllowed doc c h =
      All-push_if (IsAllowed c (sandbox host c)) (has_access c.filesystem_mode)
        (file_grants c.filesystem_mode)
        (λ e.
          let (root, at) =
            Fits-workspace c.filesystem_mode c.workspace_root c.filesystem_regions h e in
          let reading =
            workspace-IsRooted c reads root at (mode_policy-reads doc c.filesystem_mode root e) in
          IsAllowed-of c (file_grants c.filesystem_mode) (adapters_files c e) (
            (reading, tt),
            (
              (reading, tt),
              (
                (reading, tt),
                All-push_if (IsBacked c (policies c)) (can_write c.filesystem_mode) write_grants
                    (λ w.
                      let writing =
                        workspace-IsRooted c writes root at
                          (mode_policy-writes doc c.filesystem_mode root w) in
                      ((writing, tt), ((writing, tt), tt))),
              ),
            ),
          ))

  -- A grant for the files of one region.
  region-IsRooted :
      (c : CliHostConfig host) (right : Right) (identity : Text) (r : CliFilesystemRegion host)
      → Memᴰ (identity, r) c.filesystem_regions
      → has_right right r ≡ true
      → IsRooted c (roots_of right (policies c).filesystem) (some identity)
  unfolding filesystem_policy
  region-IsRooted c right identity r m e =
      (r, m, add_regions-adds host right c.filesystem_regions _ identity r m e)

  -- A region that may be deleted from lets the sandbox delete.
  region_deletes-allow :
      (c : CliHostConfig host) (identity : Text) (r : CliFilesystemRegion host)
      → Memᴰ (identity, r) c.filesystem_regions
      → r.delete ≡ true
      → (policies c).deletes ≡ allow_deletes
  unfolding destructive_policy
  region_deletes-allow c identity r m e =
      ground (arith, any-mem (region_deletes host) (identity, r) c.filesystem_regions m e)

  region_grants-IsBacked :
      (c : CliHostConfig host) (identity : Text) (r : CliFilesystemRegion host)
      → Memᴰ (identity, r) c.filesystem_regions
      → All (IsBacked c (policies c)) (region_grants (identity, r))
  unfolding same_text
  region_grants-IsBacked c identity r m =
      All-append (IsBacked c (policies c))
        (push_if r.read (region_read_grants identity)
          ++ push_if r.write (region_write_grants identity))
        (push_if r.delete (region_delete_grants identity))
        (All-append (IsBacked c (policies c)) (push_if r.read (region_read_grants identity))
          (push_if r.write (region_write_grants identity))
          (All-push_if (IsBacked c (policies c)) r.read (region_read_grants identity) (λ e.
            let reading = region-IsRooted c reads identity r m e in
            ((reading, tt), ((reading, tt), ((reading, tt), tt)))))
          (All-push_if (IsBacked c (policies c)) r.write (region_write_grants identity) (λ e.
            let writing = region-IsRooted c writes identity r m e in
            ((writing, tt), ((writing, tt), tt)))))
        (All-push_if (IsBacked c (policies c)) r.delete (region_delete_grants identity) (λ e.
          ((region-IsRooted c deletes identity r m e, region_deletes-allow c identity r m e), tt)))

  -- The regions from one on, which stand among all.
  regions_grants-IsBacked :
      (c : CliHostConfig host) (regions : TreeMap (CliFilesystemRegion host))
      → All (λ x. Memᴰ x c.filesystem_regions) regions
      → All (IsBacked c (policies c)) (regions_grants regions)
  regions_grants-IsBacked c [] h = tt
  regions_grants-IsBacked c ((identity, r) ∷ rs) (m, h) =
      All-append (IsBacked c (policies c)) (region_grants (identity, r)) (regions_grants rs)
        (region_grants-IsBacked c identity r m) (regions_grants-IsBacked c rs h)

  adapters_regions :
      (c : CliHostConfig host)
      → is_empty c.filesystem_regions ≡ false
      → has_effect_adapters c ≡ true
  unfolding has_effect_adapters
  adapters_regions c e = rw e (ground arith)

  pub regions-IsAllowed :
      (c : CliHostConfig host)
      → All (IsAllowed c (sandbox host c)) (regions_grants c.filesystem_regions)
  regions-IsAllowed c = elim (Bool-cases (is_empty c.filesystem_regions)) [
    | inl e ↦
        subst
          (λ (rs : TreeMap (CliFilesystemRegion host)).
            All (IsAllowed c (sandbox host c)) (regions_grants rs))
          (sym (eq-nil c.filesystem_regions e)) tt
    | inr e ↦
        IsAllowed-of c (regions_grants c.filesystem_regions) (adapters_regions c e)
          (regions_grants-IsBacked c c.filesystem_regions (All-mem c.filesystem_regions))
  ]
