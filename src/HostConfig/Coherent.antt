-- ===== src/HostConfig/Coherent.antt =====
-- What every configuration from profiles and the environment has, whatever these say: the paths of
-- `from_runtime_profile_at` of crates/etas_cli/src/command/interpreter/host_config.rs.
use etas.Base.{Text, Option, none, some, is_some, is_empty, [], ◌∷◌, ◌≡◌, refl, sym}
use etas.Base.{◌&&◌, ◌||◌, not, true, false, is_none, Bool-cases, inl, inr}
use etas.Base.TreeMap.{TreeMap}
use mathlib.Core.Path.{subst}
use etas.Diagnostics.{Result, fail_if}
use etas.Manifest.Schema.{RuntimeFilesystemProfile, RuntimeFilesystemRegionProfile}
use etas.HostConfig.{
  UsageError, mixed_filesystem, invalid_region, FilesystemMode, no_access, read_only, read_write,
  destructive, Host, CliFilesystemRegion, CliHostConfig,
}
use etas.HostConfig.Kept.{Kept, kept, failed, Keeps, Kept-then, Kept-value}
use etas.HostConfig.Modes.{parse_filesystem_mode}
use etas.HostConfig.Profile.{
  resolve_profile_path, require_root, insert_region, insert_regions, apply_regions, set_root,
  apply_workspace, apply_filesystem, has_access, workspace_root_from_path,
}

module _ {host : Host} where
  abbrev pub Fits : FilesystemMode → Option host.Root → TreeMap (CliFilesystemRegion host) → Type 0
  Fits no_access root regions = Unit
  Fits _ root regions = (is_some root ≡ true) × (regions ≡ [])

  -- Access by a mode has a workspace, and stands beside no regions.
  abbrev pub IsCoherent : CliHostConfig host → Type 0
  IsCoherent c = Fits c.filesystem_mode c.workspace_root c.filesystem_regions

  abbrev HasNoAccess : CliHostConfig host → Type 0
  HasNoAccess c = c.filesystem_mode ≡ no_access

  abbrev pub HasNoRegions : CliHostConfig host → Type 0
  HasNoRegions c = c.filesystem_regions ≡ []

  Fits-no_access :
      (m : FilesystemMode) (root : Option host.Root) (regions : TreeMap (CliFilesystemRegion host))
      → m ≡ no_access
      → Fits m root regions
  Fits-no_access m root regions e = subst (λ n. Fits n root regions) (sym e) tt

  -- A workspace beside no regions goes with any mode.
  pub Fits-root :
      (m : FilesystemMode) (root : Option host.Root) (regions : TreeMap (CliFilesystemRegion host))
      → is_some root ≡ true
      → regions ≡ []
      → Fits m root regions
  Fits-root no_access root regions s e = tt
  Fits-root read_only root regions s e = (s, e)
  Fits-root read_write root regions s e = (s, e)
  Fits-root destructive root regions s e = (s, e)

  pub Fits-checked :
      (m : FilesystemMode) (root : Option host.Root) (regions : TreeMap (CliFilesystemRegion host))
      → (has_access m && is_none root) ≡ false
      → regions ≡ []
      → Fits m root regions
  Fits-checked no_access root regions h e = tt
  Fits-checked read_only none regions h e = cc
  Fits-checked read_write none regions h e = cc
  Fits-checked destructive none regions h e = cc
  Fits-checked m (some r) regions h e = Fits-root m (some r) regions refl e

module _ (host : Host) where
  pub Keeps-require_root : Keeps HasNoRegions IsCoherent (require_root host)
  unfolding require_root
  Keeps-require_root = record {
    at = λ c e. elim (Bool-cases (has_access c.filesystem_mode && is_none c.workspace_root)) [
      | inl t ↦ rw t failed
      | inr f ↦
          rw f (kept (Fits-checked c.filesystem_mode c.workspace_root c.filesystem_regions f e))
    ];
  }

  Keeps-insert_region :
      (base_dir : Text) (region : Text × RuntimeFilesystemRegionProfile)
      → Keeps HasNoAccess HasNoAccess (insert_region host base_dir region)
  unfolding insert_region
  Keeps-insert_region base_dir region = record {
    at = λ c e.
        Kept-value (fail_if (not (host.is_region_id region.0)) (invalid_region region.0)) _ (λ _.
          Kept-value (workspace_root_from_path host (resolve_profile_path base_dir region.1.root)) _
            (λ root. kept e));
  }

  Keeps-insert_regions :
      (base_dir : Text) (regions : TreeMap RuntimeFilesystemRegionProfile)
      → Keeps HasNoAccess HasNoAccess (insert_regions host base_dir regions)
  unfolding insert_regions
  Keeps-insert_regions base_dir [] = record { at = λ c e. kept e }
  Keeps-insert_regions base_dir (r ∷ rs) = record {
    at = λ c e.
        Kept-then ((Keeps-insert_region base_dir r).at c e) (Keeps-insert_regions base_dir rs);
  }

  Keeps-set_root :
      (base_dir : Text) (root : Option Text)
      → Keeps HasNoRegions HasNoRegions (set_root host base_dir root)
  unfolding set_root
  Keeps-set_root base_dir none = record { at = λ c e. kept e }
  Keeps-set_root base_dir (some root) = record {
    at = λ c e.
        Kept-value (workspace_root_from_path host (resolve_profile_path base_dir root)) _
          (λ r. kept e);
  }

  Kept-IsCoherent :
      {r : Result UsageError (CliHostConfig host)} → Kept HasNoAccess r → Kept IsCoherent r
  Kept-IsCoherent (kept {s = c} e) =
      kept (Fits-no_access c.filesystem_mode c.workspace_root c.filesystem_regions e)
  Kept-IsCoherent failed = failed

  Keeps-apply_workspace :
      (base_dir : Text) (filesystem : RuntimeFilesystemProfile)
      → Keeps IsCoherent IsCoherent (apply_workspace host base_dir filesystem)
  unfolding apply_workspace
  Keeps-apply_workspace base_dir filesystem = record {
    at = λ c h. Kept-value (parse_filesystem_mode filesystem.mode) _ (λ mode.
        Kept-then
          ((Keeps-set_root base_dir filesystem.workspace_root).at
            (record c { filesystem_regions = []; filesystem_mode = mode }) refl)
          Keeps-require_root);
  }

  Keeps-apply_regions :
      (base_dir : Text) (filesystem : RuntimeFilesystemProfile)
      → Keeps IsCoherent IsCoherent (apply_regions host base_dir filesystem)
  unfolding apply_regions
  Keeps-apply_regions base_dir filesystem = record {
    at = λ c h.
        Kept-value
          (fail_if (is_some filesystem.mode || is_some filesystem.workspace_root) mixed_filesystem)
          _
          (λ _. Kept-IsCoherent (
            (Keeps-insert_regions base_dir filesystem.regions).at
              (record c { filesystem_mode = no_access; workspace_root = none }) refl));
  }

  pub Keeps-apply_filesystem :
      (base_dir : Text) (filesystem : RuntimeFilesystemProfile)
      → Keeps IsCoherent IsCoherent (apply_filesystem host base_dir filesystem)
  unfolding apply_filesystem
  Keeps-apply_filesystem base_dir filesystem = record {
    at = λ c h. elim (Bool-cases (is_empty filesystem.regions)) [
      | inl t ↦ rw t ((Keeps-apply_workspace base_dir filesystem).at c h)
      | inr f ↦ rw f ((Keeps-apply_regions base_dir filesystem).at c h)
    ];
  }
