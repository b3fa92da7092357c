-- ===== src/HostConfig/Authority.antt =====
-- The grants and the sandbox that `run_options` of
-- crates/etas_cli/src/command/interpreter/host_config.rs gives a program agree.
use etas.Base.{ap, Text, codes, same_text, Option, none, some, Bool, true, false, ◌≡◌, ◌≢◌}
use etas.Base.{refl, sym, inl, inr, List, [], ◌∷◌, ◌++◌, All}
use etas.Base.{if◌then◌else◌}
use etas.Base.TreeMap.{TreeMap}
use mathlib.Core.Path.{subst}
use mathlib.Core.List.{Memᴰ}
use mathlib.Core.List.Memᴰ as MemD
use etas.HostConfig.{denied, FilesystemPolicy, Host, CliFilesystemRegion, CliHostConfig}
use etas.HostConfig.Grants.{
  HostActionGrant, push_if, root_if, DestructiveOpPolicy, allow_deletes, AllowListed, add_regions,
}

-- What an action on files needs.
pub data Right : Type 0 where
  reads writes deletes : Right

abbrev pub right_of : Text → Right
right_of action =
    if same_text action (codes "delete")
    then deletes
    else if same_text action (codes "write")
    then writes
    else if same_text action (codes "atomic_replace")
    then writes
    else reads

abbrev pub roots_of : {Root : Type 0} → Right → FilesystemPolicy Root → List Root
roots_of reads p = p.read_roots
roots_of writes p = p.write_roots
roots_of deletes p = p.delete_roots

-- To delete, the policy for destructive operations has to allow it.
abbrev pub Permits : Right → DestructiveOpPolicy → Type 0
Permits deletes policy = policy ≡ allow_deletes
Permits _ policy = Unit

module _ {host : Host} where
  abbrev pub has_right : Right → CliFilesystemRegion host → Bool
  has_right reads r = r.read
  has_right writes r = r.write
  has_right deletes r = r.delete

  -- The root that a grant is about is one of `roots`: that of the workspace, or of the region.
  abbrev pub IsRooted : CliHostConfig host → List host.Root → Option Text → Type 0
  IsRooted c roots none = (root : host.Root) × (c.workspace_root ≡ some root) × Memᴰ root roots
  IsRooted c roots (some identity) =
      (r : CliFilesystemRegion host) × Memᴰ (identity, r) c.filesystem_regions × Memᴰ r.root roots

  -- What the sandbox has to allow for a grant to be of use.
  abbrev pub IsBacked : CliHostConfig host → AllowListed host → HostActionGrant → Type 0
  IsBacked c s g =
      if same_text g.effect (codes "Fs")
      then IsRooted c (roots_of (right_of g.action) s.filesystem) g.region
        × Permits (right_of g.action) s.deletes
      else if same_text g.effect (codes "Command")
      then (s.allowed_programs ≢ []) × (s.isolation ≢ denied)
      else if same_text g.effect (codes "Net")
      then (s.endpoints ≢ [])
      else if same_text g.effect (codes "Tls")
      then (s.endpoints ≢ [])
      else if same_text g.effect (codes "Stream")
      then (s.endpoints ≢ [])
      else Unit

  -- A sandbox that denies everything goes with grants for the console alone.
  abbrev pub IsAllowed : CliHostConfig host → Option (AllowListed host) → HostActionGrant → Type 0
  IsAllowed c none g = g.effect ≡ codes "Console"
  IsAllowed c (some s) g = IsBacked c s g

-- What the host library says of its policies for a workspace.
pub record IsDocumented (host : Host) : Type 0 where
  pub workspace_reads : (root : host.Root) → Memᴰ root (host.allow_workspace root).read_roots
  pub workspace_writes : (root : host.Root) → Memᴰ root (host.allow_workspace root).write_roots
  pub destructive_reads :
      (root : host.Root) → Memᴰ root (host.allow_destructive_workspace root).read_roots
  pub destructive_writes :
      (root : host.Root) → Memᴰ root (host.allow_destructive_workspace root).write_roots

pub All-push_if :
    (P : HostActionGrant → Type 0) (test : Bool) (gs : List HostActionGrant)
    → (test ≡ true → All P gs)
    → All P (push_if test gs)
All-push_if P true gs h = h refl
All-push_if P false gs h = tt

root_if-has :
    {Root : Type 0} (test : Bool) (root : Root) → test ≡ true → Memᴰ root (root_if test root)
root_if-has true root e = MemD.head refl
root_if-has false root e = cc

module _ {host : Host} where
  abbrev with_region :
      CliFilesystemRegion host → FilesystemPolicy host.Root → FilesystemPolicy host.Root
  with_region r p = record {
    read_roots = p.read_roots ++ root_if r.read r.root;
    write_roots = p.write_roots ++ root_if r.write r.root;
    delete_roots = p.delete_roots ++ root_if r.delete r.root;
  }

  with_region-keeps :
      (right : Right) (r : CliFilesystemRegion host) (p : FilesystemPolicy host.Root)
      {root : host.Root}
      → Memᴰ root (roots_of right p)
      → Memᴰ root (roots_of right (with_region r p))
  with_region-keeps reads r p m = MemD.append_left _ m
  with_region-keeps writes r p m = MemD.append_left _ m
  with_region-keeps deletes r p m = MemD.append_left _ m

  with_region-adds :
      (right : Right) (r : CliFilesystemRegion host) (p : FilesystemPolicy host.Root)
      → has_right right r ≡ true
      → Memᴰ r.root (roots_of right (with_region r p))
  with_region-adds reads r p e = MemD.append_right p.read_roots (root_if-has r.read r.root e)
  with_region-adds writes r p e = MemD.append_right p.write_roots (root_if-has r.write r.root e)
  with_region-adds deletes r p e = MemD.append_right p.delete_roots (root_if-has r.delete r.root e)

module _ (host : Host) where
  pub add_regions-keeps :
      (right : Right) (regions : TreeMap (CliFilesystemRegion host))
      (p : FilesystemPolicy host.Root) {root : host.Root}
      → Memᴰ root (roots_of right p)
      → Memᴰ root (roots_of right (add_regions host regions p))
  unfolding add_regions
  add_regions-keeps right [] p m = m
  add_regions-keeps right ((identity, r) ∷ rs) p m =
      add_regions-keeps right rs (with_region r p) (with_region-keeps right r p m)

  pub add_regions-adds :
      (right : Right) (regions : TreeMap (CliFilesystemRegion host))
      (p : FilesystemPolicy host.Root) (identity : Text) (r : CliFilesystemRegion host)
      → Memᴰ (identity, r) regions
      → has_right right r ≡ true
      → Memᴰ r.root (roots_of right (add_regions host regions p))
  unfolding add_regions
  add_regions-adds right [] p identity r m e = absurd (MemD.not-nil m)
  add_regions-adds right ((j, q) ∷ rs) p identity r m e = elim (MemD.cases_cons m) [
    | inl same ↦
        let eq = ap (λ (x : Text × CliFilesystemRegion host). x.1) same in
        let added =
          with_region-adds right q p
            (subst (λ (x : CliFilesystemRegion host). has_right right x ≡ true) eq e) in
        subst
          (λ (x : CliFilesystemRegion host).
            Memᴰ x.root (roots_of right (add_regions host rs (with_region q p))))
          (sym eq) (add_regions-keeps right rs (with_region q p) added)
    | inr later ↦ add_regions-adds right rs (with_region q p) identity r later e
  ]
