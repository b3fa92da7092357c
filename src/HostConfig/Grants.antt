-- ===== src/HostConfig/Grants.antt =====
-- The authority that a program runs with: `run_options`, `has_effect_adapters`, `filesystem_policy`
-- and `destructive_policy` of crates/etas_cli/src/command/interpreter/host_config.rs, and
-- `add_grants` of host_config/compiler.rs.
use etas.Base.{Text, codes, Option, none, some, Bool, true, false, ◌||◌, not, if◌then◌else◌}
use etas.Base.{List, [], ◌∷◌, ◌++◌, is_empty, is_some, any, concat_map}
use etas.Base.TreeMap.{TreeMap}
use etas.HostConfig.{
  FilesystemMode, no_access, read_only, read_write, destructive, SecretMode, no_secrets,
  ApprovalMode, deny, PolicyMode, deny_unknown, NetworkEndpoint, CommandIsolation, Host,
  CliCompilerConfig, CliFilesystemRegion, CliHostConfig, FilesystemPolicy,
}
use etas.HostConfig.Profile.{has_access, has_store}

-- `HostActionGrant::allow`, or `allow_with_args` with the exact identity of a region.
pub record HostActionGrant : Type 0 where
  pub effect : Text
  pub action : Text
  pub region : Option Text

abbrev pub allow : (effect action : Text) → HostActionGrant
allow effect action = record { effect = effect; action = action; region = none }

abbrev pub allow_in : (identity action : Text) → HostActionGrant
allow_in identity action = record { effect = codes "Fs"; action = action; region = some identity }

abbrev pub push_if : Bool → List HostActionGrant → List HostActionGrant
push_if test grants = if test then grants else []

abbrev pub console_grants : List HostActionGrant
console_grants =
    allow (codes "Console") (codes "stdin_read_all")
    ∷ allow (codes "Console") (codes "stdin_read_line")
    ∷ allow (codes "Console") (codes "stdout_write")
    ∷ allow (codes "Console") (codes "stderr_write")
    ∷ []

abbrev pub can_write : FilesystemMode → Bool
can_write mode = elim mode [ read_write ↦ true | destructive ↦ true | _ ↦ false ]

abbrev pub write_grants : List HostActionGrant
write_grants = allow (codes "Fs") (codes "write") ∷ allow (codes "Fs") (codes "atomic_replace") ∷ []

abbrev pub file_grants : FilesystemMode → List HostActionGrant
file_grants mode =
    allow (codes "Fs") (codes "read")
    ∷ allow (codes "Fs") (codes "list")
    ∷ allow (codes "Fs") (codes "stat")
    ∷ push_if (can_write mode) write_grants

abbrev pub mode_grants : FilesystemMode → List HostActionGrant
mode_grants mode = push_if (has_access mode) (file_grants mode)

abbrev pub region_read_grants : Text → List HostActionGrant
region_read_grants identity =
    allow_in identity (codes "read")
    ∷ allow_in identity (codes "list")
    ∷ allow_in identity (codes "stat")
    ∷ []

abbrev pub region_write_grants : Text → List HostActionGrant
region_write_grants identity =
    allow_in identity (codes "write") ∷ allow_in identity (codes "atomic_replace") ∷ []

abbrev pub region_delete_grants : Text → List HostActionGrant
region_delete_grants identity = allow_in identity (codes "delete") ∷ []

abbrev pub has_secrets : SecretMode → Bool
has_secrets mode = elim mode [ no_secrets ↦ false | _ ↦ true ]

abbrev pub has_approval : ApprovalMode → Bool
has_approval mode = elim mode [ deny ↦ false | _ ↦ true ]

abbrev pub has_policy : PolicyMode → Bool
has_policy mode = elim mode [ deny_unknown ↦ false | _ ↦ true ]

abbrev pub is_destructive : FilesystemMode → Bool
is_destructive mode = elim mode [ destructive ↦ true | _ ↦ false ]

abbrev pub model_grants : List HostActionGrant
model_grants = allow (codes "Agentic") (codes "infer") ∷ []

abbrev pub command_grants : List HostActionGrant
command_grants = allow (codes "Command") (codes "run") ∷ []

abbrev pub tool_grants : List HostActionGrant
tool_grants = allow (codes "Tool") (codes "call") ∷ []

abbrev pub store_grants : List HostActionGrant
store_grants = allow (codes "Memory") (codes "read") ∷ allow (codes "Memory") (codes "write") ∷ []

abbrev pub network_grants : List HostActionGrant
network_grants =
    allow (codes "Net") (codes "tcp_connect")
    ∷ allow (codes "Tls") (codes "handshake")
    ∷ allow (codes "Stream") (codes "read")
    ∷ allow (codes "Stream") (codes "write")
    ∷ allow (codes "Stream") (codes "flush")
    ∷ allow (codes "Stream") (codes "close")
    ∷ []

abbrev pub secret_grants : List HostActionGrant
secret_grants = allow (codes "Secret") (codes "read") ∷ allow (codes "Secret") (codes "use") ∷ []

module _ {host : Host} where
  abbrev pub compiler_grants : Option (CliCompilerConfig host) → List HostActionGrant
  compiler_grants none = []
  compiler_grants (some c) =
      push_if c.allow_check (allow (codes "Code") (codes "check") ∷ [])
      ++ push_if c.allow_compile (allow (codes "Code") (codes "compile") ∷ [])

  abbrev pub region_grants : Text × CliFilesystemRegion host → List HostActionGrant
  region_grants (identity, r) =
      push_if r.read (region_read_grants identity)
      ++ push_if r.write (region_write_grants identity)
      ++ push_if r.delete (region_delete_grants identity)

  abbrev pub regions_grants : TreeMap (CliFilesystemRegion host) → List HostActionGrant
  regions_grants [] = []
  regions_grants (r ∷ rs) = region_grants r ++ regions_grants rs

  -- What `run_options` pushes, in order.
  abbrev pub grant_parts : CliHostConfig host → List (List HostActionGrant)
  grant_parts c =
      console_grants
      ∷ compiler_grants c.compiler
      ∷ push_if (is_some c.model) model_grants
      ∷ push_if (not (is_empty c.command_allowed_programs)) command_grants
      ∷ mode_grants c.filesystem_mode
      ∷ regions_grants c.filesystem_regions
      ∷ push_if (has_store c.memory_mode) store_grants
      ∷ push_if (has_store c.session_mode) store_grants
      ∷ push_if (not (is_empty c.program_network_allowlist)) network_grants
      ∷ push_if (not (is_empty c.tool_bindings)) tool_grants
      ∷ push_if (has_secrets c.secret_mode) secret_grants
      ∷ []

  -- `grants` of `run_options`
  unfoldable pub granted : CliHostConfig host → List HostActionGrant
  granted c = concat_map (λ gs. gs) (grant_parts c)

  unfoldable pub has_effect_adapters : CliHostConfig host → Bool
  has_effect_adapters c =
      is_some c.compiler
      || (is_some c.model
          || (not (is_empty c.command_allowed_programs)
              || (not (is_empty c.tool_bindings)
                  || (has_store c.memory_mode
                      || (has_access c.filesystem_mode
                          || (not (is_empty c.filesystem_regions)
                              || (not (is_empty c.program_network_allowlist)
                                  || (has_approval c.approval_mode
                                      || (has_policy c.policy_mode
                                          || (is_some c.policy_local
                                              || (is_some c.policy_http
                                                  || (is_some c.boundary_policy_ref
                                                      || (has_store c.session_mode
                                                          || has_secrets c.secret_mode)))))))))))))

-- A region's root, if the region has the right.
abbrev pub root_if : {A : Type 0} → Bool → A → List A
root_if test root = if test then root ∷ [] else []

pub data DestructiveOpPolicy : Type 0 where
  deny_deletes allow_deletes : DestructiveOpPolicy

-- `SandboxPolicy::allow_listed`, or `deny_all`
pub record AllowListed (host : Host) : Type 0 where
  pub filesystem : FilesystemPolicy host.Root
  pub endpoints : List NetworkEndpoint
  pub allowed_programs : List Text
  pub isolation : CommandIsolation
  pub deletes : DestructiveOpPolicy

module _ (host : Host) where
  unfoldable pub mode_policy : Option host.Root → FilesystemMode → FilesystemPolicy host.Root
  mode_policy root no_access = host.deny_all_files
  mode_policy none mode = host.deny_all_files
  mode_policy (some root) read_only = record {
    read_roots = root ∷ [];
    write_roots = [];
    delete_roots = [];
  }
  mode_policy (some root) read_write = host.allow_workspace root
  mode_policy (some root) destructive = host.allow_destructive_workspace root

  unfoldable pub add_regions :
      TreeMap (CliFilesystemRegion host) → FilesystemPolicy host.Root → FilesystemPolicy host.Root
  add_regions [] p = p
  add_regions ((identity, r) ∷ rs) p = add_regions rs (record {
    read_roots = p.read_roots ++ root_if r.read r.root;
    write_roots = p.write_roots ++ root_if r.write r.root;
    delete_roots = p.delete_roots ++ root_if r.delete r.root;
  })

  unfoldable pub filesystem_policy :
      Option host.Root
      → FilesystemMode
      → TreeMap (CliFilesystemRegion host)
      → FilesystemPolicy host.Root
  unfolding mode_policy add_regions
  filesystem_policy root mode regions = add_regions regions (mode_policy root mode)

  abbrev pub region_deletes : Text × CliFilesystemRegion host → Bool
  region_deletes (identity, r) = r.delete

  unfoldable pub destructive_policy :
      FilesystemMode → TreeMap (CliFilesystemRegion host) → DestructiveOpPolicy
  destructive_policy mode regions =
      if is_destructive mode || any region_deletes regions then allow_deletes else deny_deletes

  -- `sandbox` of `run_options`; `none` is `deny_all`.
  unfoldable pub sandbox : CliHostConfig host → Option (AllowListed host)
  unfolding has_effect_adapters filesystem_policy destructive_policy
  sandbox c =
      if has_effect_adapters c
      then some (record {
        filesystem = filesystem_policy c.workspace_root c.filesystem_mode c.filesystem_regions;
        endpoints = c.program_network_allowlist;
        allowed_programs = c.command_allowed_programs;
        isolation = c.command_isolation;
        deletes = destructive_policy c.filesystem_mode c.filesystem_regions;
      })
      else none
