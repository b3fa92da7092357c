-- ===== src/HostConfig/Profile.antt =====
-- A configuration from the profiles of a manifest and of the local file, and from the environment:
-- `from_runtime_profile_at` and the methods that it calls.
use etas.Base.{Text, codes, Option, none, some, Bool, true, false, ◌&&◌, ◌||◌, not}
use etas.Base.{if◌then◌else◌, List, [], ◌∷◌, ◌++◌, is_empty, is_some, is_none, same_text, ◌==◌}
use etas.Base.TreeMap.{TreeMap, get, insert}
use etas.Diagnostics.{Result, ok, err, ◌>>=◌, ok_or, fail_if}
use etas.Manifest.Schema.{
  RuntimePolicyProfile, RuntimeFilesystemRegionProfile, RuntimeFilesystemProfile,
  RuntimeToolsProfile, RuntimeCommandProfile,
}
use etas.HostConfig.{
  UsageError, invalid_root, invalid_region, mixed_filesystem, root_required, unknown_isolation,
  isolation_required, Env, FilesystemMode, no_access, no_store, no_secrets, deny, deny_unknown,
  StoreMode, public_only, CommandIsolation, denied, trusted_unconfined, required, landlock,
  container, wasi_preopen, CliToolBinding, Host, CliHostConfig,
}
use etas.HostConfig.Modes.{parse_filesystem_mode, parse_policy_mode, private_resolution_from_flag}
use etas.HostConfig.Network.{starts_with}
use etas.HostConfig.Tools.{tool_programs, tool_bindings_from_profile, merge_tool_bindings}
use etas.HostConfig.Policy.{policy_local_from_rules, policy_http_from_profile}

abbrev pub has_access : FilesystemMode → Bool
has_access mode = elim mode [ no_access ↦ false | _ ↦ true ]

abbrev pub has_store : StoreMode → Bool
has_store mode = elim mode [ no_store ↦ false | _ ↦ true ]

abbrev pub is_denied : CommandIsolation → Bool
is_denied i = elim i [ denied ↦ true | _ ↦ false ]

-- `if let Some(value) = option { .. }` around what a method does to the configuration
abbrev pub on_some :
    {A S : Type 0} → Option A → (A → S → Result UsageError S) → S → Result UsageError S
on_some none f s = ok s
on_some (some a) f s = f a s

-- `contains_any`
abbrev pub contains_any : Env → List Text → Bool
contains_any env [] = false
contains_any env (name ∷ names) = is_some (get name env) || contains_any env names

abbrev pub when : {S : Type 0} → Bool → (S → Result UsageError S) → S → Result UsageError S
when true f s = f s
when false f s = ok s

unfoldable pub isolation_of : Text → Result UsageError CommandIsolation
unfolding same_text
isolation_of mode =
    if same_text mode (codes "trusted-unconfined")
    then ok trusted_unconfined
    else if same_text mode (codes "landlock")
    then ok (required landlock)
    else if same_text mode (codes "container")
    then ok (required container)
    else if same_text mode (codes "wasi-preopen")
    then ok (required wasi_preopen)
    else err (unknown_isolation mode)

-- Whether a path needs a separator at its end before another is appended.
abbrev pub is_open : Text → Bool
is_open [] = false
is_open (c ∷ []) = not (c == 47)
is_open (c ∷ d ∷ cs) = is_open (d ∷ cs)

-- `Path::join`
unfoldable pub join_path : (base_dir path : Text) → Text
join_path base_dir path = base_dir ++ ((if is_open base_dir then 47 ∷ [] else []) ++ path)

unfoldable pub resolve_profile_path : (base_dir path : Text) → Text
unfolding join_path
resolve_profile_path base_dir path = if starts_with path 47 then path else join_path base_dir path

module _ (host : Host) where
  abbrev pub none_config : CliHostConfig host
  none_config = record {
    compiler = none;
    model = none;
    command_allowed_programs = [];
    command_isolation = denied;
    workspace_root = none;
    filesystem_mode = no_access;
    filesystem_regions = [];
    program_network_allowlist = [];
    adapter_transport_allowlist = [];
    memory_mode = no_store;
    approval_mode = deny;
    policy_mode = deny_unknown;
    policy_local = none;
    policy_http = none;
    boundary_policy_ref = none;
    session_id = none;
    session_mode = no_store;
    secret_mode = no_secrets;
    tool_bindings = [];
    tool_private_resolution = public_only;
    profile_name = none;
    execution_limits = host.default_limits;
    cpu_threads = 1;
    shutdown_grace_ms = 5000;
  }

  abbrev pub Update : Type 0
  Update = CliHostConfig host → Result UsageError (CliHostConfig host)

  unfoldable pub workspace_root_from_path : Text → Result UsageError host.Root
  workspace_root_from_path path = ok_or (host.root_new path) (invalid_root path)

  -- One region of a profile, in the order of their names.
  unfoldable pub insert_region : (base_dir : Text) → Text × RuntimeFilesystemRegionProfile → Update
  unfolding workspace_root_from_path resolve_profile_path insert
  insert_region base_dir (identity, region) c =
      fail_if (not (host.is_region_id identity)) (invalid_region identity) >>= λ _.
      workspace_root_from_path (resolve_profile_path base_dir region.root) >>= λ root.
      ok (record c {
        filesystem_regions =
            insert identity
              (record {
                root = root;
                read = region.read;
                write = region.write;
                delete = region.delete;
              })
              c.filesystem_regions;
      })

  unfoldable pub insert_regions :
      (base_dir : Text) → TreeMap RuntimeFilesystemRegionProfile → Update
  unfolding insert_region
  insert_regions base_dir [] c = ok c
  insert_regions base_dir (r ∷ rs) c =
      insert_region base_dir r c >>= λ c'. insert_regions base_dir rs c'

  unfoldable pub apply_regions : (base_dir : Text) → RuntimeFilesystemProfile → Update
  unfolding insert_regions
  apply_regions base_dir filesystem c =
      fail_if (is_some filesystem.mode || is_some filesystem.workspace_root) mixed_filesystem
      >>= λ _.
          insert_regions base_dir filesystem.regions
            (record c { filesystem_mode = no_access; workspace_root = none })

  unfoldable pub set_root : (base_dir : Text) → Option Text → Update
  unfolding workspace_root_from_path resolve_profile_path
  set_root base_dir none c = ok c
  set_root base_dir (some root) c =
      workspace_root_from_path (resolve_profile_path base_dir root) >>= λ r.
      ok (record c { workspace_root = some r })

  -- Access needs a workspace.
  unfoldable pub require_root : Update
  require_root c =
      fail_if (has_access c.filesystem_mode && is_none c.workspace_root) root_required >>= λ _. ok c

  unfoldable pub apply_workspace : (base_dir : Text) → RuntimeFilesystemProfile → Update
  unfolding parse_filesystem_mode set_root require_root
  apply_workspace base_dir filesystem c = parse_filesystem_mode filesystem.mode >>= λ mode.
      set_root base_dir filesystem.workspace_root
        (record c { filesystem_regions = []; filesystem_mode = mode })
      >>= require_root

  unfoldable pub apply_filesystem : (base_dir : Text) → RuntimeFilesystemProfile → Update
  unfolding apply_regions apply_workspace
  apply_filesystem base_dir filesystem c =
      if is_empty filesystem.regions
      then apply_workspace base_dir filesystem c
      else apply_regions base_dir filesystem c

  unfoldable pub apply_policy_profile : RuntimePolicyProfile → Env → Update
  unfolding parse_policy_mode policy_local_from_rules policy_http_from_profile
  apply_policy_profile profile env c = parse_policy_mode profile.mode >>= λ mode.
      policy_local_from_rules mode profile.rules >>= λ local.
      policy_http_from_profile host mode profile env >>= λ http.
      ok (record c { policy_mode = mode; policy_local = local; policy_http = http })

  abbrev pub set_isolation : Text → Update
  set_isolation mode c = isolation_of mode >>= λ i. ok (record c { command_isolation = i })

  unfoldable pub apply_command_profile : RuntimeCommandProfile → Update
  unfolding isolation_of
  apply_command_profile profile c = on_some profile.isolation set_isolation c >>= λ c'.
      ok (record c' { command_allowed_programs = c'.command_allowed_programs ++ profile.allow })

  unfoldable pub validate_command_isolation : Update
  validate_command_isolation c =
      fail_if (not (is_empty c.command_allowed_programs) && is_denied c.command_isolation)
        isolation_required
      >>= λ _. ok c

  abbrev pub set_tool_resolution : Option Bool → CliHostConfig host → CliHostConfig host
  set_tool_resolution none c = c
  set_tool_resolution (some flag) c = record c {
    tool_private_resolution = private_resolution_from_flag flag;
  }

  abbrev pub add_bindings : List CliToolBinding → CliHostConfig host → CliHostConfig host
  add_bindings bindings c = record c {
    command_allowed_programs = c.command_allowed_programs ++ tool_programs bindings;
    tool_bindings = merge_tool_bindings c.tool_bindings bindings;
  }

  unfoldable pub apply_tools_profile : RuntimeToolsProfile → Update
  unfolding tool_bindings_from_profile merge_tool_bindings
  apply_tools_profile profile c = tool_bindings_from_profile profile >>= λ bindings.
      ok (add_bindings bindings (set_tool_resolution profile.allow_private c))
