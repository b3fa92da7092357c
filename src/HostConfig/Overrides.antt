-- ===== src/HostConfig/Overrides.antt =====
-- What the environment overrides: `apply_env_overrides` of
-- crates/etas_cli/src/command/interpreter/host_config.rs.
use etas.Base.{
  Text, codes, Option, none, some, if◌then◌else◌, ◌&&◌, ◌||◌, is_some, List, [], ◌∷◌, ◌++◌,
}
use etas.Base.TreeMap.{get}
use etas.Diagnostics.{Result, ok, ◌>>=◌}
use etas.HostConfig.{UsageError, Env, PolicyMode, memory, Host, CliHostConfig}
use etas.HostConfig.Texts.{entries}
use etas.HostConfig.Modes.{
  parse_filesystem_mode, parse_secret_mode, parse_approval_mode, parse_policy_mode,
  parse_memory_mode, parse_session_mode,
}
use etas.HostConfig.Network.{parse_network_allowlist}
use etas.HostConfig.Tools.{parse_tool_bindings, merge_tool_bindings}
use etas.HostConfig.Policy.{
  policy_local_from_env_overrides, policy_http_from_env_overrides,
  private_resolution_from_env_override,
}
use etas.HostConfig.Profile.{
  has_store, on_some, contains_any, when, Update, workspace_root_from_path, require_root,
  apply_command_profile, add_bindings,
}
use etas.HostConfig.Sources.{set_boundary}

abbrev pub model_names : List Text
model_names =
    codes "ETAS_HOST_MODEL_ADAPTER"
    ∷ codes "ETAS_HOST_MODEL_NAME"
    ∷ codes "ETAS_HOST_MODEL_BASE_URL"
    ∷ codes "ETAS_HOST_MODEL_ALLOW_PRIVATE"
    ∷ codes "ETAS_HOST_MODEL_CONNECT_TIMEOUT_MS"
    ∷ codes "ETAS_HOST_MODEL_REQUEST_DEADLINE_MS"
    ∷ codes "ETAS_HOST_MODEL_RETRY_ATTEMPTS"
    ∷ codes "ETAS_HOST_MODEL_RETRY_DELAY_MS"
    ∷ codes "ETAS_HOST_MODEL_OUTPUT_ENCODING"
    ∷ []

-- `model_auth::ENV_KEYS`
abbrev pub key_names : List Text
key_names = codes "ETAS_HOST_MODEL_API_KEY" ∷ codes "ETAS_HOST_OMLX_API_KEY" ∷ []

abbrev pub policy_names : List Text
policy_names =
    codes "ETAS_HOST_POLICY"
    ∷ codes "ETAS_HOST_POLICY_RULES"
    ∷ codes "ETAS_HOST_POLICY_URL"
    ∷ codes "ETAS_HOST_POLICY_TOKEN"
    ∷ codes "ETAS_HOST_POLICY_PATH"
    ∷ codes "ETAS_HOST_POLICY_ALLOW_PRIVATE"
    ∷ codes "ETAS_HOST_POLICY_RETRY_ATTEMPTS"
    ∷ codes "ETAS_HOST_POLICY_RETRY_DELAY_MS"
    ∷ []

abbrev pub tool_names : List Text
tool_names =
    codes "ETAS_HOST_TOOL_HTTP"
    ∷ codes "ETAS_HOST_TOOL_MCP"
    ∷ codes "ETAS_HOST_TOOL_PROCESS"
    ∷ codes "ETAS_HOST_TOOL_ALLOW_PRIVATE"
    ∷ []

module _ (host : Host) where
  unfoldable pub override_model : Env → Update host
  unfolding get
  override_model env c =
      when (contains_any env model_names || (is_some c.model && contains_any env key_names))
        (λ c'.
          host.model_from_env_overrides env c'.model >>= λ m. ok (record c' { model = some m }))
        c

  unfoldable pub override_root : Text → Update host
  unfolding workspace_root_from_path
  override_root path c = workspace_root_from_path host path >>= λ root.
      ok (record c { filesystem_regions = []; workspace_root = some root })

  unfoldable pub override_filesystem : Text → Update host
  unfolding parse_filesystem_mode require_root
  override_filesystem name c = parse_filesystem_mode (some name) >>= λ mode.
      require_root host (record c { filesystem_regions = []; filesystem_mode = mode })

  unfoldable pub override_stores : Env → Update host
  unfolding get parse_memory_mode parse_session_mode
  override_stores env c =
      when (contains_any env (codes "ETAS_HOST_MEMORY" ∷ codes "ETAS_HOST_MEMORY_PATH" ∷ []))
        (λ c'.
          parse_memory_mode (get (codes "ETAS_HOST_MEMORY") env)
            (get (codes "ETAS_HOST_MEMORY_PATH") env)
          >>= λ mode. ok (record c' { memory_mode = mode }))
        c
      >>= when (contains_any env (codes "ETAS_HOST_SESSION" ∷ codes "ETAS_HOST_SESSION_PATH" ∷ []))
          (λ c'.
            parse_session_mode (get (codes "ETAS_HOST_SESSION") env)
              (get (codes "ETAS_HOST_SESSION_PATH") env) c'.session_id
            >>= λ mode. ok (record c' { session_mode = mode }))

  unfoldable pub override_session_id : Text → Update host
  override_session_id id c = ok (record c {
    session_id = some id;
    session_mode = if has_store c.session_mode then c.session_mode else memory;
  })

  unfoldable pub override_approval : Text → Update host
  unfolding parse_approval_mode
  override_approval name c =
      parse_approval_mode (some name) >>= λ mode. ok (record c { approval_mode = mode })

  abbrev pub policy_mode_or : Option Text → CliHostConfig host → Result UsageError PolicyMode
  policy_mode_or none c = ok c.policy_mode
  policy_mode_or (some name) c = parse_policy_mode (some name)

  unfoldable pub override_policy : Env → Update host
  unfolding get parse_policy_mode policy_local_from_env_overrides policy_http_from_env_overrides
  override_policy env c = policy_mode_or (get (codes "ETAS_HOST_POLICY") env) c >>= λ mode.
      policy_local_from_env_overrides mode env >>= λ local.
      policy_http_from_env_overrides host mode env c.policy_http >>= λ http.
      ok (record c { policy_mode = mode; policy_local = local; policy_http = http })

  unfoldable pub override_secret : Text → Update host
  unfolding parse_secret_mode
  override_secret name c =
      parse_secret_mode (some name) >>= λ mode. ok (record c { secret_mode = mode })

  unfoldable pub override_commands : Text → Update host
  unfolding entries
  override_commands allowlist c =
      ok (record c { command_allowed_programs = c.command_allowed_programs ++ entries allowlist })

  unfoldable pub override_isolation : Text → Update host
  unfolding apply_command_profile
  override_isolation isolation =
      apply_command_profile host (record { allow = []; isolation = some isolation })

  unfoldable pub override_network : Text → Update host
  unfolding parse_network_allowlist
  override_network allowlist c = parse_network_allowlist (some allowlist) >>= λ es.
      ok (record c { program_network_allowlist = c.program_network_allowlist ++ es })

  unfoldable pub override_tools : Env → Update host
  unfolding get private_resolution_from_env_override parse_tool_bindings merge_tool_bindings
  override_tools env c =
      private_resolution_from_env_override env (codes "ETAS_HOST_TOOL_ALLOW_PRIVATE")
        c.tool_private_resolution
      >>= λ resolution.
          parse_tool_bindings (get (codes "ETAS_HOST_TOOL_HTTP") env)
            (get (codes "ETAS_HOST_TOOL_MCP") env) (get (codes "ETAS_HOST_TOOL_PROCESS") env)
          >>= λ bindings.
              ok (add_bindings host bindings (record c { tool_private_resolution = resolution }))

  unfoldable pub override_policies : Env → Update host
  unfolding get override_approval override_policy
  override_policies env c =
      on_some (get (codes "ETAS_HOST_APPROVAL") env) override_approval c
      >>= when (contains_any env policy_names) (override_policy env)
      >>= on_some (get (codes "ETAS_HOST_BOUNDARY_POLICY") env) (set_boundary host)

  unfoldable pub override_authority : Env → Update host
  unfolding get override_secret override_commands override_isolation override_network override_tools
  override_authority env c =
      on_some (get (codes "ETAS_HOST_SECRET") env) override_secret c
      >>= on_some (get (codes "ETAS_HOST_COMMAND_ALLOWLIST") env) override_commands
      >>= on_some (get (codes "ETAS_HOST_COMMAND_ISOLATION") env) override_isolation
      >>= on_some (get (codes "ETAS_HOST_NETWORK_ALLOWLIST") env) override_network
      >>= when (contains_any env tool_names) (override_tools env)

  unfoldable pub apply_env_overrides : Env → Update host
  unfolding get override_model override_root override_filesystem override_stores override_session_id
      override_policies override_authority
  apply_env_overrides env c =
      override_model env c
      >>= on_some (get (codes "ETAS_HOST_WORKSPACE_ROOT") env) override_root
      >>= on_some (get (codes "ETAS_HOST_FILESYSTEM") env) override_filesystem
      >>= override_stores env
      >>= on_some (get (codes "ETAS_HOST_SESSION_ID") env) override_session_id
      >>= override_policies env
      >>= override_authority env
