-- ===== src/HostConfig/Legacy.antt =====
-- A configuration from the environment alone: `from_legacy_environment`,
-- `from_environment_with_allow_net` and what they call in
-- crates/etas_cli/src/command/interpreter/host_config.rs.
use etas.Base.{Text, codes, Option, none, some, is_some, is_none, ◌&&◌, if◌then◌else◌}
use etas.Base.{same_text, List, [], ◌∷◌, ◌++◌}
use etas.Base.Sort.{dedup_by}
use etas.Base.TreeMap.{get}
use etas.Environment.Graph.{sort}
use etas.Diagnostics.{Result, ok, err, ◌>>=◌, ok_or, fail_if}
use etas.HostConfig.{
  UsageError, not_unicode, variable_required, encoding_without_model, root_required, Env,
  PolicyMode, PrivateResolutionPolicy, public_only, RetryPolicy, LocalPolicyRule,
  CliPolicyHttpConfig, Host, CliHostConfig,
}
use etas.HostConfig.Texts.{entries}
use etas.HostConfig.Modes.{
  parse_filesystem_mode, parse_memory_mode, parse_approval_mode, parse_policy_mode,
  parse_session_mode, parse_secret_mode, parse_private_resolution_flag,
  private_resolution_from_flag,
}
use etas.HostConfig.Network.{
  network_endpoint_from_base_url, parse_network_allowlist, parse_cli_network_allowlist,
  sort_dedup_network_allowlist,
}
use etas.HostConfig.Tools.{tool_programs, parse_tool_bindings}
use etas.HostConfig.Policy.{
  is_local_static, is_http, some_rules, u8_max, u64_max, number_or, retry_policy_from_parts,
  default_transport_retry, auth_of, http_client,
}
use etas.HostConfig.Profile.{
  has_access, none_config, Update, workspace_root_from_path, apply_command_profile,
  validate_command_isolation,
}
use etas.HostConfig.Profiles.{model_endpoints, policy_endpoints, tool_endpoints}

-- What `std::env::var` gives.
pub data Variable : Type 0 where
  unset unreadable : Variable
  value_of : Text → Variable

abbrev pub Variables : Type 0
Variables = Text → Variable

unfoldable pub read_variable : (name : Text) → Variable → Result UsageError (Option Text)
read_variable name unset = ok none
read_variable name unreadable = err (not_unicode name)
read_variable name (value_of []) = ok none
read_variable name (value_of (c ∷ cs)) = ok (some (c ∷ cs))

unfoldable pub optional_env : Variables → Text → Result UsageError (Option Text)
unfolding read_variable
optional_env vars name = read_variable name (vars name)

unfoldable pub required_env : Variables → Text → Result UsageError Text
unfolding optional_env
required_env vars name = optional_env vars name >>= λ value. ok_or value (variable_required name)

unfoldable pub private_resolution_from_env_var :
    Variables → Text → PrivateResolutionPolicy → Result UsageError PrivateResolutionPolicy
unfolding optional_env parse_private_resolution_flag
private_resolution_from_env_var vars name base = optional_env vars name >>= λ value. elim value [
  | none ↦ ok base
  | some v ↦ parse_private_resolution_flag name v >>= λ b. ok (private_resolution_from_flag b)
]

unfoldable pub retry_policy_from_env_vars :
    Variables → (attempts_name delay_name : Text) → RetryPolicy → Result UsageError RetryPolicy
unfolding optional_env number_or retry_policy_from_parts
retry_policy_from_env_vars vars attempts_name delay_name base =
    optional_env vars attempts_name >>= λ a.
    number_or u8_max attempts_name a base.attempts >>= λ attempts.
    optional_env vars delay_name >>= λ d.
    number_or u64_max delay_name d base.delay_ms >>= λ delay_ms.
    retry_policy_from_parts attempts delay_ms

unfoldable pub policy_local_from_environment :
    Variables → PolicyMode → Result UsageError (Option (List LocalPolicyRule))
unfolding required_env some_rules entries
policy_local_from_environment vars mode =
    if is_local_static mode
    then (required_env vars (codes "ETAS_HOST_POLICY_RULES") >>= λ rules.
        some_rules (entries rules))
    else ok none

abbrev pub list_or_empty : Option Text → List Text
list_or_empty none = []
list_or_empty (some value) = entries value

module _ (host : Host) where
  unfoldable pub policy_http_from_environment :
      Variables → PolicyMode → Result UsageError (Option CliPolicyHttpConfig)
  unfolding required_env optional_env network_endpoint_from_base_url retry_policy_from_env_vars
      private_resolution_from_env_var http_client
  policy_http_from_environment vars mode =
      if is_http mode
      then (required_env vars (codes "ETAS_HOST_POLICY_URL") >>= λ base_url.
          network_endpoint_from_base_url base_url >>= λ endpoint.
          optional_env vars (codes "ETAS_HOST_POLICY_TOKEN") >>= λ token.
          optional_env vars (codes "ETAS_HOST_POLICY_PATH") >>= λ path.
          retry_policy_from_env_vars vars (codes "ETAS_HOST_POLICY_RETRY_ATTEMPTS")
            (codes "ETAS_HOST_POLICY_RETRY_DELAY_MS") default_transport_retry
          >>= λ retry.
              private_resolution_from_env_var vars (codes "ETAS_HOST_POLICY_ALLOW_PRIVATE")
                public_only
              >>= λ resolution.
                  http_client host base_url endpoint resolution retry (auth_of token) path)
      else ok none

  unfoldable pub model_from_environment : Env → Result UsageError (Option host.Model)
  unfolding get
  model_from_environment env =
      if is_some (get (codes "ETAS_HOST_MODEL_ADAPTER") env)
      then (host.model_from_env_overrides env none >>= λ m. ok (some m))
      else fail_if (is_some (get (codes "ETAS_HOST_MODEL_OUTPUT_ENCODING") env))
          encoding_without_model
        >>= λ _. ok none

  abbrev pub root_of : Option Text → Result UsageError (Option host.Root)
  root_of none = ok none
  root_of (some path) = workspace_root_from_path host path >>= λ root. ok (some root)

  -- Commands, tools, the model and the files.
  unfoldable pub legacy_tools : Env → Variables → Update host
  unfolding optional_env parse_tool_bindings private_resolution_from_env_var entries
      model_from_environment sort dedup_by same_text
  legacy_tools env vars c = optional_env vars (codes "ETAS_HOST_COMMAND_ALLOWLIST") >>= λ allowlist.
      optional_env vars (codes "ETAS_HOST_TOOL_HTTP") >>= λ http.
      optional_env vars (codes "ETAS_HOST_TOOL_MCP") >>= λ mcp.
      optional_env vars (codes "ETAS_HOST_TOOL_PROCESS") >>= λ process.
      parse_tool_bindings http mcp process >>= λ bindings.
      private_resolution_from_env_var vars (codes "ETAS_HOST_TOOL_ALLOW_PRIVATE") public_only
      >>= λ resolution. model_from_environment env >>= λ model. ok (record c {
        command_allowed_programs =
            dedup_by same_text (sort (list_or_empty allowlist ++ tool_programs bindings));
        tool_bindings = bindings;
        tool_private_resolution = resolution;
        model = model;
      })

  unfoldable pub legacy_files : Variables → Update host
  unfolding optional_env workspace_root_from_path parse_filesystem_mode
  legacy_files vars c = optional_env vars (codes "ETAS_HOST_WORKSPACE_ROOT") >>= λ path.
      root_of path >>= λ root. optional_env vars (codes "ETAS_HOST_FILESYSTEM") >>= λ name.
      parse_filesystem_mode name >>= λ mode.
      fail_if (has_access mode && is_none root) root_required >>= λ _.
      ok (record c { workspace_root = root; filesystem_mode = mode; filesystem_regions = [] })

  -- Stores, approval, policy, session and secrets.
  unfoldable pub legacy_policies : Variables → Update host
  unfolding optional_env parse_memory_mode parse_approval_mode parse_policy_mode
      policy_local_from_environment policy_http_from_environment parse_session_mode
      parse_secret_mode
  legacy_policies vars c = optional_env vars (codes "ETAS_HOST_MEMORY") >>= λ memory_name.
      optional_env vars (codes "ETAS_HOST_MEMORY_PATH") >>= λ memory_path.
      parse_memory_mode memory_name memory_path >>= λ memory_mode.
      optional_env vars (codes "ETAS_HOST_APPROVAL") >>= λ approval_name.
      parse_approval_mode approval_name >>= λ approval.
      optional_env vars (codes "ETAS_HOST_POLICY") >>= λ policy_name.
      parse_policy_mode policy_name >>= λ mode. policy_local_from_environment vars mode >>= λ local.
      policy_http_from_environment vars mode >>= λ http.
      optional_env vars (codes "ETAS_HOST_BOUNDARY_POLICY") >>= λ boundary.
      optional_env vars (codes "ETAS_HOST_SESSION_ID") >>= λ session_id.
      optional_env vars (codes "ETAS_HOST_SESSION") >>= λ session_name.
      optional_env vars (codes "ETAS_HOST_SESSION_PATH") >>= λ session_path.
      parse_session_mode session_name session_path session_id >>= λ session.
      optional_env vars (codes "ETAS_HOST_SECRET") >>= λ secret_name.
      parse_secret_mode secret_name >>= λ secret. ok (record c {
        memory_mode = memory_mode;
        approval_mode = approval;
        policy_mode = mode;
        policy_local = local;
        policy_http = http;
        boundary_policy_ref = boundary;
        session_id = session_id;
        session_mode = session;
        secret_mode = secret;
      })

  unfoldable pub legacy_network : Variables → Update host
  unfolding optional_env parse_network_allowlist tool_endpoints sort_dedup_network_allowlist
  legacy_network vars c = optional_env vars (codes "ETAS_HOST_NETWORK_ALLOWLIST") >>= λ allowlist.
      parse_network_allowlist allowlist >>= λ endpoints.
      tool_endpoints host c.tool_bindings >>= λ tools. ok (record c {
        program_network_allowlist = sort_dedup_network_allowlist endpoints;
        adapter_transport_allowlist =
            sort_dedup_network_allowlist
              (model_endpoints host c.model ++ tools ++ policy_endpoints host c.policy_http);
      })

  unfoldable pub legacy_isolation : Variables → Update host
  unfolding optional_env apply_command_profile
  legacy_isolation vars c = optional_env vars (codes "ETAS_HOST_COMMAND_ISOLATION") >>= λ isolation.
      apply_command_profile host (record { allow = []; isolation = isolation }) c

  unfoldable pub from_legacy_environment : Env → Variables → Result UsageError (CliHostConfig host)
  unfolding legacy_tools legacy_files legacy_policies legacy_network legacy_isolation
      validate_command_isolation
  from_legacy_environment env vars =
      legacy_tools env vars (none_config host)
      >>= legacy_files vars
      >>= legacy_policies vars
      >>= legacy_network vars
      >>= legacy_isolation vars
      >>= validate_command_isolation host

  unfoldable pub from_environment_with_allow_net :
      (allow_net : List Text) → Env → Variables → Result UsageError (CliHostConfig host)
  unfolding from_legacy_environment parse_cli_network_allowlist sort_dedup_network_allowlist
  from_environment_with_allow_net allow_net env vars = from_legacy_environment env vars >>= λ c.
      parse_cli_network_allowlist allow_net >>= λ es. ok (record c {
        program_network_allowlist =
            sort_dedup_network_allowlist (c.program_network_allowlist ++ es);
      })
