-- ===== src/HostConfig/Profiles.antt =====
-- A configuration from profiles: `from_runtime_profile_at` of
-- crates/etas_cli/src/command/interpreter/host_config.rs and the lists that it closes.
use etas.Base.{Text, Option, none, some, List, [], ◌∷◌, ◌++◌}
use etas.Base.Sort.{sort_by, dedup_by}
use etas.Base.{same_text}
use etas.Environment.Graph.{sort}
use etas.Diagnostics.{Result, ok, ◌>>=◌}
use etas.Manifest.Schema.{RuntimeProfile}
use etas.HostConfig.{
  UsageError, Env, NetworkEndpoint, CliToolBinding, http_tool, mcp_tool, process_tool,
  CliPolicyHttpConfig, Host, CliHostConfig,
}
use etas.HostConfig.Network.{
  network_endpoint_from_base_url, parse_cli_network_allowlist, sort_dedup_network_allowlist,
}
use etas.HostConfig.Profile.{on_some, none_config, Update, validate_command_isolation}
use etas.HostConfig.Sources.{apply_runtime_profile, apply_network}
use etas.HostConfig.Overrides.{apply_env_overrides}

module _ (host : Host) where
  abbrev pub model_endpoints : Option host.Model → List NetworkEndpoint
  model_endpoints none = []
  model_endpoints (some m) = host.model_endpoint m ∷ []

  abbrev pub policy_endpoints : Option CliPolicyHttpConfig → List NetworkEndpoint
  policy_endpoints none = []
  policy_endpoints (some p) = p.endpoint ∷ []

  abbrev pub tool_endpoint : CliToolBinding → Result UsageError (List NetworkEndpoint)
  tool_endpoint (process_tool name program) = ok []
  tool_endpoint (http_tool name url) = network_endpoint_from_base_url url >>= λ e. ok (e ∷ [])
  tool_endpoint (mcp_tool name url) = network_endpoint_from_base_url url >>= λ e. ok (e ∷ [])

  unfoldable pub tool_endpoints : List CliToolBinding → Result UsageError (List NetworkEndpoint)
  unfolding network_endpoint_from_base_url
  tool_endpoints [] = ok []
  tool_endpoints (b ∷ bs) = tool_endpoint b >>= λ es. tool_endpoints bs >>= λ rest. ok (es ++ rest)

  unfoldable pub materialize_adapter_transport_endpoints : Update host
  unfolding tool_endpoints
  materialize_adapter_transport_endpoints c = tool_endpoints c.tool_bindings >>= λ tools.
      ok (record c {
        adapter_transport_allowlist =
            model_endpoints c.model ++ tools ++ policy_endpoints c.policy_http;
      })

  -- `sort` and `dedup` of the three lists
  unfoldable pub sort_lists : CliHostConfig host → CliHostConfig host
  unfolding sort_by dedup_by same_text sort sort_dedup_network_allowlist
  sort_lists c = record c {
    command_allowed_programs = dedup_by same_text (sort c.command_allowed_programs);
    program_network_allowlist = sort_dedup_network_allowlist c.program_network_allowlist;
    adapter_transport_allowlist = sort_dedup_network_allowlist c.adapter_transport_allowlist;
  }

  unfoldable pub from_runtime_profile_at :
      (profile_name : Text) (manifest_profile : Option RuntimeProfile) (manifest_base : Text)
      (local_profile : Option RuntimeProfile) (local_base : Text) (env : Env)
      (allow_net : List Text)
      → Result UsageError (CliHostConfig host)
  unfolding apply_runtime_profile apply_env_overrides parse_cli_network_allowlist
      materialize_adapter_transport_endpoints sort_lists validate_command_isolation
  from_runtime_profile_at name manifest manifest_base local local_base env allow_net =
      on_some manifest (λ p. apply_runtime_profile host p manifest_base env)
        (record (none_config host) { profile_name = some name })
      >>= on_some local (λ p. apply_runtime_profile host p local_base env)
      >>= apply_env_overrides host env
      >>= apply_network host (record { allow = allow_net })
      >>= materialize_adapter_transport_endpoints
      >>= λ c. validate_command_isolation host (sort_lists c)
