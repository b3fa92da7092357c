-- ===== src/HostConfig/Steady.antt =====
-- The steps of `apply_runtime_profile` of crates/etas_cli/src/command/interpreter/host_config.rs keep a
-- configuration coherent.
use etas.Base.{Text, Bool, Option, none, some}
use etas.Manifest.Schema.{
  RuntimeProfile, RuntimePolicyProfile, RuntimeCommandProfile, RuntimeToolsProfile,
  RuntimeCompilerProfile, RuntimeModelProfile, RuntimeBackendProfile, RuntimeModeProfile,
  RuntimeNetworkProfile,
}
use etas.HostConfig.{Env, Host, CliHostConfig}
use etas.HostConfig.Modes.{
  or, parse_policy_mode, parse_approval_mode, parse_secret_mode, memory_mode_from_profile,
  session_mode_from_profile,
}
use etas.HostConfig.Network.{parse_cli_network_allowlist}
use etas.HostConfig.Tools.{tool_bindings_from_profile}
use etas.HostConfig.Policy.{policy_local_from_rules, policy_http_from_profile}
use etas.HostConfig.Compiler.{compiler_from_profile}
use etas.HostConfig.Kept.{kept, Keeps, Kept-then, Kept-value, Keeps-on_some}
use etas.HostConfig.Profile.{
  apply_policy_profile, apply_command_profile, apply_tools_profile, isolation_of, set_isolation,
  set_tool_resolution, Update,
}
use etas.HostConfig.Sources.{
  apply_compiler, apply_model, apply_memory, apply_session, apply_approval, apply_network,
  apply_secret, set_boundary, apply_before, apply_after, apply_runtime_profile,
}
use etas.HostConfig.Coherent.{IsCoherent, Keeps-apply_filesystem}

module _ (host : Host) where
  -- A step that keeps a coherent configuration coherent.
  abbrev pub Steady : Update host → Type 0
  Steady f = Keeps IsCoherent IsCoherent f

  Steady-compiler : (p : RuntimeCompilerProfile) → Steady (apply_compiler host p)
  unfolding apply_compiler
  Steady-compiler p = record {
    at = λ c h. Kept-value (compiler_from_profile host c.compiler p) _ (λ x. kept h);
  }

  Steady-model : (env : Env) (p : RuntimeModelProfile) → Steady (apply_model host env p)
  unfolding apply_model
  Steady-model env p = record {
    at = λ c h. Kept-value (host.model_from_runtime_profile p env c.model) _ (λ m. kept h);
  }

  Steady-memory : (p : RuntimeBackendProfile) → Steady (apply_memory host p)
  unfolding apply_memory
  Steady-memory p = record { at = λ c h. Kept-value (memory_mode_from_profile p) _ (λ m. kept h) }

  Steady-session : (p : RuntimeBackendProfile) → Steady (apply_session host p)
  unfolding apply_session
  Steady-session p = record {
    at = λ c h. Kept-value (session_mode_from_profile p (or p.id c.session_id)) _ (λ m. kept h);
  }

  pub Steady-policy :
      (p : RuntimePolicyProfile) (env : Env) → Steady (apply_policy_profile host p env)
  unfolding apply_policy_profile
  Steady-policy p env = record {
    at = λ c h. Kept-value (parse_policy_mode p.mode) _ (λ mode.
        Kept-value (policy_local_from_rules mode p.rules) _
          (λ local. Kept-value (policy_http_from_profile host mode p env) _ (λ http. kept h)));
  }

  Steady-approval : (p : RuntimeModeProfile) → Steady (apply_approval host p)
  unfolding apply_approval
  Steady-approval p = record { at = λ c h. Kept-value (parse_approval_mode p.mode) _ (λ m. kept h) }

  pub Steady-network : (p : RuntimeNetworkProfile) → Steady (apply_network host p)
  unfolding apply_network
  Steady-network p = record {
    at = λ c h. Kept-value (parse_cli_network_allowlist p.allow) _ (λ es. kept h);
  }

  Steady-secret : (p : RuntimeModeProfile) → Steady (apply_secret host p)
  unfolding apply_secret
  Steady-secret p = record { at = λ c h. Kept-value (parse_secret_mode p.mode) _ (λ m. kept h) }

  pub Steady-isolation : (mode : Text) → Steady (set_isolation host mode)
  Steady-isolation mode = record { at = λ c h. Kept-value (isolation_of mode) _ (λ i. kept h) }

  pub Steady-command : (p : RuntimeCommandProfile) → Steady (apply_command_profile host p)
  unfolding apply_command_profile
  Steady-command p = record {
    at = λ c h.
        Kept-then ((Keeps-on_some p.isolation (set_isolation host) Steady-isolation).at c h)
          (record { at = λ c' k. kept k });
  }

  Steady-bindings : (p : RuntimeToolsProfile) → Steady (apply_tools_profile host p)
  unfolding apply_tools_profile
  Steady-bindings p = record {
    at = λ c h.
        Kept-value (tool_bindings_from_profile p) _ (λ bs. kept (resolved p.allow_private c h));
  }
    where
      resolved :
          (flag : Option Bool) (c : CliHostConfig host)
          → IsCoherent c
          → IsCoherent (set_tool_resolution host flag c)
      resolved none c h = h
      resolved (some b) c h = h

  pub Steady-boundary : (policy : Text) → Steady (set_boundary host policy)
  Steady-boundary policy = record { at = λ c h. kept h }

  pub Steady-runtime_profile :
      (p : RuntimeProfile) (base_dir : Text) (env : Env)
      → Steady (apply_runtime_profile host p base_dir env)
  unfolding apply_runtime_profile apply_before apply_after
  Steady-runtime_profile p base_dir env = record {
    at = λ c h.
        let compiler = (Keeps-on_some p.compiler _ Steady-compiler).at c h in
        let model = Kept-then compiler (Keeps-on_some p.model _ (Steady-model env)) in
        let memory = Kept-then model (Keeps-on_some p.memory _ Steady-memory) in
        let session = Kept-then memory (Keeps-on_some p.session _ Steady-session) in
        let policy = Kept-then session (
          Keeps-on_some p.policy (λ q. apply_policy_profile host q env)
            (λ q. Steady-policy q env)) in
        let approval = Kept-then policy (Keeps-on_some p.approval _ Steady-approval) in
        let network = Kept-then approval (Keeps-on_some p.network _ Steady-network) in
        let files =
          Kept-then network (Keeps-on_some p.filesystem _ (Keeps-apply_filesystem host base_dir)) in
        Kept-then files (record {
          at = λ c' h'.
              let secret = (Keeps-on_some p.secret _ Steady-secret).at c' h' in
              let command = Kept-then secret (Keeps-on_some p.command _ Steady-command) in
              let tools = Kept-then command (Keeps-on_some p.tools _ Steady-bindings) in
              Kept-then tools (Keeps-on_some p.boundary_policy _ Steady-boundary);
        });
  }
