-- ===== src/HostConfig/Started.antt =====
-- Every configuration that `runtime_config_for_run` of
-- crates/etas_cli/src/command/interpreter/host_config.rs gives is settled, wherever it is from.
use etas.Base.{
  ℕ, Text, codes, Option, none, some, is_some, is_none, List, ◌≡◌, ◌&&◌, ◌||◌, Bool-cases, inl, inr,
}
use etas.Base.TreeMap.{get}
use etas.Base.{All, refl, sym, []}
use mathlib.Core.Path.{subst}
use etas.Diagnostics.{Result, ok, err, fail_if}
use etas.Manifest.Schema.{RuntimeExecutionProfile}
use etas.HostConfig.{
  UsageError, project_required, unknown_profile, public_only, Env, Host, CliHostConfig,
}
use etas.HostConfig.Modes.{
  parse_filesystem_mode, parse_memory_mode, parse_approval_mode, parse_policy_mode,
  parse_session_mode, parse_secret_mode,
}
use etas.HostConfig.Network.{parse_network_allowlist, parse_cli_network_allowlist}
use etas.HostConfig.Tools.{parse_tool_bindings}
use etas.HostConfig.Limits.{apply_execution_config, parse_cpu_threads}
use etas.HostConfig.Profile.{has_access, none_config}
use etas.HostConfig.Profiles.{tool_endpoints}
use etas.HostConfig.Legacy.{
  Variables, optional_env, private_resolution_from_env_var, policy_local_from_environment,
  policy_http_from_environment, model_from_environment, root_of, legacy_tools, legacy_files,
  legacy_policies, legacy_network, legacy_isolation, from_legacy_environment,
  from_environment_with_allow_net,
}
use etas.HostConfig.Run.{
  Project, RunArguments, chosen_profile, no_execution, with_encoding, set_threads, config_of,
  config_for, runtime_config_for_run,
}
use etas.HostConfig.Execution.{apply_execution_config_sound}
use etas.HostConfig.Kept.{Kept, kept, failed, Keeps, Kept-then, Kept-value, of-Kept}
use etas.HostConfig.Coherent.{Fits-checked}
use etas.HostConfig.Steady.{Steady, Steady-command}
use etas.HostConfig.Settled.{IsSettled, Keeps-validate, from_runtime_profile_at-IsSettled}
use etas.HostConfig.Grants.{granted, sandbox}
use etas.HostConfig.Authority.{IsAllowed, IsDocumented}
use etas.HostConfig.Backed.{granted-IsAllowed}

module _ (host : Host) where
  Steady-legacy_tools : (env : Env) (vars : Variables) → Steady host (legacy_tools host env vars)
  unfolding legacy_tools
  Steady-legacy_tools env vars = record {
    at = λ c h. Kept-value (optional_env vars (codes "ETAS_HOST_COMMAND_ALLOWLIST")) _ (λ allowlist.
        Kept-value (optional_env vars (codes "ETAS_HOST_TOOL_HTTP")) _ (λ http.
          Kept-value (optional_env vars (codes "ETAS_HOST_TOOL_MCP")) _ (λ mcp.
            Kept-value (optional_env vars (codes "ETAS_HOST_TOOL_PROCESS")) _ (λ process.
              Kept-value (parse_tool_bindings http mcp process) _ (λ bindings.
                Kept-value
                  (private_resolution_from_env_var vars (codes "ETAS_HOST_TOOL_ALLOW_PRIVATE")
                    public_only)
                  _
                  (λ resolution.
                    Kept-value (model_from_environment host env) _ (λ model. kept h)))))));
  }

  Steady-legacy_files : (vars : Variables) → Steady host (legacy_files host vars)
  unfolding legacy_files
  Steady-legacy_files vars = record {
    at = λ c h. Kept-value (optional_env vars (codes "ETAS_HOST_WORKSPACE_ROOT")) _ (λ path.
        Kept-value (root_of host path) _ (λ root.
          Kept-value (optional_env vars (codes "ETAS_HOST_FILESYSTEM")) _ (λ name.
            Kept-value (parse_filesystem_mode name) _ (λ mode.
              elim (Bool-cases (has_access mode && is_none root)) [
                | inl t ↦ rw t failed
                | inr f ↦ rw f (kept (Fits-checked mode root [] f refl))
              ]))));
  }

  Steady-legacy_policies : (vars : Variables) → Steady host (legacy_policies host vars)
  unfolding legacy_policies
  Steady-legacy_policies vars = record {
    at = λ c h. Kept-value (optional_env vars (codes "ETAS_HOST_MEMORY")) _ (λ memory_name.
        Kept-value (optional_env vars (codes "ETAS_HOST_MEMORY_PATH")) _ (λ memory_path.
          Kept-value (parse_memory_mode memory_name memory_path) _ (λ memory_mode.
            Kept-value (optional_env vars (codes "ETAS_HOST_APPROVAL")) _ (λ approval_name.
              Kept-value (parse_approval_mode approval_name) _ (λ approval.
                Kept-value (optional_env vars (codes "ETAS_HOST_POLICY")) _ (λ policy_name.
                  Kept-value (parse_policy_mode policy_name) _ (λ mode.
                    Kept-value (policy_local_from_environment vars mode) _ (λ local.
                      Kept-value (policy_http_from_environment host vars mode) _ (λ http.
                        Kept-value (optional_env vars (codes "ETAS_HOST_BOUNDARY_POLICY")) _
                          (λ boundary.
                            Kept-value (optional_env vars (codes "ETAS_HOST_SESSION_ID")) _
                              (λ session_id.
                                Kept-value (optional_env vars (codes "ETAS_HOST_SESSION")) _
                                  (λ session_name.
                                    Kept-value (optional_env vars (codes "ETAS_HOST_SESSION_PATH"))
                                      _
                                      (λ session_path.
                                        Kept-value
                                          (parse_session_mode session_name session_path session_id)
                                          _
                                          (λ session.
                                            Kept-value
                                              (optional_env vars (codes "ETAS_HOST_SECRET")) _
                                              (λ secret_name.
                                                Kept-value (parse_secret_mode secret_name) _
                                                  (λ secret. kept h))))))))))))))));
  }

  Steady-legacy_network : (vars : Variables) → Steady host (legacy_network host vars)
  unfolding legacy_network
  Steady-legacy_network vars = record {
    at = λ c h. Kept-value (optional_env vars (codes "ETAS_HOST_NETWORK_ALLOWLIST")) _ (λ allowlist.
        Kept-value (parse_network_allowlist allowlist) _
          (λ endpoints. Kept-value (tool_endpoints host c.tool_bindings) _ (λ tools. kept h)));
  }

  Steady-legacy_isolation : (vars : Variables) → Steady host (legacy_isolation host vars)
  unfolding legacy_isolation
  Steady-legacy_isolation vars = record {
    at = λ c h.
        Kept-value (optional_env vars (codes "ETAS_HOST_COMMAND_ISOLATION")) _ (λ isolation.
          (Steady-command host (record { allow = []; isolation = isolation })).at c h);
  }

  Kept-legacy :
      (env : Env) (vars : Variables) → Kept IsSettled (from_legacy_environment host env vars)
  unfolding from_legacy_environment
  Kept-legacy env vars =
      let tools = (Steady-legacy_tools env vars).at (none_config host) tt in
      let files = Kept-then tools (Steady-legacy_files vars) in
      let policies = Kept-then files (Steady-legacy_policies vars) in
      let network = Kept-then policies (Steady-legacy_network vars) in
      let isolation = Kept-then network (Steady-legacy_isolation vars) in
      Kept-then isolation (Keeps-validate host)

  Kept-environment :
      (allow_net : List Text) (env : Env) (vars : Variables)
      → Kept IsSettled (from_environment_with_allow_net host allow_net env vars)
  unfolding from_environment_with_allow_net
  Kept-environment allow_net env vars = Kept-then (Kept-legacy env vars) (record {
    at = λ c s.
        Kept-value (parse_cli_network_allowlist allow_net) _
          (λ es. kept (record { coherent = s.coherent; isolated = s.isolated }));
  })

  Kept-of :
      (P : CliHostConfig host → Type 0) (r : Result UsageError (CliHostConfig host))
      → ((c : CliHostConfig host) → r ≡ ok c → P c)
      → Kept P r
  Kept-of P (ok c) h = kept (h c refl)
  Kept-of P (err e) h = failed

  Keeps-execution :
      (manifest local : RuntimeExecutionProfile) (cli : Option ℕ)
      → Keeps IsSettled IsSettled (apply_execution_config host manifest local cli)
  Keeps-execution manifest local cli = record {
    at = λ c s. Kept-of IsSettled (apply_execution_config host manifest local cli c) (λ c' e.
        let x = apply_execution_config_sound host manifest local cli c c' e in
        subst IsSettled (sym x.applied) (record { coherent = s.coherent; isolated = s.isolated }));
  }

  Kept-config_of :
      (args : RunArguments) (project : Project) (env : Env) (vars : Variables) (name : Option Text)
      → Kept IsSettled (config_of host args project env vars name)
  unfolding config_of
  Kept-config_of args project env vars none = Kept-environment args.allow_net env vars
  Kept-config_of args project env vars (some name) =
      let manifest = get name project.runtime.profiles in
      let local = get name project.local_runtime.profiles in
      Kept-value (fail_if (is_none manifest && is_none local) (unknown_profile name)) _ (λ _.
        Kept-of IsSettled _ (
          from_runtime_profile_at-IsSettled host name manifest project.root local project.local_base
            env args.allow_net))

  Kept-config_for :
      (args : RunArguments) (project : Option (Result UsageError Project)) (env : Env)
      (vars : Variables)
      → Kept IsSettled (config_for host args project env vars)
  unfolding config_for
  Kept-config_for args none env vars =
      Kept-value
        (fail_if (is_some args.requested_profile || is_some args.runtime_config) project_required) _
        (λ _.
          Kept-then (Kept-environment args.allow_net env vars)
            (Keeps-execution no_execution no_execution args.max_call_depth))
  Kept-config_for args (some found) env vars = Kept-value found _ (λ project.
      Kept-then (Kept-config_of args project env vars (chosen_profile args project)) (
        Keeps-execution project.runtime.execution project.local_runtime.execution
          args.max_call_depth))

  Keeps-threads :
      (parallelism : Option ℕ) (cpu_threads : Option Text)
      → Keeps IsSettled IsSettled (set_threads host parallelism cpu_threads)
  unfolding set_threads
  Keeps-threads parallelism cpu_threads = record {
    at = λ c s.
        Kept-value (parse_cpu_threads parallelism cpu_threads) _
          (λ n. kept (record { coherent = s.coherent; isolated = s.isolated }));
  }

  -- Whatever the arguments, the project and the environment are, a configuration that
  -- `runtime_config_for_run` gives is settled, and if the host library's policies for a workspace are
  -- as documented, every grant that a program runs with under it is backed by its sandbox.
  pub runtime_config_for_run-IsAllowed :
      IsDocumented host
      → (parallelism : Option ℕ) (args : RunArguments)
        (project : Option (Result UsageError Project)) (env : Env) (vars : Variables)
        (c : CliHostConfig host)
      → runtime_config_for_run host parallelism args project env vars ≡ ok c
      → IsSettled c × All (IsAllowed c (sandbox host c)) (granted c)
  unfolding runtime_config_for_run
  runtime_config_for_run-IsAllowed doc parallelism args project env vars c e =
      let settled =
        of-Kept
          (Kept-value (with_encoding host args.model_output_encoding env) _ (λ env'.
            Kept-then (Kept-config_for args project env' vars)
              (Keeps-threads parallelism args.cpu_threads)))
          e in
      (settled, granted-IsAllowed host doc c settled)
