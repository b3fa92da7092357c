-- ===== src/HostConfig/Overridden.antt =====
-- The steps of `apply_env_overrides` of crates/etas_cli/src/command/interpreter/host_config.rs keep a
-- configuration coherent.
use etas.Base.{Text, codes, some, is_some, refl, ◌||◌, ◌&&◌}
use etas.Base.{[], ◌∷◌}
use etas.Base.TreeMap.{get}
use etas.HostConfig.{Env, Host}
use etas.HostConfig.Modes.{
  parse_approval_mode, parse_secret_mode, parse_memory_mode, parse_session_mode,
  parse_filesystem_mode,
}
use etas.HostConfig.Network.{parse_network_allowlist}
use etas.HostConfig.Tools.{parse_tool_bindings}
use etas.HostConfig.Policy.{
  policy_local_from_env_overrides, policy_http_from_env_overrides,
  private_resolution_from_env_override,
}
use etas.HostConfig.Kept.{kept, Kept-then, Kept-value, Keeps-when}
use etas.HostConfig.Profile.{workspace_root_from_path, contains_any}
use etas.HostConfig.Overrides.{
  model_names, key_names, override_model, override_root, override_filesystem, override_stores,
  override_session_id, override_approval, override_policy, override_secret, override_commands,
  override_isolation, override_network, override_tools, policy_mode_or,
}
use etas.HostConfig.Coherent.{Fits-root, Keeps-require_root}
use etas.HostConfig.Steady.{Steady, Steady-command}

module _ (host : Host) where
  pub Steady-override_model : (env : Env) → Steady host (override_model host env)
  unfolding override_model
  Steady-override_model env = record {
    at = λ c h.
        (Keeps-when
            (contains_any env model_names || (is_some c.model && contains_any env key_names)) _
            (record {
              at =
                  λ c' h'. Kept-value (host.model_from_env_overrides env c'.model) _ (λ m. kept h');
            })).at
          c h;
  }

  pub Steady-override_root : (path : Text) → Steady host (override_root host path)
  unfolding override_root
  Steady-override_root path = record {
    at = λ c h.
        Kept-value (workspace_root_from_path host path) _
          (λ root. kept (Fits-root c.filesystem_mode (some root) [] refl refl));
  }

  pub Steady-override_filesystem : (name : Text) → Steady host (override_filesystem host name)
  unfolding override_filesystem
  Steady-override_filesystem name = record {
    at = λ c h. Kept-value (parse_filesystem_mode (some name)) _ (λ mode.
        (Keeps-require_root host).at (record c { filesystem_regions = []; filesystem_mode = mode })
          refl);
  }

  pub Steady-override_stores : (env : Env) → Steady host (override_stores host env)
  unfolding override_stores
  Steady-override_stores env = record {
    at = λ c h.
        Kept-then
          ((Keeps-when
              (contains_any env (codes "ETAS_HOST_MEMORY" ∷ codes "ETAS_HOST_MEMORY_PATH" ∷ [])) _
              (record {
                at = λ c' h'.
                    Kept-value
                      (parse_memory_mode (get (codes "ETAS_HOST_MEMORY") env)
                        (get (codes "ETAS_HOST_MEMORY_PATH") env))
                      _ (λ m. kept h');
              })).at
            c h)
          (Keeps-when
            (contains_any env (codes "ETAS_HOST_SESSION" ∷ codes "ETAS_HOST_SESSION_PATH" ∷ [])) _
            (record {
              at = λ c' h'.
                  Kept-value
                    (parse_session_mode (get (codes "ETAS_HOST_SESSION") env)
                      (get (codes "ETAS_HOST_SESSION_PATH") env) c'.session_id)
                    _ (λ m. kept h');
            }));
  }

  pub Steady-override_session_id : (id : Text) → Steady host (override_session_id host id)
  unfolding override_session_id
  Steady-override_session_id id = record { at = λ c h. kept h }

  pub Steady-override_approval : (name : Text) → Steady host (override_approval host name)
  unfolding override_approval
  Steady-override_approval name = record {
    at = λ c h. Kept-value (parse_approval_mode (some name)) _ (λ m. kept h);
  }

  pub Steady-override_policy : (env : Env) → Steady host (override_policy host env)
  unfolding override_policy
  Steady-override_policy env = record {
    at = λ c h. Kept-value (policy_mode_or host (get (codes "ETAS_HOST_POLICY") env) c) _ (λ mode.
        Kept-value (policy_local_from_env_overrides mode env) _ (λ local.
          Kept-value (policy_http_from_env_overrides host mode env c.policy_http) _
            (λ http. kept h)));
  }

  pub Steady-override_secret : (name : Text) → Steady host (override_secret host name)
  unfolding override_secret
  Steady-override_secret name = record {
    at = λ c h. Kept-value (parse_secret_mode (some name)) _ (λ m. kept h);
  }

  pub Steady-override_commands : (allowlist : Text) → Steady host (override_commands host allowlist)
  unfolding override_commands
  Steady-override_commands allowlist = record { at = λ c h. kept h }

  pub Steady-override_isolation : (mode : Text) → Steady host (override_isolation host mode)
  unfolding override_isolation
  Steady-override_isolation mode =
      Steady-command host (record { allow = []; isolation = some mode })

  pub Steady-override_network : (allowlist : Text) → Steady host (override_network host allowlist)
  unfolding override_network
  Steady-override_network allowlist = record {
    at = λ c h. Kept-value (parse_network_allowlist (some allowlist)) _ (λ es. kept h);
  }

  pub Steady-override_tools : (env : Env) → Steady host (override_tools host env)
  unfolding override_tools
  Steady-override_tools env = record {
    at = λ c h.
        Kept-value
          (private_resolution_from_env_override env (codes "ETAS_HOST_TOOL_ALLOW_PRIVATE")
            c.tool_private_resolution)
          _
          (λ resolution.
            Kept-value
              (parse_tool_bindings (get (codes "ETAS_HOST_TOOL_HTTP") env)
                (get (codes "ETAS_HOST_TOOL_MCP") env) (get (codes "ETAS_HOST_TOOL_PROCESS") env))
              _ (λ bindings. kept h));
  }
