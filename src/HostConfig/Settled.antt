-- ===== src/HostConfig/Settled.antt =====
-- Every configuration that `from_runtime_profile_at` of
-- crates/etas_cli/src/command/interpreter/host_config.rs gives is coherent, and its commands are
-- isolated by an explicit choice.
use etas.Base.{Text, codes, Option, some, is_empty, ◌≡◌, refl, ◌&&◌, not}
use etas.Base.{◌⊎◌, ◌≢◌, false, Bool-cases, inl, inr, List, [], ◌∷◌}
use etas.Base.TreeMap.{get}
use etas.Diagnostics.{ok}
use etas.Manifest.Schema.{RuntimeProfile}
use etas.HostConfig.{
  Env, CommandIsolation, denied, trusted_unconfined, required, Host, CliHostConfig,
}
use etas.HostConfig.Kept.{
  kept, failed, Keeps, Kept-then, Kept-value, Keeps-on_some, Keeps-when, of-Kept,
}
use etas.HostConfig.Profile.{none_config, is_denied, validate_command_isolation, contains_any}
use etas.HostConfig.Sources.{apply_runtime_profile}
use etas.HostConfig.Overrides.{
  policy_names, tool_names, override_policies, override_authority, apply_env_overrides,
}
use etas.HostConfig.Profiles.{
  tool_endpoints, materialize_adapter_transport_endpoints, sort_lists, from_runtime_profile_at,
}
use etas.HostConfig.Coherent.{IsCoherent}
use etas.HostConfig.Steady.{Steady, Steady-network, Steady-boundary, Steady-runtime_profile}
use etas.HostConfig.Overridden.{
  Steady-override_model, Steady-override_root, Steady-override_filesystem, Steady-override_stores,
  Steady-override_session_id, Steady-override_approval, Steady-override_policy,
  Steady-override_secret, Steady-override_commands, Steady-override_isolation,
  Steady-override_network, Steady-override_tools,
}

module _ (host : Host) where
  Steady-override_policies : (env : Env) → Steady host (override_policies host env)
  unfolding override_policies
  Steady-override_policies env = record {
    at = λ c h.
        let approval =
          (Keeps-on_some (get (codes "ETAS_HOST_APPROVAL") env) _
              (Steady-override_approval host)).at
            c h in
        let policy =
          Kept-then approval
            (Keeps-when (contains_any env policy_names) _ (Steady-override_policy host env)) in
        Kept-then policy
          (Keeps-on_some (get (codes "ETAS_HOST_BOUNDARY_POLICY") env) _ (Steady-boundary host));
  }

  Steady-override_authority : (env : Env) → Steady host (override_authority host env)
  unfolding override_authority
  Steady-override_authority env = record {
    at = λ c h.
        let secret =
          (Keeps-on_some (get (codes "ETAS_HOST_SECRET") env) _ (Steady-override_secret host)).at c
            h in
        let commands = Kept-then secret (
          Keeps-on_some (get (codes "ETAS_HOST_COMMAND_ALLOWLIST") env) _
            (Steady-override_commands host)) in
        let isolation = Kept-then commands (
          Keeps-on_some (get (codes "ETAS_HOST_COMMAND_ISOLATION") env) _
            (Steady-override_isolation host)) in
        let network = Kept-then isolation (
          Keeps-on_some (get (codes "ETAS_HOST_NETWORK_ALLOWLIST") env) _
            (Steady-override_network host)) in
        Kept-then network
          (Keeps-when (contains_any env tool_names) _ (Steady-override_tools host env));
  }

  Steady-env_overrides : (env : Env) → Steady host (apply_env_overrides host env)
  unfolding apply_env_overrides
  Steady-env_overrides env = record {
    at = λ c h.
        let model = (Steady-override_model host env).at c h in
        let root = Kept-then model (
          Keeps-on_some (get (codes "ETAS_HOST_WORKSPACE_ROOT") env) _
            (Steady-override_root host)) in
        let files = Kept-then root (
          Keeps-on_some (get (codes "ETAS_HOST_FILESYSTEM") env) _
            (Steady-override_filesystem host)) in
        let stores = Kept-then files (Steady-override_stores host env) in
        let session = Kept-then stores (
          Keeps-on_some (get (codes "ETAS_HOST_SESSION_ID") env) _
            (Steady-override_session_id host)) in
        let policies = Kept-then session (Steady-override_policies env) in
        Kept-then policies (Steady-override_authority env);
  }

  Steady-endpoints : Steady host (materialize_adapter_transport_endpoints host)
  unfolding materialize_adapter_transport_endpoints
  Steady-endpoints = record {
    at = λ c h. Kept-value (tool_endpoints host c.tool_bindings) _ (λ es. kept h);
  }

module _ {host : Host} where
  -- What `run_options` relies on.
  pub record IsSettled (c : CliHostConfig host) : Type 0 where
    pub coherent : IsCoherent c
    pub isolated : (c.command_allowed_programs ≡ []) ⊎ (c.command_isolation ≢ denied)

module _ (host : Host) where
  isolated_of :
      (programs : List Text) (i : CommandIsolation)
      → (not (is_empty programs) && is_denied i) ≡ false
      → (programs ≡ []) ⊎ (i ≢ denied)
  isolated_of [] i h = inl refl
  isolated_of (p ∷ ps) denied h = cc
  isolated_of (p ∷ ps) trusted_unconfined h = inr (λ e. cc)
  isolated_of (p ∷ ps) (required b) h = inr (λ e. cc)

  pub Keeps-validate : Keeps IsCoherent IsSettled (validate_command_isolation host)
  unfolding validate_command_isolation
  Keeps-validate = record {
    at = λ c h.
        elim (Bool-cases
          (not (is_empty c.command_allowed_programs) && is_denied c.command_isolation)) [
            | inl t ↦ rw t failed
            | inr f ↦ rw f (
                kept (record {
                  coherent = h;
                  isolated = isolated_of c.command_allowed_programs c.command_isolation f;
                }))
          ];
  }

  -- Whatever the profiles, the environment and the command line say: a configuration that
  -- `from_runtime_profile_at` gives has a workspace and no regions if a mode gives access to files,
  -- and an isolation that is chosen if programs may run.
  pub from_runtime_profile_at-IsSettled :
      (name : Text) (manifest : Option RuntimeProfile) (manifest_base : Text)
      (local : Option RuntimeProfile) (local_base : Text) (env : Env) (allow_net : List Text)
      (c : CliHostConfig host)
      → from_runtime_profile_at host name manifest manifest_base local local_base env allow_net
        ≡ ok c
      → IsSettled c
  unfolding from_runtime_profile_at sort_lists
  from_runtime_profile_at-IsSettled name manifest manifest_base local local_base env allow_net c e =
      let first =
        (Keeps-on_some manifest (λ p. apply_runtime_profile host p manifest_base env)
            (λ p. Steady-runtime_profile host p manifest_base env)).at
          (record (none_config host) { profile_name = some name }) tt in
      let second = Kept-then first (
        Keeps-on_some local (λ p. apply_runtime_profile host p local_base env)
          (λ p. Steady-runtime_profile host p local_base env)) in
      let overridden = Kept-then second (Steady-env_overrides host env) in
      let allowed = Kept-then overridden (Steady-network host (record { allow = allow_net })) in
      let endpoints = Kept-then allowed (Steady-endpoints host) in
      of-Kept
        (Kept-then endpoints (record { at = λ c' h. Keeps-validate.at (sort_lists host c') h })) e
