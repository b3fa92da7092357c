-- ===== src/HostConfig/Sources.antt =====
-- The sections of a runtime profile: `apply_runtime_profile` of
-- crates/etas_cli/src/command/interpreter/host_config.rs.
use etas.Base.{Text, some, ◌++◌}
use etas.Diagnostics.{ok, ◌>>=◌}
use etas.Manifest.Schema.{
  RuntimeProfile, RuntimeBackendProfile, RuntimeModeProfile, RuntimeNetworkProfile,
  RuntimeCompilerProfile, RuntimeModelProfile,
}
use etas.HostConfig.{Env, Host}
use etas.HostConfig.Modes.{
  or, parse_secret_mode, parse_approval_mode, memory_mode_from_profile, session_mode_from_profile,
}
use etas.HostConfig.Network.{parse_cli_network_allowlist}
use etas.HostConfig.Compiler.{compiler_from_profile}
use etas.HostConfig.Profile.{
  on_some, Update, apply_filesystem, apply_policy_profile, apply_command_profile,
  apply_tools_profile,
}

module _ (host : Host) where
  -- The sections of a profile other than the file system's, which do not touch the file system.
  unfoldable pub apply_compiler : RuntimeCompilerProfile → Update host
  unfolding compiler_from_profile
  apply_compiler compiler c =
      compiler_from_profile host c.compiler compiler >>= λ x. ok (record c { compiler = some x })

  unfoldable pub apply_model : Env → RuntimeModelProfile → Update host
  apply_model env model c =
      host.model_from_runtime_profile model env c.model >>= λ m. ok (record c { model = some m })

  unfoldable pub apply_memory : RuntimeBackendProfile → Update host
  unfolding memory_mode_from_profile
  apply_memory profile c =
      memory_mode_from_profile profile >>= λ mode. ok (record c { memory_mode = mode })

  unfoldable pub apply_session : RuntimeBackendProfile → Update host
  unfolding session_mode_from_profile
  apply_session session c =
      let id = or session.id c.session_id in
      session_mode_from_profile session id >>= λ mode.
      ok (record c { session_id = id; session_mode = mode })

  unfoldable pub apply_approval : RuntimeModeProfile → Update host
  unfolding parse_approval_mode
  apply_approval approval c =
      parse_approval_mode approval.mode >>= λ mode. ok (record c { approval_mode = mode })

  unfoldable pub apply_network : RuntimeNetworkProfile → Update host
  unfolding parse_cli_network_allowlist
  apply_network network c = parse_cli_network_allowlist network.allow >>= λ es.
      ok (record c { program_network_allowlist = c.program_network_allowlist ++ es })

  unfoldable pub apply_secret : RuntimeModeProfile → Update host
  unfolding parse_secret_mode
  apply_secret secret c =
      parse_secret_mode secret.mode >>= λ mode. ok (record c { secret_mode = mode })

  abbrev pub set_boundary : Text → Update host
  set_boundary policy c = ok (record c { boundary_policy_ref = some policy })

  -- The sections before `filesystem`, and those after it.
  unfoldable pub apply_before : RuntimeProfile → Env → Update host
  unfolding apply_compiler apply_model apply_memory apply_session apply_policy_profile
      apply_approval apply_network
  apply_before p env c =
      on_some p.compiler apply_compiler c
      >>= on_some p.model (apply_model env)
      >>= on_some p.memory apply_memory
      >>= on_some p.session apply_session
      >>= on_some p.policy (λ policy. apply_policy_profile host policy env)
      >>= on_some p.approval apply_approval
      >>= on_some p.network apply_network

  unfoldable pub apply_after : RuntimeProfile → Update host
  unfolding apply_secret apply_command_profile apply_tools_profile
  apply_after p c =
      on_some p.secret apply_secret c
      >>= on_some p.command (apply_command_profile host)
      >>= on_some p.tools (apply_tools_profile host)
      >>= on_some p.boundary_policy set_boundary

  unfoldable pub apply_runtime_profile : RuntimeProfile → (base_dir : Text) → Env → Update host
  unfolding apply_before apply_filesystem apply_after
  apply_runtime_profile p base_dir env c =
      apply_before p env c
      >>= on_some p.filesystem (apply_filesystem host base_dir)
      >>= apply_after p
