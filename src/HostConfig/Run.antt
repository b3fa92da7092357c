-- ===== src/HostConfig/Run.antt =====
-- The configuration that a program is run with: `runtime_config_for_run` of
-- crates/etas_cli/src/command/interpreter/host_config.rs.
use etas.Base.{ℕ, Text, codes, Option, none, some, is_some, ◌&&◌, ◌||◌, not, is_none, find}
use etas.Base.{same_text, List}
use etas.Base.TreeMap.{get, insert}
use etas.Diagnostics.{Result, ok, ◌>>=◌, fail_if}
use etas.Manifest.Schema.{BinTarget, RuntimeSection, RuntimeExecutionProfile}
use etas.HostConfig.{
  UsageError, encoding_refused, project_required, unknown_profile, Env, Host, CliHostConfig,
}
use etas.HostConfig.Modes.{or}
use etas.HostConfig.Limits.{apply_execution_config, parse_cpu_threads}
use etas.HostConfig.Profile.{Update}
use etas.HostConfig.Profiles.{from_runtime_profile_at}
use etas.HostConfig.Legacy.{Variables, from_environment_with_allow_net}

-- What `package_root_for_inputs`, `read_manifest` and `read_runtime_config_file` find at the root of a package.
pub record Project : Type 0 where
  pub root : Text
  pub bins : List BinTarget
  pub runtime : RuntimeSection
  pub local_runtime : RuntimeSection
  pub local_base : Text

-- The arguments of the command.
pub record RunArguments : Type 0 where
  pub flow : Option Text
  pub requested_profile : Option Text
  pub runtime_config : Option Text
  pub allow_net : List Text
  pub max_call_depth : Option ℕ
  pub cpu_threads : Option Text
  pub model_output_encoding : Option Text

unfoldable pub bin_profile_for_flow : List BinTarget → Option Text → Option Text
unfolding same_text
bin_profile_for_flow bins none = none
bin_profile_for_flow bins (some flow) =
    elim (find (λ (b : BinTarget). same_text b.flow flow) bins) [ none ↦ none | some b ↦ b.profile ]

-- The profile that is asked for, or that of the flow, or the default of the local file, or that of
-- the manifest.
unfoldable pub chosen_profile : RunArguments → Project → Option Text
unfolding bin_profile_for_flow
chosen_profile args project = or args.requested_profile (
    or (bin_profile_for_flow project.bins args.flow)
      (or project.local_runtime.default_profile project.runtime.default_profile))

abbrev pub no_execution : RuntimeExecutionProfile
no_execution = record { max_call_depth = none; max_steps = none; shutdown_grace_ms = none }

module _ (host : Host) where
  unfoldable pub with_encoding : Option Text → Env → Result UsageError Env
  unfolding insert
  with_encoding none env = ok env
  with_encoding (some encoding) env =
      fail_if (not (host.is_encoding encoding)) encoding_refused >>= λ _.
      ok (insert (codes "ETAS_HOST_MODEL_OUTPUT_ENCODING") encoding env)

  unfoldable pub set_threads : (parallelism : Option ℕ) → Option Text → Update host
  unfolding parse_cpu_threads
  set_threads parallelism cpu_threads c =
      parse_cpu_threads parallelism cpu_threads >>= λ n. ok (record c { cpu_threads = n })

  unfoldable pub config_of :
      RunArguments
      → Project
      → Env
      → Variables
      → Option Text
      → Result UsageError (CliHostConfig host)
  unfolding get from_environment_with_allow_net from_runtime_profile_at
  config_of args project env vars none =
      from_environment_with_allow_net host args.allow_net env vars
  config_of args project env vars (some name) =
      let manifest = get name project.runtime.profiles in
      let local = get name project.local_runtime.profiles in
      fail_if (is_none manifest && is_none local) (unknown_profile name) >>= λ _.
      from_runtime_profile_at host name manifest project.root local project.local_base env
        args.allow_net

  unfoldable pub config_for :
      RunArguments
      → Option (Result UsageError Project)
      → Env
      → Variables
      → Result UsageError (CliHostConfig host)
  unfolding from_environment_with_allow_net config_of chosen_profile apply_execution_config
  config_for args none env vars =
      fail_if (is_some args.requested_profile || is_some args.runtime_config) project_required
      >>= λ _.
          from_environment_with_allow_net host args.allow_net env vars
          >>= apply_execution_config host no_execution no_execution args.max_call_depth
  config_for args (some found) env vars = found >>= λ project.
      config_of args project env vars (chosen_profile args project)
      >>= apply_execution_config host project.runtime.execution project.local_runtime.execution
          args.max_call_depth

  unfoldable pub runtime_config_for_run :
      (parallelism : Option ℕ)
      → RunArguments
      → Option (Result UsageError Project)
      → Env
      → Variables
      → Result UsageError (CliHostConfig host)
  unfolding with_encoding config_for set_threads
  runtime_config_for_run parallelism args project env vars =
      with_encoding args.model_output_encoding env >>= λ env'.
      config_for args project env' vars >>= set_threads parallelism args.cpu_threads
