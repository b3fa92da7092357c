-- ===== src/HostConfig.antt =====
-- The configuration of the host that the command line runs a program with:
-- crates/etas_cli/src/command/interpreter/host_config.rs and what it takes from host_tool.rs. `Host`
-- stands for the host library and for the model adapters that are built from it.
use etas.Base.{ℕ, Text, Option, Bool, List}
use etas.Base.TreeMap.{TreeMap}
use etas.Diagnostics.{Result}
use etas.Manifest.Schema.{RuntimeModelProfile}
pub mod Texts
pub mod Modes
pub mod Network
pub mod Allowlists
pub mod Tools
pub mod Bindings
pub mod Policy
pub mod Profile
pub mod Compiler
pub mod Sources
pub mod Overrides
pub mod Profiles
pub mod Legacy
pub mod Run
pub mod Limits
pub mod Execution
pub mod Threads
pub mod Grants
pub mod Kept
pub mod Coherent
pub mod Steady
pub mod Overridden
pub mod Settled
pub mod Authority
pub mod Files
pub mod Backed
pub mod Started

-- `CliError::InvalidUsage`, by the branch that returns it.
pub data UsageError : Type 0 where
  unsupported : (option value : Text) → UsageError  -- a mode or a decision that has no such name
  path_required : (option : Text) → UsageError
  missing_scheme unsupported_authority invalid_port port_required missing_host : Text → UsageError
  invalid_rule kind_required too_many_components : Text → UsageError
  rules_required url_required : UsageError
  invalid_entry empty_entry duplicate_binding : Text → UsageError
  not_boolean not_number : (name : Text) → UsageError
  no_attempts : UsageError
  invalid_root invalid_region : Text → UsageError
  mixed_filesystem root_required : UsageError
  unknown_isolation : Text → UsageError
  isolation_required : UsageError
  backend_required : UsageError
  not_nonzero : (field : Text) → UsageError
  transport limits_refused resources_refused model_refused : UsageError
  grace_range threads_range : UsageError
  not_unicode variable_required : (name : Text) → UsageError
  encoding_without_model encoding_refused project_required : UsageError
  unknown_profile : Text → UsageError
  manifest_refused config_refused : UsageError

-- The variables of the environment that are not empty, `RuntimeEnvOverrides`.
abbrev pub Env : Type 0
Env = TreeMap Text

pub data FilesystemMode : Type 0 where
  no_access read_only read_write destructive : FilesystemMode

-- `MemoryMode` and `SessionMode`, which have the same constructors.
pub data StoreMode : Type 0 where
  no_store : StoreMode
  memory : StoreMode
  sqlite : (path : Text) → StoreMode

pub data SecretMode : Type 0 where
  no_secrets env_secrets : SecretMode

pub data ApprovalMode : Type 0 where
  deny auto prompt : ApprovalMode

pub data PolicyMode : Type 0 where
  deny_unknown unsafe_trace_spec_runtime unsafe_allow_local_static : PolicyMode
  unsafe_require_approval_local_static local_static http_policy : PolicyMode

pub data PrivateResolutionPolicy : Type 0 where
  public_only allow_private : PrivateResolutionPolicy

pub record NetworkEndpoint : Type 0 where
  pub scheme : Text
  pub host : Text
  pub port : ℕ

pub record RetryPolicy : Type 0 where
  pub attempts : ℕ
  pub delay_ms : ℕ

pub data LocalPolicyDecision : Type 0 where
  allow_action require_approval deny_action : LocalPolicyDecision

pub record LocalPolicyRule : Type 0 where
  pub kind : Text
  pub decision : LocalPolicyDecision
  pub action : Option Text
  pub resource : Option Text

pub data AuthConfig : Type 0 where
  no_auth : AuthConfig
  bearer_token : Text → AuthConfig

-- What is given to the builder of an `HttpPolicyClient`.
pub record CliPolicyHttpConfig : Type 0 where
  pub base_url : Text
  pub endpoint : NetworkEndpoint
  pub private_resolution : PrivateResolutionPolicy
  pub retry : RetryPolicy
  pub auth : AuthConfig
  pub path : Option Text

pub data CliToolBinding : Type 0 where
  http_tool : (name base_url : Text) → CliToolBinding
  mcp_tool : (name base_url : Text) → CliToolBinding
  process_tool : (name program : Text) → CliToolBinding

pub data PlatformSandboxHook : Type 0 where
  landlock container wasi_preopen : PlatformSandboxHook

-- A required isolation guarantees everything, `IsolationRequirements::all()`.
pub data CommandIsolation : Type 0 where
  denied trusted_unconfined : CommandIsolation
  required : (backend : PlatformSandboxHook) → CommandIsolation

pub record FilesystemPolicy (Root : Type 0) : Type 0 where
  pub read_roots : List Root
  pub write_roots : List Root
  pub delete_roots : List Root

pub record Host : Type 1 where
  pub Root : Type 0  -- `WorkspaceRoot`
  pub root_new : Text → Option Root
  pub deny_all_files : FilesystemPolicy Root  -- `FilesystemPolicy::deny_all`
  pub allow_workspace : Root → FilesystemPolicy Root
  pub allow_destructive_workspace : Root → FilesystemPolicy Root
  pub is_region_id : Text → Bool  -- whether `WorkspaceRegionId::new` accepts the text
  pub is_transport : Text → PrivateResolutionPolicy → Bool  -- `HttpPolicyClient::try_new_with_policy`
  pub is_encoding : Text → Bool  -- whether a text parses as an `OpenAiTypedOutputEncoding`
  pub Resources : Type 0  -- `CompilerResourceLimits`, times in milliseconds
  pub default_resources : Resources
  pub resources_new : (cpu_ms memory : ℕ) → Option Resources
  pub max_worker_cpu_ms : Resources → ℕ
  pub max_process_peak_resident_bytes : Resources → ℕ
  pub Model : Type 0  -- `CliModelConfig`
  pub model_endpoint : Model → NetworkEndpoint
  pub model_from_runtime_profile :
      RuntimeModelProfile → Env → Option Model → Result UsageError Model
  pub model_from_env_overrides : Env → Option Model → Result UsageError Model
  pub Limits : Type 0  -- `ExecutionLimits`
  pub default_limits : Limits
  pub limits_new : (max_call_depth : ℕ) (max_steps : Option ℕ) → Option Limits
  pub limit_depth : Limits → ℕ
  pub limit_steps : Limits → Option ℕ
  pub default_depth : ℕ

pub record CliCompilerConfig (host : Host) : Type 0 where
  pub max_active_workers : ℕ
  pub max_retained_candidates : ℕ
  pub max_retained_candidate_bytes : ℕ
  pub resources : host.Resources
  pub allow_check : Bool
  pub allow_compile : Bool

pub record CliFilesystemRegion (host : Host) : Type 0 where
  pub root : host.Root
  pub read : Bool
  pub write : Bool
  pub delete : Bool

pub record CliHostConfig (host : Host) : Type 0 where
  pub compiler : Option (CliCompilerConfig host)
  pub model : Option host.Model
  pub command_allowed_programs : List Text
  pub command_isolation : CommandIsolation
  pub workspace_root : Option host.Root
  pub filesystem_mode : FilesystemMode
  pub filesystem_regions : TreeMap (CliFilesystemRegion host)
  pub program_network_allowlist : List NetworkEndpoint
  pub adapter_transport_allowlist : List NetworkEndpoint
  pub memory_mode : StoreMode
  pub approval_mode : ApprovalMode
  pub policy_mode : PolicyMode
  pub policy_local : Option (List LocalPolicyRule)
  pub policy_http : Option CliPolicyHttpConfig
  pub boundary_policy_ref : Option Text
  pub session_id : Option Text
  pub session_mode : StoreMode
  pub secret_mode : SecretMode
  pub tool_bindings : List CliToolBinding
  pub tool_private_resolution : PrivateResolutionPolicy
  pub profile_name : Option Text
  pub execution_limits : host.Limits
  pub cpu_threads : ℕ
  pub shutdown_grace_ms : ℕ
