-- ===== src/Manifest/Schema.antt =====
-- The sections of `etas.toml` as crates/etas_package/src/manifest/mod.rs declares them. A
-- `BTreeMap` is its list of entries in key order, and a `PathBuf` its text.
use etas.Base.{ℕ, Text, Option, Bool, List, codes}
use etas.Base.TreeMap.{TreeMap}

pub record PackageSection : Type 0 where
  pub name : Text
  pub version : Text
  pub edition : Text
  pub license : Option Text
  pub description : Option Text
  pub repository : Option Text

pub record SourceSection : Type 0 where
  pub root : Text

unfoldable pub default_edition : Text
default_edition = codes "2026"

unfoldable pub default_source_root : Text
default_source_root = codes "src"

pub record BinTarget : Type 0 where
  pub name : Text
  pub module_path : Text
  pub flow : Text
  pub profile : Option Text

pub record RuntimeExecutionProfile : Type 0 where
  pub max_call_depth : Option ℕ
  pub max_steps : Option ℕ
  pub shutdown_grace_ms : Option ℕ

pub record RuntimeCompilerProfile : Type 0 where
  pub backend : Option Text
  pub allow_check : Option Bool
  pub allow_compile : Option Bool
  pub max_active_workers : Option ℕ
  pub max_retained_candidates : Option ℕ
  pub max_retained_candidate_bytes : Option ℕ
  pub max_worker_cpu_ms : Option ℕ
  pub max_process_peak_resident_bytes : Option ℕ

pub record RuntimeModelTimeoutProfile : Type 0 where
  pub request_deadline_ms : Option ℕ
  pub connect_timeout_ms : Option ℕ

pub record RuntimeRetryProfile : Type 0 where
  pub attempts : Option ℕ
  pub delay_ms : Option ℕ

pub record RuntimeModelProfile : Type 0 where
  pub adapter : Option Text
  pub model : Option Text
  pub base_url : Option Text
  pub api_key_env : Option Text
  pub allow_private : Option Bool
  pub enable_thinking : Option Bool
  pub typed_output_encoding : Option Text
  pub timeout : Option RuntimeModelTimeoutProfile
  pub retry : Option RuntimeRetryProfile

pub record RuntimeBackendProfile : Type 0 where
  pub backend : Option Text
  pub path : Option Text
  pub id : Option Text

pub record RuntimePolicyProfile : Type 0 where
  pub mode : Option Text
  pub rules : List Text
  pub url : Option Text
  pub token_env : Option Text
  pub path : Option Text
  pub allow_private : Option Bool
  pub retry : Option RuntimeRetryProfile

pub record RuntimeModeProfile : Type 0 where
  pub mode : Option Text

pub record RuntimeNetworkProfile : Type 0 where
  pub allow : List Text

pub record RuntimeFilesystemRegionProfile : Type 0 where
  pub root : Text
  pub read : Bool
  pub write : Bool
  pub delete : Bool

pub record RuntimeFilesystemProfile : Type 0 where
  pub mode : Option Text
  pub workspace_root : Option Text
  pub regions : TreeMap RuntimeFilesystemRegionProfile

pub record RuntimeToolsProfile : Type 0 where
  pub http : TreeMap Text
  pub mcp : TreeMap Text
  pub process : TreeMap Text
  pub allow_private : Option Bool

pub record RuntimeCommandProfile : Type 0 where
  pub allow : List Text
  pub isolation : Option Text

pub record RuntimeProfile : Type 0 where
  pub compiler : Option RuntimeCompilerProfile
  pub model : Option RuntimeModelProfile
  pub memory : Option RuntimeBackendProfile
  pub session : Option RuntimeBackendProfile
  pub policy : Option RuntimePolicyProfile
  pub approval : Option RuntimeModeProfile
  pub network : Option RuntimeNetworkProfile
  pub filesystem : Option RuntimeFilesystemProfile
  pub tools : Option RuntimeToolsProfile
  pub secret : Option RuntimeModeProfile
  pub command : Option RuntimeCommandProfile
  pub boundary_policy : Option Text

pub record RuntimeSection : Type 0 where
  pub default_profile : Option Text
  pub execution : RuntimeExecutionProfile
  pub profiles : TreeMap RuntimeProfile

pub record ReflectionSection : Type 0 where
  pub retain_bodies : List Text
  pub export_bodies : List Text

pub record DependencyDetail : Type 0 where
  pub package_name : Option Text
  pub version : Option Text
  pub import : Option Text
  pub path : Option Text
  pub git : Option Text
  pub github : Option Text
  pub rev : Option Text
  pub tag : Option Text
  pub branch : Option Text
  pub release : Option Text
  pub asset : Option Text
  pub checksum : Option Text
  pub registry : Option Text

pub data DependencySpec : Type 0 where
  version : Text → DependencySpec
  detailed : DependencyDetail → DependencySpec

pub record ToolBinding : Type 0 where
  pub kind : Text
  pub provider : Option Text
  pub server : Option Text
  pub tool : Option Text
  pub effects : List Text
  pub actions : List Text

pub record BindingsSection : Type 0 where
  pub tools : TreeMap ToolBinding

pub record Manifest : Type 0 where
  pub package_section : PackageSection
  pub source : SourceSection
  pub dependencies : TreeMap DependencySpec
  pub bins : List BinTarget
  pub bindings : BindingsSection
  pub runtime : RuntimeSection
  pub reflection : ReflectionSection
