-- ===== src/Examples/HostConfigs.antt =====
-- A host whose roots are paths, and a configuration for it from a profile and the environment.
use etas.Base.{◌↔◌, ℕ, ◌≤◌, Text, codes, none, some, true, List, [], ◌∷◌, ◌≡◌, refl, is_empty, All}
use etas.Base.{if◌then◌else◌, find, same_text}
use mathlib.Core.List.Memᴰ as MemD
use etas.Diagnostics.{ok, err}
use etas.Manifest.Schema.{RuntimeProfile, RuntimeExecutionProfile}
use etas.HostConfig.{
  Host, NetworkEndpoint, CliHostConfig, model_refused, required, landlock, read_write, env_secrets,
  CliToolBinding, http_tool, process_tool,
}
use etas.HostConfig.Limits.{apply_execution_config, parse_cpu_threads}
use etas.HostConfig.Execution.{IsExecution, apply_execution_config_iff}
use etas.HostConfig.Threads.{Requested, parse_cpu_threads_iff}
use etas.HostConfig.Tools.{merge_tool_bindings}
use etas.HostConfig.Bindings.{is_named, find-merge_tool_bindings}
use etas.HostConfig.Profile.{none_config}
use etas.HostConfig.Profiles.{from_runtime_profile_at}
use etas.HostConfig.Settled.{IsSettled, from_runtime_profile_at-IsSettled}
use etas.HostConfig.Grants.{granted, sandbox}
use etas.HostConfig.Authority.{IsAllowed, IsDocumented}
use etas.HostConfig.Legacy.{unset}
use etas.HostConfig.Run.{Project, RunArguments, runtime_config_for_run}
use etas.HostConfig.Started.{runtime_config_for_run-IsAllowed}
use etas.HostConfig.Backed.{granted-IsAllowed}

abbrev pub any_host : Host
any_host = record {
  Root = Text;
  root_new = λ t. if is_empty t then none else some t;
  deny_all_files = record { read_roots = []; write_roots = []; delete_roots = [] };
  allow_workspace = λ r. record { read_roots = r ∷ []; write_roots = r ∷ []; delete_roots = [] };
  allow_destructive_workspace =
      λ r. record { read_roots = r ∷ []; write_roots = r ∷ []; delete_roots = r ∷ [] };
  is_region_id = λ t. true;
  is_transport = λ url policy. true;
  is_encoding = λ t. true;
  Resources = ℕ × ℕ;
  default_resources = (1000, 4096);
  resources_new = λ cpu memory. some (cpu, memory);
  max_worker_cpu_ms = λ r. r.0;
  max_process_peak_resident_bytes = λ r. r.1;
  Model = NetworkEndpoint;
  model_endpoint = λ m. m;
  model_from_runtime_profile = λ p env current. err model_refused;
  model_from_env_overrides = λ env current. err model_refused;
  Limits = ℕ;
  default_limits = 64;
  limits_new = λ depth steps. some depth;
  limit_depth = λ l. l;
  limit_steps = λ l. none;
  default_depth = 64;
}

any_host-IsDocumented : IsDocumented any_host
any_host-IsDocumented = record {
  workspace_reads = λ r. MemD.head refl;
  workspace_writes = λ r. MemD.head refl;
  destructive_reads = λ r. MemD.head refl;
  destructive_writes = λ r. MemD.head refl;
}

abbrev dev_profile : RuntimeProfile
dev_profile = record {
  compiler = none;
  model = none;
  memory = none;
  session = none;
  policy = none;
  approval = none;
  network = none;
  filesystem = some (record {
    mode = some (codes "readwrite");
    workspace_root = some (codes "ws");
    regions = [];
  });
  tools = none;
  secret = none;
  command = some (record { allow = codes "git" ∷ []; isolation = some (codes "landlock") });
  boundary_policy = none;
}

abbrev dev_config : CliHostConfig any_host
dev_config = record (none_config any_host) {
  profile_name = some (codes "dev");
  command_allowed_programs = codes "git" ∷ [];
  command_isolation = required landlock;
  workspace_root = some (codes "/p/ws");
  filesystem_mode = read_write;
  secret_mode = env_secrets;
}

from_runtime_profile_at-IsSettled_example : IsSettled dev_config
unfolding from_runtime_profile_at
from_runtime_profile_at-IsSettled_example =
    from_runtime_profile_at-IsSettled any_host (codes "dev") (some dev_profile) (codes "/p") none
      (codes "/p") ((codes "ETAS_HOST_SECRET", codes "env") ∷ []) [] dev_config refl

granted-IsAllowed_example :
    All (IsAllowed dev_config (sandbox any_host dev_config)) (granted dev_config)
granted-IsAllowed_example =
    granted-IsAllowed any_host any_host-IsDocumented dev_config
      from_runtime_profile_at-IsSettled_example

abbrev no_limits : RuntimeExecutionProfile
no_limits = record { max_call_depth = none; max_steps = none; shutdown_grace_ms = none }

abbrev local_limits : RuntimeExecutionProfile
local_limits = record {
  max_call_depth = some 10;
  max_steps = some 500;
  shutdown_grace_ms = some 250;
}

abbrev limited : CliHostConfig any_host
limited = record dev_config { execution_limits = 20; shutdown_grace_ms = 250 }

limits_applied :
    apply_execution_config any_host no_limits local_limits (some 20) dev_config ≡ ok limited
unfolding apply_execution_config
limits_applied = refl

apply_execution_config_iff_example :
    (apply_execution_config any_host no_limits local_limits (some 20) dev_config ≡ ok limited)
    ↔ IsExecution any_host no_limits local_limits (some 20) dev_config limited
apply_execution_config_iff_example =
    apply_execution_config_iff any_host no_limits local_limits (some 20) dev_config limited

-- `auto` on a machine with 128 threads
parse_cpu_threads_iff_example :
    (parse_cpu_threads (some 128) (some (codes "auto")) ≡ ok 64)
    ↔ (Requested (some 128) (some (codes "auto")) 64 × (1 ≤ 64) × (64 ≤ 64))
parse_cpu_threads_iff_example = parse_cpu_threads_iff (some 128) (some (codes "auto")) 64

abbrev old_tools : List CliToolBinding
old_tools = http_tool (codes "a") (codes "http://a") ∷ http_tool (codes "b") (codes "http://b") ∷ []

abbrev new_tools : List CliToolBinding
new_tools = process_tool (codes "b") (codes "/bin/b") ∷ []

find-merge_tool_bindings_example :
    find (is_named (codes "b")) (merge_tool_bindings old_tools new_tools)
    ≡ some (process_tool (codes "b") (codes "/bin/b"))
unfolding same_text
find-merge_tool_bindings_example = find-merge_tool_bindings (codes "b") old_tools new_tools

abbrev dev_project : Project
dev_project = record {
  root = codes "/p";
  bins =
      record {
        name = codes "app";
        module_path = codes "app.main";
        flow = codes "main";
        profile = some (codes "dev");
      }
      ∷ [];
  runtime = record {
    default_profile = none;
    execution = no_limits;
    profiles = (codes "dev", dev_profile) ∷ [];
  };
  local_runtime = record { default_profile = none; execution = local_limits; profiles = [] };
  local_base = codes "/p";
}

abbrev dev_arguments : RunArguments
dev_arguments = record {
  flow = some (codes "main");
  requested_profile = none;
  runtime_config = none;
  allow_net = [];
  max_call_depth = none;
  cpu_threads = some (codes "4");
  model_output_encoding = none;
}

abbrev run_config : CliHostConfig any_host
run_config = record dev_config { execution_limits = 10; shutdown_grace_ms = 250; cpu_threads = 4 }

-- The profile is the one that the manifest names for the flow.
runtime_config_for_run-IsAllowed_example :
    IsSettled run_config
    × All (IsAllowed run_config (sandbox any_host run_config)) (granted run_config)
unfolding runtime_config_for_run
runtime_config_for_run-IsAllowed_example =
    runtime_config_for_run-IsAllowed any_host any_host-IsDocumented (some 8) dev_arguments
      (some (ok dev_project)) ((codes "ETAS_HOST_SECRET", codes "env") ∷ []) (λ name. unset)
      run_config refl
