-- ===== src/HostConfig/Compiler.antt =====
-- `CliCompilerConfig::from_profile` of
-- crates/etas_cli/src/command/interpreter/host_config/compiler.rs, with the defaults of
-- crates/etas_driver/src/compiler/adapter.rs.
use etas.Base.{ℕ, Text, codes, Option, none, some, Bool, false, ◌==◌, if◌then◌else◌}
use etas.Base.{same_text, is_some, not}
use etas.Diagnostics.{Result, ok, err, ◌>>=◌, ok_or, fail_if}
use etas.Manifest.Schema.{RuntimeCompilerProfile}
use etas.HostConfig.{
  UsageError, backend_required, not_nonzero, resources_refused, Host, CliCompilerConfig,
}
use etas.HostConfig.Modes.{unwrap_or}

-- A number of the profile, which is not zero, or what it overrides.
unfoldable pub nonzero_or : (field : Text) → Option ℕ → ℕ → Result UsageError ℕ
nonzero_or field none base = ok base
nonzero_or field (some n) base = if n == 0 then err (not_nonzero field) else ok n

-- Whether the profile selects the native backend, or leaves the one selected before.
unfoldable pub is_native : Option Text → Bool → Bool
unfolding same_text
is_native none previous = previous
is_native (some backend) previous = same_text backend (codes "native")

module _ (host : Host) where
  abbrev pub default_compiler : CliCompilerConfig host
  default_compiler = record {
    max_active_workers = 1;
    max_retained_candidates = 64;
    max_retained_candidate_bytes = 268435456;
    resources = host.default_resources;
    allow_check = false;
    allow_compile = false;
  }

  unfoldable pub compiler_from_profile :
      Option (CliCompilerConfig host)
      → RuntimeCompilerProfile
      → Result UsageError (CliCompilerConfig host)
  unfolding is_native nonzero_or
  compiler_from_profile previous p =
      let base = unwrap_or previous default_compiler in
      fail_if (not (is_native p.backend (is_some previous))) backend_required >>= λ _.
      nonzero_or (codes "max_active_workers") p.max_active_workers base.max_active_workers
      >>= λ workers.
          nonzero_or (codes "max_retained_candidates") p.max_retained_candidates
            base.max_retained_candidates
          >>= λ candidates.
              nonzero_or (codes "max_retained_candidate_bytes") p.max_retained_candidate_bytes
                base.max_retained_candidate_bytes
              >>= λ bytes.
                  nonzero_or (codes "max_worker_cpu_ms") p.max_worker_cpu_ms
                    (host.max_worker_cpu_ms base.resources)
                  >>= λ cpu.
                      nonzero_or (codes "max_process_peak_resident_bytes")
                        p.max_process_peak_resident_bytes
                        (host.max_process_peak_resident_bytes base.resources)
                      >>= λ resident.
                          ok_or (host.resources_new cpu resident) resources_refused >>= λ resources.
                          ok (record {
                            max_active_workers = workers;
                            max_retained_candidates = candidates;
                            max_retained_candidate_bytes = bytes;
                            resources = resources;
                            allow_check = unwrap_or p.allow_check base.allow_check;
                            allow_compile = unwrap_or p.allow_compile base.allow_compile;
                          })
