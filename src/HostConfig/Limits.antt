-- ===== src/HostConfig/Limits.antt =====
-- Limits on execution: `apply_execution_config` and `parse_cpu_threads`.
use etas.Base.{ℕ, Text, codes, Option, none, some, ◌&&◌, not, if◌then◌else◌}
use etas.Base.{same_text, ◌==◌, leb}
use etas.Diagnostics.{Result, ok, err, ◌>>=◌, ok_or, fail_if}
use etas.Manifest.Schema.{RuntimeExecutionProfile}
use etas.HostConfig.{
  UsageError, not_nonzero, limits_refused, grace_range, threads_range, not_number, Host,
  CliHostConfig,
}
use etas.HostConfig.Texts.{parse_unsigned}
use etas.HostConfig.Modes.{unwrap_or, or}
use etas.HostConfig.Policy.{u64_max}

-- `NonZeroU64::new(value).ok_or_else(..)`, for a value that may be absent
unfoldable pub nonzero_steps : Option ℕ → Result UsageError (Option ℕ)
nonzero_steps none = ok none
nonzero_steps (some n) = if n == 0 then err (not_nonzero (codes "max_steps")) else ok (some n)

module _ (host : Host) where
  unfoldable pub apply_execution_config :
      (manifest local : RuntimeExecutionProfile) (cli_max_call_depth : Option ℕ)
      → CliHostConfig host
      → Result UsageError (CliHostConfig host)
  unfolding nonzero_steps
  apply_execution_config manifest local cli c =
      let depth =
        unwrap_or (or cli (or local.max_call_depth manifest.max_call_depth)) host.default_depth in
      let grace = unwrap_or (or local.shutdown_grace_ms manifest.shutdown_grace_ms) 5000 in
      fail_if (depth == 0) (not_nonzero (codes "max_call_depth")) >>= λ _.
      nonzero_steps (or local.max_steps manifest.max_steps) >>= λ steps.
      ok_or (host.limits_new depth steps) limits_refused >>= λ limits.
      fail_if (not (leb 1 grace && leb grace 60000)) grace_range >>= λ _.
      ok (record c { execution_limits = limits; shutdown_grace_ms = grace })

abbrev pub max_cpu_threads : ℕ
max_cpu_threads = 64

abbrev pub min : ℕ → ℕ → ℕ
min a b = if leb a b then a else b

-- `parallelism` is what `available_parallelism` gives, if it gives anything.
unfoldable pub wanted_threads : (parallelism : Option ℕ) → Option Text → Result UsageError ℕ
unfolding same_text parse_unsigned
wanted_threads parallelism none = ok 1
wanted_threads parallelism (some value) =
    if same_text value (codes "auto")
    then ok (min (unwrap_or parallelism 1) max_cpu_threads)
    else ok_or (parse_unsigned u64_max value) (not_number (codes "cpu-threads"))

unfoldable pub parse_cpu_threads : (parallelism : Option ℕ) → Option Text → Result UsageError ℕ
unfolding wanted_threads
parse_cpu_threads parallelism value = wanted_threads parallelism value >>= λ threads.
    fail_if (not (leb 1 threads && leb threads max_cpu_threads)) threads_range >>= λ _. ok threads
