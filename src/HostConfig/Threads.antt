-- ===== src/HostConfig/Threads.antt =====
-- What `parse_cpu_threads` of crates/etas_cli/src/command/interpreter/host_config.rs accepts.
use etas.Base.{ℕ, ◌≤◌, Text, codes, Option, none, some, not, ◌&&◌}
use etas.Base.{if◌then◌else◌, Bool-cases, inl, inr, same_text, ◌≡◌, ◌↔◌, refl, leb, arith}
use mathlib.Core.Path.{subst}
use etas.HostConfig.Texts.{parse_unsigned}
use etas.HostConfig.Policy.{u64_max}
use etas.Diagnostics.{ok, ◌>>=◌, ok_or, fail_if}
use etas.HostConfig.{threads_range, not_number}
use etas.HostConfig.Modes.{unwrap_or}
use etas.HostConfig.Limits.{max_cpu_threads, wanted_threads, parse_cpu_threads, min}
use etas.HostConfig.Execution.{bind-ok}

-- The number that an option asks for: 1 without it, for `auto` that of the machine but at most 64, and
-- else what the text reads as.
abbrev pub Requested : Option ℕ → Option Text → ℕ → Type 0
Requested parallelism none n = n ≡ 1
Requested parallelism (some value) n =
    if same_text value (codes "auto")
    then (n ≡ min (unwrap_or parallelism 1) 64)
    else (parse_unsigned u64_max value ≡ some n)

wanted_threads_iff :
    (parallelism : Option ℕ) (value : Option Text) (n : ℕ)
    → (wanted_threads parallelism value ≡ ok n) ↔ Requested parallelism value n
unfolding wanted_threads
wanted_threads_iff parallelism none n = ground arith
wanted_threads_iff parallelism (some value) n = elim (Bool-cases (same_text value (codes "auto"))) [
  | inl e ↦ rw e (ground arith)
  | inr e ↦ rw e (number (parse_unsigned u64_max value))
]
  where
    number : (o : Option ℕ) → (ok_or o (not_number (codes "cpu-threads")) ≡ ok n) ↔ (o ≡ some n)
    number none = ground arith
    number (some k) = ground arith

accepted_iff :
    (threads n : ℕ)
    → (fail_if (not (leb 1 threads && leb threads max_cpu_threads)) threads_range >>= λ _.
          ok threads)
        ≡ ok n
      ↔ ((threads ≡ n) × (1 ≤ n) × (n ≤ 64))
accepted_iff threads n = ground arith

-- A number of threads is accepted exactly when the option asks for it and it is between 1 and 64.
pub parse_cpu_threads_iff :
    (parallelism : Option ℕ) (value : Option Text) (n : ℕ)
    → (parse_cpu_threads parallelism value ≡ ok n)
      ↔ (Requested parallelism value n × (1 ≤ n) × (n ≤ 64))
unfolding parse_cpu_threads
parse_cpu_threads_iff parallelism value n = (
  λ h.
      let (threads, wanted, h1) = bind-ok (wanted_threads parallelism value) _ n h in
      let (e, low, high) = (accepted_iff threads n).0 h1 in
      (
        subst (Requested parallelism value) e
            ((wanted_threads_iff parallelism value threads).0 wanted),
        low,
        high,
      ),
  λ (r, low, high).
      rw ((wanted_threads_iff parallelism value n).1 r) ((accepted_iff n n).1 (refl, low, high)),
)
