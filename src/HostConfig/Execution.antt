-- ===== src/HostConfig/Execution.antt =====
-- What `apply_execution_config` of
-- crates/etas_cli/src/command/interpreter/host_config.rs accept.
use etas.Base.{ℕ, zero, suc, ◌≤◌, codes, Option, none, some, Bool, true, false, not, ◌&&◌}
use etas.Base.{◌∙◌, ◌≡◌, ◌≢◌, ◌↔◌, refl, sym, ap, List, [], ◌∷◌, leb, ◌==◌, arith}
use mathlib.Core.Path.{subst}
use etas.Diagnostics.{Result, ok, err, ◌>>=◌, ok_or, fail_if}
use etas.Manifest.Schema.{RuntimeExecutionProfile}
use etas.HostConfig.{UsageError, not_nonzero, limits_refused, grace_range, Host, CliHostConfig}
use etas.HostConfig.Modes.{unwrap_or, or}
use etas.HostConfig.Limits.{nonzero_steps, apply_execution_config}

-- `a` is the first value that is given, or the default.
abbrev pub First : {A : Type 0} → A → List (Option A) → A → Type 0
First d [] a = a ≡ d
First d (none ∷ os) a = First d os a
First d (some b ∷ os) a = a ≡ b

First-or :
    {A : Type 0} (o p q : Option A) (d a : A)
    → First d (o ∷ p ∷ q ∷ []) a ↔ (a ≡ unwrap_or (or o (or p q)) d)
First-or none none none d a = ground arith
First-or none none (some q) d a = ground arith
First-or none (some p) q d a = ground arith
First-or (some o) p q d a = ground arith

pub bind-ok :
    {A B : Type 0} (r : Result UsageError A) (f : A → Result UsageError B) (b : B)
    → r >>= f ≡ ok b
    → (a : A) × (r ≡ ok a) × (f a ≡ ok b)
bind-ok (ok a) f b h = (a, refl, h)
bind-ok (err e) f b h = cc

fail_if-ok : (test : Bool) (e : UsageError) (u : Unit {0}) → fail_if test e ≡ ok u → test ≡ false
fail_if-ok true e u h = cc
fail_if-ok false e u h = refl

ok_or-ok : {A : Type 0} (o : Option A) (e : UsageError) (a : A) → ok_or o e ≡ ok a → o ≡ some a
ok_or-ok none e a h = cc
ok_or-ok (some b) e a h = ground arith

nonzero_steps_iff : (o s : Option ℕ) → (nonzero_steps o ≡ ok s) ↔ ((s ≡ o) × (o ≢ some 0))
unfolding nonzero_steps
nonzero_steps_iff none s = ground arith
nonzero_steps_iff (some zero) s = ground arith
nonzero_steps_iff (some (suc n)) s = ground arith

module _ (host : Host) where
  -- What execution a configuration has after `apply_execution_config`.
  pub record IsExecution (manifest local : RuntimeExecutionProfile) (cli : Option ℕ)
      (c c' : CliHostConfig host) : Type 0 where
    pub depth : ℕ
    pub depth_chosen :
        First host.default_depth (cli ∷ local.max_call_depth ∷ manifest.max_call_depth ∷ []) depth
    pub depth_positive : depth ≢ 0
    pub steps : Option ℕ
    pub steps_chosen : steps ≡ or local.max_steps manifest.max_steps
    pub steps_positive : steps ≢ some 0
    pub limits : host.Limits
    pub accepted : host.limits_new depth steps ≡ some limits
    pub grace : ℕ
    pub grace_chosen : First 5000 (local.shutdown_grace_ms ∷ manifest.shutdown_grace_ms ∷ []) grace
    pub grace_low : 1 ≤ grace
    pub grace_high : grace ≤ 60000
    pub applied : c' ≡ record c { execution_limits = limits; shutdown_grace_ms = grace }

  First-pair : (o p : Option ℕ) (d : ℕ) → First d (o ∷ p ∷ []) (unwrap_or (or o p) d)
  First-pair none none d = refl
  First-pair none (some p) d = refl
  First-pair (some o) p d = refl

  nonzero : (n : ℕ) → (n == 0) ≡ false → n ≢ 0
  nonzero n h e = ground arith

  pub apply_execution_config_sound :
      (manifest local : RuntimeExecutionProfile) (cli : Option ℕ) (c c' : CliHostConfig host)
      → apply_execution_config host manifest local cli c ≡ ok c'
      → IsExecution manifest local cli c c'
  unfolding apply_execution_config
  apply_execution_config_sound manifest local cli c c' h =
      let depth =
        unwrap_or (or cli (or local.max_call_depth manifest.max_call_depth)) host.default_depth in
      let grace = unwrap_or (or local.shutdown_grace_ms manifest.shutdown_grace_ms) 5000 in
      let (u, zero_test, h1) =
        bind-ok (fail_if (depth == 0) (not_nonzero (codes "max_call_depth"))) _ c' h in
      let (steps, steps_test, h2) =
        bind-ok (nonzero_steps (or local.max_steps manifest.max_steps)) _ c' h1 in
      let (limits, accepted, h3) =
        bind-ok (ok_or (host.limits_new depth steps) limits_refused) _ c' h2 in
      let (v, grace_test, h4) =
        bind-ok (fail_if (not (leb 1 grace && leb grace 60000)) grace_range) _ c' h3 in
      let chosen = (nonzero_steps_iff (or local.max_steps manifest.max_steps) steps).0 steps_test in
      let bounds = fail_if-ok (not (leb 1 grace && leb grace 60000)) grace_range v grace_test in
      record {
        depth = depth;
        depth_chosen =
            (First-or cli local.max_call_depth manifest.max_call_depth host.default_depth depth).1
              refl;
        depth_positive =
            nonzero depth
              (fail_if-ok (depth == 0) (not_nonzero (codes "max_call_depth")) u zero_test);
        steps = steps;
        steps_chosen = chosen.0;
        steps_positive = λ e. chosen.1 (sym chosen.0 ∙ e);
        limits = limits;
        accepted = ok_or-ok (host.limits_new depth steps) limits_refused limits accepted;
        grace = grace;
        grace_chosen = First-pair local.shutdown_grace_ms manifest.shutdown_grace_ms 5000;
        grace_low = within grace bounds;
        grace_high = below grace bounds;
        applied = sym (ok-eq h4);
      }
    where
      within : (g : ℕ) → not (leb 1 g && leb g 60000) ≡ false → 1 ≤ g
      within g b = ground arith

      below : (g : ℕ) → not (leb 1 g && leb g 60000) ≡ false → g ≤ 60000
      below g b = ground arith

      ok-eq :
          {a b : CliHostConfig host}
          → ◌≡◌ {A = Result UsageError (CliHostConfig host)} (ok a) (ok b)
          → a ≡ b
      ok-eq e = cc

  First-pair_unique : (o p : Option ℕ) (d a : ℕ) → First d (o ∷ p ∷ []) a → a ≡ unwrap_or (or o p) d
  First-pair_unique none none d a h = h
  First-pair_unique none (some p) d a h = h
  First-pair_unique (some o) p d a h = h

  -- The chain of tests, on the values that were chosen.
  abbrev chain :
      (depth grace : ℕ) (given : Option ℕ)
      → CliHostConfig host
      → Result UsageError (CliHostConfig host)
  chain depth grace given c = fail_if (depth == 0) (not_nonzero (codes "max_call_depth")) >>= λ _.
      nonzero_steps given >>= λ s. ok_or (host.limits_new depth s) limits_refused >>= λ l.
      fail_if (not (leb 1 grace && leb grace 60000)) grace_range >>= λ _.
      ok (record c { execution_limits = l; shutdown_grace_ms = grace })

  chain_complete :
      (depth grace : ℕ) (given steps : Option ℕ) (limits : host.Limits) (c : CliHostConfig host)
      → depth ≢ 0
      → nonzero_steps given ≡ ok steps
      → host.limits_new depth steps ≡ some limits
      → 1 ≤ grace
      → grace ≤ 60000
      → chain depth grace given c
        ≡ ok (record c { execution_limits = limits; shutdown_grace_ms = grace })
  chain_complete depth grace given steps limits c positive given_ok accepted low high =
      rw (positive_test, given_ok, accepted, within_test) refl
    where
      positive_test : (depth == 0) ≡ false
      positive_test = ground arith

      within_test : not (leb 1 grace && leb grace 60000) ≡ false
      within_test = ground arith

  apply_execution_config_complete :
      (manifest local : RuntimeExecutionProfile) (cli : Option ℕ) (c c' : CliHostConfig host)
      → IsExecution manifest local cli c c'
      → apply_execution_config host manifest local cli c ≡ ok c'
  unfolding apply_execution_config
  apply_execution_config_complete manifest local cli c c' x =
      let depth_eq =
        (First-or cli local.max_call_depth manifest.max_call_depth host.default_depth x.depth).0
          x.depth_chosen in
      let grace_eq =
        First-pair_unique local.shutdown_grace_ms manifest.shutdown_grace_ms 5000 x.grace
          x.grace_chosen in
      let steps_ok =
        (nonzero_steps_iff (or local.max_steps manifest.max_steps) x.steps).1
          (x.steps_chosen, λ e. x.steps_positive (x.steps_chosen ∙ e)) in
      let chained =
        chain_complete x.depth x.grace (or local.max_steps manifest.max_steps) x.steps x.limits c
          x.depth_positive steps_ok x.accepted x.grace_low x.grace_high in
      subst
        (λ d.
          chain d (unwrap_or (or local.shutdown_grace_ms manifest.shutdown_grace_ms) 5000)
            (or local.max_steps manifest.max_steps) c
          ≡ ok c')
        depth_eq
        (subst (λ g. chain x.depth g (or local.max_steps manifest.max_steps) c ≡ ok c') grace_eq
          (chained ∙ ap (λ (r : CliHostConfig host). ok r) (sym x.applied)))

  -- A configuration gets its limits exactly from the command line, the local file, the manifest or the
  -- default, in this order, if the depth and the steps are not zero, the host library accepts them, and
  -- the grace period is between 1 and 60000 milliseconds; nothing else changes.
  pub apply_execution_config_iff :
      (manifest local : RuntimeExecutionProfile) (cli : Option ℕ) (c c' : CliHostConfig host)
      → (apply_execution_config host manifest local cli c ≡ ok c')
        ↔ IsExecution manifest local cli c c'
  apply_execution_config_iff manifest local cli c c' = (
    apply_execution_config_sound manifest local cli c c',
    apply_execution_config_complete manifest local cli c c',
  )
