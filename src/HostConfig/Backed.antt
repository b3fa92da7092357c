-- ===== src/HostConfig/Backed.antt =====
-- Each part of the grants of `run_options`, of
-- crates/etas_cli/src/command/interpreter/host_config.rs, has a sandbox that backs it.
use etas.Base.{concat_map, Text, same_text, Option, none, some, Bool, true, ◌≡◌, ◌≢◌, ◌⊎◌}
use etas.Base.{refl, inl, inr, List, [], ◌∷◌, All, All-append, is_some, is_empty, not}
use etas.Base.{arith}
use etas.HostConfig.{denied, Host, CliHostConfig, CliCompilerConfig, NetworkEndpoint, StoreMode}
use etas.HostConfig.Profile.{has_store}
use etas.HostConfig.Grants.{
  grant_parts, model_grants, command_grants, tool_grants, HostActionGrant, push_if, console_grants,
  has_secrets, store_grants, network_grants, secret_grants, compiler_grants, granted,
  has_effect_adapters, AllowListed, sandbox,
}
use etas.HostConfig.Settled.{IsSettled}
use etas.HostConfig.Authority.{IsBacked, IsAllowed, IsDocumented, All-push_if}
use etas.HostConfig.Files.{policies, IsAllowed-of, mode_grants-IsAllowed, regions-IsAllowed}

All-concat :
    {A : Type 0} (P : A → Type 0) (xss : List (List A))
    → All (All P) xss
    → All P (concat_map (λ xs. xs) xss)
All-concat P [] h = tt
All-concat P (xs ∷ xss) (p, h) = All-append P xs (concat_map (λ ys. ys) xss) p (All-concat P xss h)

module _ (host : Host) where
  console-IsAllowed :
      (c : CliHostConfig host) (o : Option (AllowListed host)) → All (IsAllowed c o) console_grants
  unfolding same_text
  console-IsAllowed c none = (refl, (refl, (refl, (refl, tt))))
  console-IsAllowed c (some s) = (tt, (tt, (tt, (tt, tt))))

  -- Grants that need an adapter, and that the adapter's policy backs.
  part-IsAllowed :
      (c : CliHostConfig host) (test : Bool) (gs : List HostActionGrant)
      → (test ≡ true → has_effect_adapters c ≡ true)
      → (test ≡ true → All (IsBacked c (policies host c)) gs)
      → All (IsAllowed c (sandbox host c)) (push_if test gs)
  part-IsAllowed c test gs on h =
      All-push_if (IsAllowed c (sandbox host c)) test gs (λ e. IsAllowed-of host c gs (on e) (h e))

  compiler-IsAllowed :
      (c : CliHostConfig host) → All (IsAllowed c (sandbox host c)) (compiler_grants c.compiler)
  unfolding same_text has_effect_adapters
  compiler-IsAllowed c = go c.compiler refl
    where
      go :
          (o : Option (CliCompilerConfig host))
          → c.compiler ≡ o
          → All (IsAllowed c (sandbox host c)) (compiler_grants o)
      go none e = tt
      go (some k) e =
          let on : has_effect_adapters c ≡ true = rw e refl in
          All-append (IsAllowed c (sandbox host c)) (push_if k.allow_check _) _
            (part-IsAllowed c k.allow_check _ (λ _. on) (λ _. (tt, tt)))
            (part-IsAllowed c k.allow_compile _ (λ _. on) (λ _. (tt, tt)))

  commands-IsAllowed :
      (c : CliHostConfig host)
      → IsSettled c
      → All
          (IsAllowed c (sandbox host c))
          (push_if (not (is_empty c.command_allowed_programs)) command_grants)
  unfolding same_text has_effect_adapters
  commands-IsAllowed c h =
      part-IsAllowed c (not (is_empty c.command_allowed_programs)) command_grants
        (λ e. rw e (ground arith)) (λ e. (isolated c.command_allowed_programs e h.isolated, tt))
    where
      isolated :
          (ps : List Text)
          → not (is_empty ps) ≡ true
          → (ps ≡ []) ⊎ (c.command_isolation ≢ denied)
          → (ps ≢ []) × (c.command_isolation ≢ denied)
      isolated [] e o = cc
      isolated (p ∷ ps) e (inl k) = cc
      isolated (p ∷ ps) e (inr k) = ((λ j. cc), k)

  network-IsAllowed :
      (c : CliHostConfig host)
      → All
          (IsAllowed c (sandbox host c))
          (push_if (not (is_empty c.program_network_allowlist)) network_grants)
  unfolding same_text has_effect_adapters
  network-IsAllowed c =
      part-IsAllowed c (not (is_empty c.program_network_allowlist)) network_grants
        (λ e. rw e (ground arith))
        (λ e.
          let some_endpoint = nonempty c.program_network_allowlist e in
          (
            some_endpoint,
            (some_endpoint, (some_endpoint, (some_endpoint, (some_endpoint, (some_endpoint, tt))))),
          ))
    where
      nonempty : (es : List NetworkEndpoint) → not (is_empty es) ≡ true → es ≢ []
      nonempty [] e = cc
      nonempty (x ∷ es) e = λ k. cc

  stores-IsAllowed :
      (c : CliHostConfig host) (mode : StoreMode)
      → (has_store mode ≡ true → has_effect_adapters c ≡ true)
      → All (IsAllowed c (sandbox host c)) (push_if (has_store mode) store_grants)
  unfolding same_text
  stores-IsAllowed c mode on =
      part-IsAllowed c (has_store mode) store_grants on (λ e. (tt, (tt, tt)))

  -- Every grant of a configuration that is settled is of use: a grant for files names the workspace
  -- or a region whose root the sandbox lists for that right, and one to delete goes with a policy that
  -- allows it; one for commands goes with a list of programs and an isolation, one for the network, TLS or
  -- a stream with a list of endpoints; and under a sandbox that
  -- denies everything there are only the grants for the console.
  pub granted-IsAllowed :
      IsDocumented host
      → (c : CliHostConfig host) → IsSettled c
      → All (IsAllowed c (sandbox host c)) (granted c)
  unfolding granted same_text has_effect_adapters
  granted-IsAllowed doc c h = All-concat (IsAllowed c (sandbox host c)) (grant_parts c) (
    console-IsAllowed c (sandbox host c),
    (
      compiler-IsAllowed c,
      (
        part-IsAllowed c (is_some c.model) model_grants (λ e. rw e (ground arith)) (λ e. (tt, tt)),
        (
          commands-IsAllowed c h,
          (
            mode_grants-IsAllowed host doc c h.coherent,
            (
              regions-IsAllowed host c,
              (
                stores-IsAllowed c c.memory_mode (λ e. rw e (ground arith)),
                (
                  stores-IsAllowed c c.session_mode (λ e. rw e (ground arith)),
                  (
                    network-IsAllowed c,
                    (
                      part-IsAllowed c (not (is_empty c.tool_bindings)) tool_grants
                          (λ e. rw e (ground arith)) (λ e. (tt, tt)),
                      (
                        part-IsAllowed c (has_secrets c.secret_mode) secret_grants
                            (λ e. rw e (ground arith)) (λ e. (tt, (tt, tt))),
                        tt,
                      ),
                    ),
                  ),
                ),
              ),
            ),
          ),
        ),
      ),
    ),
  )
