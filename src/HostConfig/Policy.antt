-- ===== src/HostConfig/Policy.antt =====
-- The policy client: rules, retries, and what a profile or the environment says of them.
use etas.Base.{ℕ, Text, codes, Option, none, some, Bool, true, false, ◌==◌, if◌then◌else◌}
use etas.Base.{List, [], ◌∷◌, split, split_once, is_empty, same_text, not}
use etas.Base.TreeMap.{get}
use etas.Diagnostics.{Result, ok, err, ◌>>=◌, ok_or, fail_if}
use etas.Archive.Octal.{trim}
use etas.Manifest.Schema.{RuntimePolicyProfile, RuntimeRetryProfile}
use etas.HostConfig.{
  UsageError, unsupported, invalid_rule, kind_required, too_many_components, rules_required,
  url_required, no_attempts, not_number, transport, Env, PolicyMode, local_static, http_policy,
  PrivateResolutionPolicy, public_only, RetryPolicy, LocalPolicyDecision, allow_action,
  require_approval, deny_action, LocalPolicyRule, AuthConfig, no_auth, bearer_token,
  CliPolicyHttpConfig, NetworkEndpoint, Host,
}
use etas.HostConfig.Texts.{traverse, entries, map_trim, parse_unsigned}
use etas.HostConfig.Modes.{
  unwrap_or, or, private_resolution_from_flag, parse_private_resolution_flag,
}
use etas.HostConfig.Network.{network_endpoint_from_base_url}

unfoldable pub parse_local_policy_decision : Text → Result UsageError LocalPolicyDecision
unfolding same_text
parse_local_policy_decision v =
    if same_text v (codes "allow")
    then ok allow_action
    else if same_text v (codes "approval")
    then ok require_approval
    else if same_text v (codes "require-approval")
    then ok require_approval
    else if same_text v (codes "require_approval")
    then ok require_approval
    else if same_text v (codes "deny")
    then ok deny_action
    else err (unsupported (codes "decision") v)

-- `filter(|part| !part.is_empty())` on an option
abbrev pub nonempty : Text → Option Text
nonempty [] = none
nonempty (c ∷ cs) = some (c ∷ cs)

-- The components of a selector: the kind, and at most an action and a resource.
unfoldable pub rule_of : Text → LocalPolicyDecision → List Text → Result UsageError LocalPolicyRule
rule_of rule decision [] = err (kind_required rule)
rule_of rule decision ([] ∷ parts) = err (kind_required rule)
rule_of rule decision ((c ∷ cs) ∷ []) =
    ok (record { kind = c ∷ cs; decision = decision; action = none; resource = none })
rule_of rule decision ((c ∷ cs) ∷ a ∷ []) =
    ok (record { kind = c ∷ cs; decision = decision; action = nonempty a; resource = none })
rule_of rule decision ((c ∷ cs) ∷ a ∷ r ∷ []) =
    ok (record { kind = c ∷ cs; decision = decision; action = nonempty a; resource = nonempty r })
rule_of rule decision ((c ∷ cs) ∷ a ∷ r ∷ p ∷ ps) = err (too_many_components rule)

unfoldable pub parse_local_policy_rule : Text → Result UsageError LocalPolicyRule
unfolding split_once split trim map_trim parse_local_policy_decision rule_of
parse_local_policy_rule rule =
    ok_or (split_once 61 rule) (invalid_rule rule) >>= λ (selector, decision).
    parse_local_policy_decision (trim decision) >>= λ d.
    rule_of rule d (map_trim (split 58 selector))

abbrev pub is_local_static : PolicyMode → Bool
is_local_static mode = elim mode [ local_static ↦ true | _ ↦ false ]

abbrev pub is_http : PolicyMode → Bool
is_http mode = elim mode [ http_policy ↦ true | _ ↦ false ]

-- The rules of a policy that decides by rules, one at least.
unfoldable pub some_rules : List Text → Result UsageError (Option (List LocalPolicyRule))
unfolding traverse parse_local_policy_rule
some_rules rules = traverse parse_local_policy_rule rules >>= λ rs.
    fail_if (is_empty rs) rules_required >>= λ _. ok (some rs)

unfoldable pub policy_local_from_rules :
    PolicyMode → List Text → Result UsageError (Option (List LocalPolicyRule))
unfolding some_rules
policy_local_from_rules mode rules = if is_local_static mode then some_rules rules else ok none

unfoldable pub policy_local_from_env_overrides :
    PolicyMode → Env → Result UsageError (Option (List LocalPolicyRule))
unfolding some_rules get entries
policy_local_from_env_overrides mode env =
    if is_local_static mode
    then (ok_or (get (codes "ETAS_HOST_POLICY_RULES") env) rules_required >>= λ rules.
        some_rules (entries rules))
    else ok none

unfoldable pub private_resolution_from_env_override :
    Env → Text → PrivateResolutionPolicy → Result UsageError PrivateResolutionPolicy
unfolding get parse_private_resolution_flag
private_resolution_from_env_override env name base = elim (get name env) [
  | none ↦ ok base
  | some value ↦
      parse_private_resolution_flag name value >>= λ b. ok (private_resolution_from_flag b)
]

abbrev pub u8_max : ℕ
u8_max = 255

abbrev pub u64_max : ℕ
u64_max = 18446744073709551615

abbrev pub default_transport_retry : RetryPolicy
default_transport_retry = record { attempts = 3; delay_ms = 25 }

unfoldable pub retry_policy_from_parts : (attempts delay_ms : ℕ) → Result UsageError RetryPolicy
retry_policy_from_parts attempts delay_ms =
    if attempts == 0
    then err no_attempts
    else ok (record { attempts = attempts; delay_ms = delay_ms })

abbrev pub profile_attempts : Option RuntimeRetryProfile → Option ℕ
profile_attempts none = none
profile_attempts (some p) = p.attempts

abbrev pub profile_delay : Option RuntimeRetryProfile → Option ℕ
profile_delay none = none
profile_delay (some p) = p.delay_ms

unfoldable pub retry_policy_from_profile :
    Option RuntimeRetryProfile → RetryPolicy → Result UsageError RetryPolicy
unfolding retry_policy_from_parts
retry_policy_from_profile profile base =
    retry_policy_from_parts (unwrap_or (profile_attempts profile) base.attempts)
      (unwrap_or (profile_delay profile) base.delay_ms)

-- A variable that is a number, or what it overrides.
unfoldable pub number_or : (max : ℕ) (name : Text) → Option Text → ℕ → Result UsageError ℕ
unfolding parse_unsigned
number_or max name none base = ok base
number_or max name (some value) base = ok_or (parse_unsigned max value) (not_number name)

unfoldable pub retry_policy_from_env :
    Env → (attempts_name delay_name : Text) → RetryPolicy → Result UsageError RetryPolicy
unfolding number_or get retry_policy_from_parts
retry_policy_from_env env attempts_name delay_name base =
    number_or u8_max attempts_name (get attempts_name env) base.attempts >>= λ attempts.
    number_or u64_max delay_name (get delay_name env) base.delay_ms >>= λ delay_ms.
    retry_policy_from_parts attempts delay_ms

abbrev pub auth_of : Option Text → AuthConfig
auth_of none = no_auth
auth_of (some token) = bearer_token token

abbrev pub named : Env → Option Text → Option Text
named env none = none
named env (some name) = get name env

abbrev pub resolution_or : Option Bool → PrivateResolutionPolicy
resolution_or none = public_only
resolution_or (some flag) = private_resolution_from_flag flag

abbrev pub current_url : Option CliPolicyHttpConfig → Option Text
current_url none = none
current_url (some p) = some p.base_url

abbrev pub current_retry : Option CliPolicyHttpConfig → RetryPolicy
current_retry none = default_transport_retry
current_retry (some p) = p.retry

abbrev pub current_resolution : Option CliPolicyHttpConfig → PrivateResolutionPolicy
current_resolution none = public_only
current_resolution (some p) = p.private_resolution

module _ (host : Host) where
  -- `HttpPolicyClient::try_new_with_policy(..)?.with_auth(..).with_retry(..)`
  unfoldable pub http_client :
      (base_url : Text)
      → NetworkEndpoint
      → PrivateResolutionPolicy
      → RetryPolicy
      → AuthConfig
      → Option Text
      → Result UsageError (Option CliPolicyHttpConfig)
  http_client base_url endpoint resolution retry auth path =
      fail_if (not (host.is_transport base_url resolution)) transport >>= λ _. ok (
        some (record {
          base_url = base_url;
          endpoint = endpoint;
          private_resolution = resolution;
          retry = retry;
          auth = auth;
          path = path;
        }))

  unfoldable pub policy_http_from_profile :
      PolicyMode → RuntimePolicyProfile → Env → Result UsageError (Option CliPolicyHttpConfig)
  unfolding http_client network_endpoint_from_base_url get retry_policy_from_profile
      private_resolution_from_env_override
  policy_http_from_profile mode profile env =
      if is_http mode
      then (ok_or profile.url url_required >>= λ base_url.
          network_endpoint_from_base_url base_url >>= λ endpoint.
          retry_policy_from_profile profile.retry default_transport_retry >>= λ retry.
          private_resolution_from_env_override env (codes "ETAS_HOST_POLICY_ALLOW_PRIVATE")
            (resolution_or profile.allow_private)
          >>= λ resolution.
              http_client base_url endpoint resolution retry (auth_of (named env profile.token_env))
                profile.path)
      else ok none

  unfoldable pub policy_http_from_env_overrides :
      PolicyMode → Env → Option CliPolicyHttpConfig → Result UsageError (Option CliPolicyHttpConfig)
  unfolding http_client network_endpoint_from_base_url get retry_policy_from_env
      private_resolution_from_env_override
  policy_http_from_env_overrides mode env current =
      if is_http mode
      then (ok_or (or (get (codes "ETAS_HOST_POLICY_URL") env) (current_url current)) url_required
          >>= λ base_url. network_endpoint_from_base_url base_url >>= λ endpoint.
              retry_policy_from_env env (codes "ETAS_HOST_POLICY_RETRY_ATTEMPTS")
                (codes "ETAS_HOST_POLICY_RETRY_DELAY_MS") (current_retry current)
              >>= λ retry.
                  private_resolution_from_env_override env (codes "ETAS_HOST_POLICY_ALLOW_PRIVATE")
                    (current_resolution current)
                  >>= λ resolution.
                      http_client base_url endpoint resolution retry
                        (auth_of (get (codes "ETAS_HOST_POLICY_TOKEN") env))
                        (get (codes "ETAS_HOST_POLICY_PATH") env))
      else ok none
