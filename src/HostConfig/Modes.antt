-- ===== src/HostConfig/Modes.antt =====
-- The names of modes, in profiles and in environment variables.
use etas.Base.{Text, Option, none, some, Bool, true, false, if◌then◌else◌, codes, same_text}
use etas.Base.{strip_prefix, is_empty, is_some}
use etas.Diagnostics.{Result, ok, err, ◌>>=◌, ok_or}
use etas.Manifest.Schema.{RuntimeBackendProfile}
use etas.HostConfig.{
  UsageError, unsupported, path_required, not_boolean, FilesystemMode, no_access, read_only,
  read_write, destructive, StoreMode, no_store, memory, sqlite, SecretMode, no_secrets, env_secrets,
  ApprovalMode, deny, auto, prompt, PolicyMode, deny_unknown, unsafe_trace_spec_runtime,
  unsafe_allow_local_static, unsafe_require_approval_local_static, local_static, http_policy,
  PrivateResolutionPolicy, public_only, allow_private,
}

-- `unwrap_or`
abbrev pub unwrap_or {ℓ} : {A : Type ℓ} → Option A → A → A
unwrap_or none a = a
unwrap_or (some b) a = b

-- `Option::or`
abbrev pub or {ℓ} : {A : Type ℓ} → Option A → Option A → Option A
or (some a) b = some a
or none b = b

unfoldable pub filesystem_mode_of : Text → Result UsageError FilesystemMode
unfolding same_text
filesystem_mode_of v =
    if same_text v (codes "none")
    then ok no_access
    else if same_text v (codes "readonly")
    then ok read_only
    else if same_text v (codes "readwrite")
    then ok read_write
    else if same_text v (codes "destructive")
    then ok destructive
    else err (unsupported (codes "ETAS_HOST_FILESYSTEM") v)

unfoldable pub parse_filesystem_mode : Option Text → Result UsageError FilesystemMode
unfolding filesystem_mode_of
parse_filesystem_mode value = filesystem_mode_of (unwrap_or value (codes "none"))

unfoldable pub parse_secret_mode : Option Text → Result UsageError SecretMode
unfolding same_text
parse_secret_mode value =
    let v = unwrap_or value (codes "none") in
    if same_text v (codes "none")
    then ok no_secrets
    else if same_text v (codes "env")
    then ok env_secrets
    else err (unsupported (codes "ETAS_HOST_SECRET") v)

unfoldable pub parse_approval_mode : Option Text → Result UsageError ApprovalMode
unfolding same_text
parse_approval_mode value =
    let v = unwrap_or value (codes "deny") in
    if same_text v (codes "deny")
    then ok deny
    else if same_text v (codes "auto")
    then ok auto
    else if same_text v (codes "prompt")
    then ok prompt
    else err (unsupported (codes "ETAS_HOST_APPROVAL") v)

unfoldable pub parse_policy_mode : Option Text → Result UsageError PolicyMode
unfolding same_text
parse_policy_mode value =
    let v = unwrap_or value (codes "deny") in
    if same_text v (codes "deny")
    then ok deny_unknown
    else if same_text v (codes "deny-unknown")
    then ok deny_unknown
    else if same_text v (codes "unsafe-trace-spec-runtime")
    then ok unsafe_trace_spec_runtime
    else if same_text v (codes "unsafe-allow-local-static")
    then ok unsafe_allow_local_static
    else if same_text v (codes "unsafe-require-approval-local-static")
    then ok unsafe_require_approval_local_static
    else if same_text v (codes "local-static")
    then ok local_static
    else if same_text v (codes "http")
    then ok http_policy
    else err (unsupported (codes "ETAS_HOST_POLICY") v)

-- The backend of a store by its name, with the path that `sqlite` needs.
unfoldable pub store_mode_of : (option v : Text) → Option Text → Result UsageError StoreMode
unfolding same_text
store_mode_of option v path =
    if same_text v (codes "none")
    then ok no_store
    else if same_text v (codes "memory")
    then ok memory
    else if same_text v (codes "sqlite")
    then (ok_or path (path_required option) >>= λ p. ok (sqlite p))
    else err (unsupported option v)

-- `sqlite:<path>` or the name of a backend.
unfoldable pub inline_store_mode :
    (option v : Text) → Option Text → Option Text → Result UsageError StoreMode
unfolding store_mode_of
inline_store_mode option v path none = store_mode_of option v path
inline_store_mode option v path (some p) =
    if is_empty p then err (path_required option) else ok (sqlite p)

unfoldable pub parse_memory_mode : Option Text → Option Text → Result UsageError StoreMode
unfolding inline_store_mode strip_prefix
parse_memory_mode value path_override =
    let v = unwrap_or value (codes "none") in
    inline_store_mode (codes "ETAS_HOST_MEMORY") v path_override (strip_prefix (codes "sqlite:") v)

unfoldable pub parse_session_mode :
    Option Text → Option Text → Option Text → Result UsageError StoreMode
unfolding inline_store_mode strip_prefix
parse_session_mode none path_override session_id =
    ok (if is_some session_id then memory else no_store)
parse_session_mode (some v) path_override session_id =
    inline_store_mode (codes "ETAS_HOST_SESSION") v path_override (strip_prefix (codes "sqlite:") v)

unfoldable pub memory_mode_from_profile : RuntimeBackendProfile → Result UsageError StoreMode
unfolding store_mode_of
memory_mode_from_profile profile =
    store_mode_of (codes "memory") (unwrap_or profile.backend (codes "none")) profile.path

unfoldable pub session_mode_from_profile :
    RuntimeBackendProfile → Option Text → Result UsageError StoreMode
unfolding store_mode_of
session_mode_from_profile profile session_id =
    store_mode_of (codes "session")
      (unwrap_or profile.backend (if is_some session_id then codes "memory" else codes "none"))
      profile.path

abbrev pub private_resolution_from_flag : Bool → PrivateResolutionPolicy
private_resolution_from_flag true = allow_private
private_resolution_from_flag false = public_only

unfoldable pub parse_private_resolution_flag : (name value : Text) → Result UsageError Bool
unfolding same_text
parse_private_resolution_flag name value =
    if same_text value (codes "true")
    then ok true
    else if same_text value (codes "false")
    then ok false
    else err (not_boolean name)
