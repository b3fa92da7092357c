-- ===== src/HostConfig/Network.antt =====
-- Endpoints in allowlists and base URLs.
use etas.Base.{ℕ, Text, codes, Option, none, some, Bool, true, false, ◌||◌, ◌&&◌, if◌then◌else◌}
use etas.Base.{List, [], ◌∷◌, ◌++◌, split, contains, is_empty, same_text, is_some, ◌==◌, leb}
use Prim.Native.Nat.{lt, eq, gt}
use etas.Base.Order.{cmp}
use etas.Base.Sort.{sort_by, dedup_by}
use etas.Diagnostics.{Result, ok, err, ◌>>=◌, ok_or, fail_if}
use etas.HostConfig.{
  UsageError, missing_scheme, unsupported_authority, invalid_port, port_required, missing_host,
  NetworkEndpoint,
}
use etas.HostConfig.Texts.{traverse, entries, split_once_at, rsplit_once, parse_unsigned}

abbrev pub u16_max : ℕ
u16_max = 65535

-- `rest.split('/').next().unwrap_or_default()`
abbrev pub first_piece : List Text → Text
first_piece [] = []
first_piece (p ∷ ps) = p

abbrev pub starts_with : Text → ℕ → Bool
starts_with [] c = false
starts_with (x ∷ xs) c = x == c

-- Host and port of an authority, split at its last `:` if it has one.
unfoldable pub host_and_port :
    (base_url scheme authority : Text) → Option (Text × Text) → Result UsageError (Text × ℕ)
unfolding same_text parse_unsigned
host_and_port base_url scheme authority (some (host, port)) =
    ok_or (parse_unsigned u16_max port) (invalid_port base_url) >>= λ p. ok (host, p)
host_and_port base_url scheme authority none =
    if same_text scheme (codes "https")
    then ok (authority, 443)
    else if same_text scheme (codes "http")
    then ok (authority, 80)
    else err (port_required base_url)

unfoldable pub endpoint_of : (base_url scheme authority : Text) → Result UsageError NetworkEndpoint
unfolding host_and_port rsplit_once
endpoint_of base_url scheme authority =
    fail_if (is_empty authority || (contains authority 64 || starts_with authority 91))
      (unsupported_authority base_url)
    >>= λ _. host_and_port base_url scheme authority (rsplit_once 58 authority) >>= λ (host, port).
        fail_if (is_empty host) (missing_host base_url) >>= λ _.
        ok (record { scheme = scheme; host = host; port = port })

unfoldable pub network_endpoint_from_base_url : Text → Result UsageError NetworkEndpoint
unfolding endpoint_of split_once_at split
network_endpoint_from_base_url base_url =
    ok_or (split_once_at (codes "://") base_url) (missing_scheme base_url) >>= λ (scheme, rest).
    endpoint_of base_url scheme (first_piece (split 47 rest))

-- `value.contains("://")`
abbrev pub has_scheme : Text → Bool
has_scheme value = is_some (split_once_at (codes "://") value)

unfoldable pub parse_network_allowlist_endpoint : Text → Result UsageError NetworkEndpoint
unfolding network_endpoint_from_base_url split_once_at
parse_network_allowlist_endpoint value =
    if has_scheme value
    then network_endpoint_from_base_url value
    else network_endpoint_from_base_url (codes "tcp://" ++ value)

unfoldable pub parse_network_allowlist : Option Text → Result UsageError (List NetworkEndpoint)
unfolding traverse entries parse_network_allowlist_endpoint
parse_network_allowlist none = ok []
parse_network_allowlist (some value) = traverse parse_network_allowlist_endpoint (entries value)

-- What one value of `--allow-net` stands for.
unfoldable pub cli_endpoints : Text → Result UsageError (List NetworkEndpoint)
unfolding network_endpoint_from_base_url split_once_at
cli_endpoints value =
    if has_scheme value
    then (network_endpoint_from_base_url value >>= λ e. ok (e ∷ []))
    else (network_endpoint_from_base_url (codes "tcp://" ++ value) >>= λ tcp.
        ok (tcp ∷ record { scheme = codes "tls"; host = tcp.host; port = tcp.port } ∷ []))

unfoldable pub parse_cli_network_allowlist : List Text → Result UsageError (List NetworkEndpoint)
unfolding cli_endpoints
parse_cli_network_allowlist [] = ok []
parse_cli_network_allowlist (value ∷ values) =
    cli_endpoints value >>= λ es. parse_cli_network_allowlist values >>= λ rest. ok (es ++ rest)

unfoldable pub endpoint_le : NetworkEndpoint → NetworkEndpoint → Bool
unfolding cmp
endpoint_le left right = elim (cmp left.scheme right.scheme) [
  | lt ↦ true
  | gt ↦ false
  | eq ↦ elim (cmp left.host right.host) [ lt ↦ true | gt ↦ false | eq ↦ leb left.port right.port ]
]

unfoldable pub same_endpoint : NetworkEndpoint → NetworkEndpoint → Bool
unfolding same_text
same_endpoint a b = same_text a.scheme b.scheme && (same_text a.host b.host && (a.port == b.port))

unfoldable pub sort_dedup_network_allowlist : List NetworkEndpoint → List NetworkEndpoint
unfolding sort_by dedup_by endpoint_le same_endpoint
sort_dedup_network_allowlist endpoints = dedup_by same_endpoint (sort_by endpoint_le endpoints)
