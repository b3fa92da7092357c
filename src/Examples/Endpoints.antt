-- ===== src/Examples/Endpoints.antt =====
-- Endpoints, rules and regions as they are written in profiles and variables.
use etas.Base.{codes, none, some, true, false, List, [], ◌∷◌, ◌≡◌, ◌↔◌, refl}
use Prim.Native.String.{String}
use etas.Diagnostics.{ok, err}
use etas.HostConfig.{NetworkEndpoint, invalid_port, mixed_filesystem, require_approval}
use etas.HostConfig.Profile.{none_config, apply_filesystem}
use etas.HostConfig.Network.{
  endpoint_le, network_endpoint_from_base_url, sort_dedup_network_allowlist,
}
use etas.Base.Canonical.{SameElements, IsStrict}
use etas.HostConfig.Allowlists.{
  sort_dedup_network_allowlist_iff, allowlist, normal_form, normal_form-IsStrict,
}
use etas.HostConfig.Policy.{parse_local_policy_rule}
use etas.Manifest.Names.{is_blank}
use etas.Examples.HostConfigs.{any_host}

abbrev endpoint : String → NetworkEndpoint
endpoint name = record { scheme = codes "tcp"; host = codes name; port = 443 }

abbrev allowed : List NetworkEndpoint
allowed = endpoint "b" ∷ endpoint "a" ∷ endpoint "b" ∷ []

sorts_allowed : sort_dedup_network_allowlist allowed ≡ endpoint "a" ∷ endpoint "b" ∷ []
unfolding sort_dedup_network_allowlist
sorts_allowed = refl

-- The same endpoints, in another order.
abbrev reordered : List NetworkEndpoint
reordered = endpoint "a" ∷ endpoint "a" ∷ endpoint "b" ∷ []

sort_dedup_network_allowlist_iff_example :
    (sort_dedup_network_allowlist allowed ≡ sort_dedup_network_allowlist reordered)
    ↔ SameElements allowed reordered
sort_dedup_network_allowlist_iff_example = sort_dedup_network_allowlist_iff allowed reordered

normal_form-IsStrict_example :
    (allowlist (normal_form (allowlist allowed)) ≡ allowlist allowed)
    × IsStrict endpoint_le (normal_form (allowlist allowed))
normal_form-IsStrict_example = normal_form-IsStrict (allowlist allowed)

-- A path ends the authority.
reads_endpoint :
    network_endpoint_from_base_url (codes "https://example.com:8443/v1")
    ≡ ok (record { scheme = codes "https"; host = codes "example.com"; port = 8443 })
unfolding network_endpoint_from_base_url
reads_endpoint = refl

default_port :
    network_endpoint_from_base_url (codes "http://example.com")
    ≡ ok (record { scheme = codes "http"; host = codes "example.com"; port = 80 })
unfolding network_endpoint_from_base_url
default_port = refl

rejects_port :
    network_endpoint_from_base_url (codes "tcp://h:65536")
    ≡ err (invalid_port (codes "tcp://h:65536"))
unfolding network_endpoint_from_base_url
rejects_port = refl

reads_rule :
    parse_local_policy_rule (codes "fs : Fs.read = require-approval")
    ≡ ok (record {
      kind = codes "fs";
      decision = require_approval;
      action = some (codes "Fs.read");
      resource = none;
    })
unfolding parse_local_policy_rule is_blank
reads_rule = refl

-- Regions do not stand beside a mode.
mixes_nothing :
    apply_filesystem any_host
      (codes "/p")
      (record {
        mode = some (codes "readonly");
        workspace_root = none;
        regions =
            (codes "data", record { root = codes "d"; read = true; write = false; delete = false })
            ∷ [];
      })
      (none_config any_host)
    ≡ err mixed_filesystem
unfolding apply_filesystem
mixes_nothing = refl
