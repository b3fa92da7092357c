-- ===== src/Examples/Locks.antt =====
-- Locked sources, and the theorems on them.
use etas.Base.{Text, codes, contains, Option, none, some, [], ◌∷◌, ◌≡◌, ◌≢◌, refl}
use etas.Metadata.{ResolvedDependencySource, git}
use etas.Resolver.Codec.{encode_lock_value, decode_lock_value, decode-encode_lock_value}
use etas.Resolver.Source.{parse_source, lock_source}
use etas.Resolver.RoundTrip.{reference, parse_source-lock_source}

decode-encode_lock_value_example :
    decode_lock_value (encode_lock_value (codes "v1 & more")) ≡ some (codes "v1 & more")
unfolding etas.Base.Utf8.is_utf8
decode-encode_lock_value_example = decode-encode_lock_value (codes "v1 & more") refl

abbrev git_source : ResolvedDependencySource Text
git_source = git (codes "https://example.org/json") (codes "0123abcd") (codes "blake3:") none

parse_source-lock_source_example :
    parse_source (lock_source git_source) ≡ some (reference git_source)
parse_source-lock_source_example =
    parse_source-lock_source Text git_source (refl, (λ e. absurd (cc)), refl)
