-- ===== src/Resolver/Source.antt =====
-- The source string of a locked package: written by `lock_source` of
-- crates/etas_package/src/resolver/lock.rs and by its copy in environment.rs, read by source.rs.
use etas.Base.{Text, codes, same_text, strip_prefix, split, split_once, find_map}
use etas.Base.{Option, none, some, Bool, false, ◌&&◌, ◌||◌, [], ◌∷◌, ◌++◌}
use etas.Base.{is_some, is_none, if◌then◌else◌}
use etas.Manifest.Schema.{DependencySpec, detailed}
use etas.Metadata.{ResolvedDependencySource}
use etas.Lockfile.{LockedPackage}
use etas.Resolver.Codec.{encode_lock_value, decode_lock_value}

pub data LockedSourceRef : Type 0 where
  builtin : LockedSourceRef
  registry : (registry : Text) → LockedSourceRef
  path : (path : Text) → LockedSourceRef
  vendor : (path : Text) → LockedSourceRef
  git : (url rev : Text) → LockedSourceRef
  github_clone : (repo rev : Text) → LockedSourceRef
  github_release : (repo release asset : Text) → LockedSourceRef

unfoldable pub spec_source_requires_exact_git_rev : DependencySpec → Bool
spec_source_requires_exact_git_rev (DependencySpec.version v) = false
spec_source_requires_exact_git_rev (detailed detail) =
    is_some detail.git || (is_some detail.github && is_none detail.release)

-- `split_once('?').unwrap_or((rest, ""))`
abbrev pub with_query : Option (Text × Text) → Text → Text × Text
with_query none rest = (rest, [])
with_query (some parts) rest = parts

-- `query.split('&').find_map(|part| part.strip_prefix(key))`
abbrev pub query_value : Text → Text → Option Text
query_value key query = find_map (strip_prefix key) (split b'&' query)

-- `.filter(|value| !value.is_empty())`
abbrev pub non_empty : Option Text → Option Text
non_empty none = none
non_empty (some []) = none
non_empty (some (c ∷ cs)) = some (c ∷ cs)

-- `.and_then(decode_lock_value)`
abbrev pub decoded : Option Text → Option Text
decoded none = none
decoded (some t) = decode_lock_value t

abbrev pub with_rev : (Text → Text → LockedSourceRef) → Text × Text → Option LockedSourceRef
with_rev make (target, query) = elim (non_empty (query_value (codes "rev=") query)) [
  | none ↦ none
  | some rev ↦ some (make target rev)
]

abbrev pub with_release : Text × Text → Option LockedSourceRef
with_release (repo, query) = elim (non_empty (decoded (query_value (codes "release=") query))) [
  | none ↦ none
  | some release ↦ elim (non_empty (decoded (query_value (codes "asset=") query))) [
    | none ↦ none
    | some asset ↦ some (github_release repo release asset)
  ]
]

unfoldable pub parse_source : Text → Option LockedSourceRef
parse_source s =
    if same_text s (codes "builtin")
    then some builtin
    else elim (strip_prefix (codes "registry+") s) [
      | some r ↦ some (registry r)
      | none ↦ elim (strip_prefix (codes "path+") s) [
        | some p ↦ some (path p)
        | none ↦ elim (strip_prefix (codes "vendor+") s) [
          | some p ↦ some (vendor p)
          | none ↦ elim (strip_prefix (codes "git+") s) [
            | some rest ↦ with_rev git (with_query (split_once b'?' rest) rest)
            | none ↦ elim (strip_prefix (codes "github+") s) [
              | some rest ↦ with_rev github_clone (with_query (split_once b'?' rest) rest)
              | none ↦ elim (strip_prefix (codes "github-release+") s) [
                | some rest ↦ with_release (with_query (split_once b'?' rest) rest)
                | none ↦ none
              ]
            ]
          ]
        ]
      ]
    ]

unfoldable pub resolved_source_from_lockfile : LockedPackage → Option LockedSourceRef
unfolding parse_source
resolved_source_from_lockfile locked = parse_source locked.source

module _ {K : Type 0} where
  unfoldable pub lock_source : ResolvedDependencySource K → Text
  lock_source (ResolvedDependencySource.builtin checksum) = codes "builtin"
  lock_source (ResolvedDependencySource.registry r checksum store) = codes "registry+" ++ r
  lock_source (ResolvedDependencySource.git url rev checksum store) =
      codes "git+" ++ (url ++ (codes "?rev=" ++ rev))
  lock_source (ResolvedDependencySource.github_clone repo rev checksum store) =
      codes "github+" ++ (repo ++ (codes "?rev=" ++ rev))
  lock_source (ResolvedDependencySource.github_release repo release asset checksum payload store) =
      codes "github-release+"
      ++ (repo
          ++ (codes "?release="
              ++ (encode_lock_value release ++ (codes "&asset=" ++ encode_lock_value asset))))
  lock_source (ResolvedDependencySource.path p checksum) = codes "path+" ++ p
  lock_source (ResolvedDependencySource.vendor p checksum store origin) = codes "vendor+" ++ p
