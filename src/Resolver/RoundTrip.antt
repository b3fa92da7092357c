-- ===== src/Resolver/RoundTrip.antt =====
-- What a lockfile says of a source is what the resolver reads back.
use etas.Base.{Text, codes, same_text, strip_prefix, split, contains}
use etas.Base.{split_once-append, Option, some, true, false, [], ◌∷◌, ◌++◌}
use etas.Base.{◌≡◌, ◌≢◌, refl, ap, ◌∙◌}
use etas.Base.Split.{split-none, split-append}
use etas.Base.Utf8.{is_utf8}
use etas.Metadata.{ResolvedDependencySource}
use etas.Resolver.Codec.{encode_lock_value, decode-encode_lock_value, encode_lock_value_no_amp}
use etas.Resolver.Source.{
  LockedSourceRef, builtin, registry, path, vendor, git, github_clone, github_release, non_empty,
  with_rev, with_release, query_value, parse_source, lock_source,
}

abbrev pub IsTarget : Text → Text → Type 0
IsTarget target rev = (contains target b'?' ≡ false) × (rev ≢ []) × (contains rev b'&' ≡ false)

module _ {K : Type 0} where
  -- The source without what only the package index keeps: checksums, stores and origins.
  abbrev pub reference : ResolvedDependencySource K → LockedSourceRef
  reference (ResolvedDependencySource.builtin checksum) = builtin
  reference (ResolvedDependencySource.registry r checksum store) = registry r
  reference (ResolvedDependencySource.git url rev checksum store) = git url rev
  reference (ResolvedDependencySource.github_clone repo rev checksum store) = github_clone repo rev
  reference (ResolvedDependencySource.github_release repo release asset checksum payload store) =
      github_release repo release asset
  reference (ResolvedDependencySource.path p checksum) = path p
  reference (ResolvedDependencySource.vendor p checksum store origin) = vendor p

  -- A URL or repository has no `?`, a revision is not empty and has no `&`, and a release and its
  -- asset are non-empty texts.
  abbrev pub IsLockable : ResolvedDependencySource K → Type 0
  IsLockable (ResolvedDependencySource.git url rev checksum store) = IsTarget url rev
  IsLockable (ResolvedDependencySource.github_clone repo rev checksum store) = IsTarget repo rev
  IsLockable (ResolvedDependencySource.github_release repo release asset checksum payload store) =
      (contains repo b'?' ≡ false)
      × ((release ≢ []) × (is_utf8 release ≡ true))
      × ((asset ≢ []) × (is_utf8 asset ≡ true))
  IsLockable _ = Unit

non_empty-some : (t : Text) → t ≢ [] → non_empty (some t) ≡ some t
non_empty-some [] h = absurd (h refl)
non_empty-some (c ∷ cs) h = refl

rev_value :
    (rev : Text)
    → rev ≢ []
    → contains rev b'&' ≡ false
    → non_empty (query_value (codes "rev=") (codes "rev=" ++ rev)) ≡ some rev
rev_value rev h k =
    rw (split-none b'&' (codes "rev=" ++ rev) k) (unfold strip_prefix in non_empty-some rev h)

release_parts :
    (release asset : Text)
    → split b'&' (
        codes "release="
        ++ (encode_lock_value release ++ (codes "&asset=" ++ encode_lock_value asset)))
      ≡ (codes "release=" ++ encode_lock_value release)
        ∷ (codes "asset=" ++ encode_lock_value asset)
        ∷ []
release_parts release asset =
    split-append b'&' (codes "release=" ++ encode_lock_value release)
      (codes "asset=" ++ encode_lock_value asset) (encode_lock_value_no_amp release)
    ∙ ap (λ rest. (codes "release=" ++ encode_lock_value release) ∷ rest)
        (split-none b'&' (codes "asset=" ++ encode_lock_value asset)
          (encode_lock_value_no_amp asset))

with_rev_lem :
    (make : Text → Text → LockedSourceRef) (target rev : Text)
    → rev ≢ []
    → contains rev b'&' ≡ false
    → with_rev make (target, codes "rev=" ++ rev) ≡ some (make target rev)
with_rev_lem make target rev h k = rw (rev_value rev h k, with_rev) refl

with_release_lem :
    (repo release asset : Text)
    → (release ≢ []) × (is_utf8 release ≡ true)
    → (asset ≢ []) × (is_utf8 asset ≡ true)
    → with_release (
      repo,
      codes "release="
          ++ (encode_lock_value release ++ (codes "&asset=" ++ encode_lock_value asset)),
    )
      ≡ some (github_release repo release asset)
unfolding strip_prefix
with_release_lem repo release asset r a =
    rw (release_parts release asset, with_release)
      (rw (decode-encode_lock_value release r.1, non_empty-some release r.0)
        (rw (release_parts release asset)
          (rw (decode-encode_lock_value asset a.1, non_empty-some asset a.0) refl)))

module _ (K : Type 0) where
  git_round :
      (url rev checksum : Text) (store : Option Text)
      → IsTarget url rev
      → parse_source (lock_source {K = K} (ResolvedDependencySource.git url rev checksum store))
        ≡ some (git url rev)
  unfolding parse_source lock_source strip_prefix same_text
  git_round url rev checksum store (u, n, a) =
      rw (split_once-append b'?' url (codes "rev=" ++ rev) u) (with_rev_lem git url rev n a)

  clone_round :
      (repo rev checksum : Text) (store : Option Text)
      → IsTarget repo rev
      → parse_source
          (lock_source {K = K} (ResolvedDependencySource.github_clone repo rev checksum store))
        ≡ some (github_clone repo rev)
  unfolding parse_source lock_source strip_prefix same_text
  clone_round repo rev checksum store (u, n, a) =
      rw (split_once-append b'?' repo (codes "rev=" ++ rev) u)
        (with_rev_lem github_clone repo rev n a)

  -- A source that can be locked is read back from its lockfile string: the same kind, the same
  -- target, and the same revision or release and asset.
  pub parse_source-lock_source :
      (s : ResolvedDependencySource K)
      → IsLockable s
      → parse_source (lock_source s) ≡ some (reference s)
  unfolding parse_source lock_source strip_prefix same_text
  parse_source-lock_source (ResolvedDependencySource.builtin checksum) h = refl
  parse_source-lock_source (ResolvedDependencySource.registry r checksum store) h = refl
  parse_source-lock_source (ResolvedDependencySource.path p checksum) h = refl
  parse_source-lock_source (ResolvedDependencySource.vendor p checksum store origin) h = refl
  parse_source-lock_source (ResolvedDependencySource.git url rev checksum store) h =
      git_round url rev checksum store h
  parse_source-lock_source (ResolvedDependencySource.github_clone repo rev checksum store) h =
      clone_round repo rev checksum store h
  parse_source-lock_source
        (ResolvedDependencySource.github_release repo release asset checksum payload store)
        (q, r, a) =
      rw
        (split_once-append b'?' repo
          (codes "release="
            ++ (encode_lock_value release ++ (codes "&asset=" ++ encode_lock_value asset)))
          q)
        (with_release_lem repo release asset r a)
