-- ===== src/Lock/Packages.antt =====
-- The packages locked so far, from `insert_locked_package` and `insert_index_dependency` of
-- crates/etas_package/src/resolver/lock.rs and `dependency_lock_checksum` of vendor/mod.rs. The hash of
-- a dependency's JSON document, which serde_json and BLAKE3 compute, is a parameter.
use etas.Base.{
  Text, codes, same_text, Option, none, some, Bool, true, false, ◌&&◌, List, [], ◌∷◌, ◌++◌,
  if◌then◌else◌,
}
use etas.Base.TreeMap.{TreeMap, get, insert}
use etas.Diagnostics.{PackageDiagnostic}
use etas.Metadata.{ResolvedDependencySource, ResolvedDependency, resolved, Dependencies, nil, cons}
use etas.Lockfile.{LockedPackage}
use etas.Resolver.Source.{lock_source}

abbrev pub same_texts : List Text → List Text → Bool
same_texts [] [] = true
same_texts (a ∷ xs) (b ∷ ys) = same_text a b && same_texts xs ys
same_texts _ _ = false

abbrev pub same_option : Option Text → Option Text → Bool
same_option none none = true
same_option (some a) (some b) = same_text a b
same_option _ _ = false

-- The derived `PartialEq`.
unfoldable pub same_package : LockedPackage → LockedPackage → Bool
same_package a b =
    same_text a.name b.name
    && same_text a.version b.version
    && same_text a.source b.source
    && same_text a.checksum b.checksum
    && same_texts a.dependencies b.dependencies
    && same_text a.import_root b.import_root
    && same_option a.metadata_fingerprint b.metadata_fingerprint

-- The text of `locked_package_key`, `dependency_lock_ref` and `locked_dependency_ref`.
abbrev pub key_of : (import_root name version : Text) → Text
key_of import_root name version = import_root ++ (codes "|" ++ (name ++ (codes "|" ++ version)))

unfoldable pub locked_package_key : LockedPackage → Text
locked_package_key locked = key_of locked.import_root locked.name locked.version

pub record Locking : Type 0 where
  pub packages : TreeMap LockedPackage
  pub diagnostics : List PackageDiagnostic

abbrev pub push : PackageDiagnostic → Locking → Locking
push d s = record s { diagnostics = s.diagnostics ++ d ∷ [] }

abbrev pub conflict_diagnostic : LockedPackage → PackageDiagnostic
conflict_diagnostic locked = record {
  code = "package.lockfile.dependency_conflict";
  message = locked_package_key locked ∷ [];
  path = none;
}

-- What follows the look into the map.
unfoldable pub insert_beside : LockedPackage → Option LockedPackage → Locking → Locking
insert_beside locked none s = record s {
  packages = insert (locked_package_key locked) locked s.packages;
}
insert_beside locked (some existing) s =
    if same_package existing locked then s else push (conflict_diagnostic locked) s

unfoldable pub insert_locked_package : LockedPackage → Locking → Locking
unfolding insert_beside
insert_locked_package locked s = insert_beside locked (get (locked_package_key locked) s.packages) s

module _ {K M : Type 0} (content_digest : ResolvedDependency K M → Text) where
  unfoldable pub dependency_lock_checksum : ResolvedDependency K M → Text
  dependency_lock_checksum (resolved i c r (ResolvedDependencySource.builtin checksum) ds f m) =
      checksum
  dependency_lock_checksum d = codes "blake3:" ++ content_digest d

  abbrev pub dependency_lock_ref : ResolvedDependency K M → Text
  dependency_lock_ref (resolved i c r s ds f m) = key_of r i.name i.version

  abbrev pub dependency_lock_refs : Dependencies K M → List Text
  dependency_lock_refs nil = []
  dependency_lock_refs (cons d ds) = dependency_lock_ref d ∷ dependency_lock_refs ds

  abbrev pub metadata_fingerprint : ResolvedDependencySource K → Option Text → Option Text
  metadata_fingerprint (ResolvedDependencySource.builtin checksum) f = some (codes "builtin:std")
  metadata_fingerprint _ f = f

  unfoldable pub locked_index_dependency : ResolvedDependency K M → LockedPackage
  unfolding dependency_lock_checksum
  locked_index_dependency (resolved i c r s ds f m) = record {
    name = i.name;
    version = i.version;
    source = lock_source s;
    checksum = dependency_lock_checksum (resolved i c r s ds f m);
    dependencies = dependency_lock_refs ds;
    import_root = r;
    metadata_fingerprint = metadata_fingerprint s f;
  }

  unfoldable mutual
    pub insert_index_dependency : ResolvedDependency K M → Locking → Locking
    insert_index_dependency (resolved i c r p ds f m) s =
        insert_index_dependencies ds
          (insert_locked_package (locked_index_dependency (resolved i c r p ds f m)) s)

    pub insert_index_dependencies : Dependencies K M → Locking → Locking
    insert_index_dependencies nil s = s
    insert_index_dependencies (cons d ds) s =
        insert_index_dependencies ds (insert_index_dependency d s)
