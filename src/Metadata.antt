-- ===== src/Metadata.antt =====
-- The part of crates/etas_package/src/metadata/model.rs that locking reads, and `is_builtin_package`.
-- `K` stands for the `PackageKey` of the crate `etas_code`. `M` stands for what a dependency carries
-- and locking only copies: its public metadata besides the fingerprint, its effect metadata and its
-- tool bindings.
use etas.Base.{Text, codes, same_text, Option, none, some, Bool}
use etas.Manifest.Schema.{Manifest}

pub record PackageIdentity : Type 0 where
  pub name : Text
  pub version : Text
  pub edition : Text

unfoldable pub current : Manifest → PackageIdentity
current m = record {
  name = m.package_section.name;
  version = m.package_section.version;
  edition = m.package_section.edition;
}

pub data ResolvedDependencySource (K : Type 0) : Type 0 where
  builtin : (checksum : Text) → ResolvedDependencySource K
  registry : (registry checksum : Text) (store : Option Text) → ResolvedDependencySource K
  git : (url rev checksum : Text) (store : Option Text) → ResolvedDependencySource K
  github_clone : (repo rev checksum : Text) (store : Option Text) → ResolvedDependencySource K
  github_release :
      (repo release asset asset_checksum payload_checksum : Text) (store : Option Text)
      → ResolvedDependencySource K
  path : (path checksum : Text) → ResolvedDependencySource K
  vendor :
      (path checksum : Text) (store : Option Text) (definition_origin : Option K)
      → ResolvedDependencySource K

unfoldable pub payload_checksum : {K : Type 0} → ResolvedDependencySource K → Option Text
payload_checksum (builtin checksum) = none
payload_checksum (registry r checksum store) = some checksum
payload_checksum (git url rev checksum store) = some checksum
payload_checksum (github_clone repo rev checksum store) = some checksum
payload_checksum (github_release repo release asset asset_checksum payload store) = some payload
payload_checksum (path p checksum) = some checksum
payload_checksum (vendor p checksum store origin) = some checksum

-- A `Vec<ResolvedDependency>` inside the type is a type of its own.
mutual
  pub data ResolvedDependency (K M : Type 0) : Type 0 where
    resolved :
        (identity : PackageIdentity) (std_compatibility import_root : Text)
        (source : ResolvedDependencySource K) (dependencies : Dependencies K M)
        (fingerprint : Option Text) (metadata : M)
        → ResolvedDependency K M

  pub data Dependencies (K M : Type 0) : Type 0 where
    nil : Dependencies K M
    cons : ResolvedDependency K M → Dependencies K M → Dependencies K M

module _ {K M : Type 0} where
  abbrev pub identity : ResolvedDependency K M → PackageIdentity
  identity (resolved i c r s ds f m) = i

  abbrev pub import_root : ResolvedDependency K M → Text
  import_root (resolved i c r s ds f m) = r

  abbrev pub source : ResolvedDependency K M → ResolvedDependencySource K
  source (resolved i c r s ds f m) = s

  abbrev pub dependencies : ResolvedDependency K M → Dependencies K M
  dependencies (resolved i c r s ds f m) = ds

  -- `public_metadata.fingerprint`
  abbrev pub fingerprint : ResolvedDependency K M → Option Text
  fingerprint (resolved i c r s ds f m) = f

unfoldable pub is_builtin_package : Text → Bool
is_builtin_package name = same_text name (codes "std")

unfoldable pub builtin_std_version : Text
builtin_std_version = codes "0.2.0"
