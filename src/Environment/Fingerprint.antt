-- ===== src/Environment/Fingerprint.antt =====
-- `environment_fingerprint` of crates/etas_package/src/resolver/environment.rs: the text that stands
-- for a package environment.
use etas.Base.{
  ℕ, zero, suc, ◌+◌, ◌/◌, ◌%◌, Text, codes, Option, none, some, List, [], ◌∷◌, ◌++◌, map,
  concat_map, join, ◌==◌, if◌then◌else◌,
}
use etas.Manifest.Schema.{Manifest}
use etas.Manifest.Dependency.{unwrap_or}
use etas.Metadata.{
  ResolvedDependencySource, ResolvedDependency, resolved, Dependencies, nil, cons, identity,
  import_root, source, fingerprint,
}
use etas.Lockfile.{Lockfile, manifest_dependency_fingerprint}
use etas.Environment.Model.{
  PackageExternalModuleMetadata, PackageToolBindingMetadata, PackageEffectTagMetadata,
  PackageEffectExtensionMetadata, PackageEffectMetadata, Carried,
}

-- The decimal digits of a `u32`, of which there are ten at most.
unfoldable pub decimal_digits : ℕ → ℕ → Text → Text
decimal_digits zero n acc = acc
decimal_digits (suc fuel) n acc =
    let rest = decimal_digits fuel (n / 10) ((b'0' + n % 10) ∷ acc) in
    if n / 10 == 0 then (b'0' + n % 10) ∷ acc else rest

abbrev show : ℕ → Text
show n = decimal_digits 10 n []

-- The pieces of a `format!`.
abbrev format : List Text → Text
format [] = []
format (t ∷ ts) = t ++ format ts

abbrev dots : List Text → Text
dots = join (codes ".")

unfoldable pub dependency_source_checksum : {K : Type 0} → ResolvedDependencySource K → Text
dependency_source_checksum (ResolvedDependencySource.builtin checksum) = checksum
dependency_source_checksum (ResolvedDependencySource.registry r checksum store) = checksum
dependency_source_checksum (ResolvedDependencySource.git url rev checksum store) = checksum
dependency_source_checksum (ResolvedDependencySource.github_clone repo rev checksum store) =
    checksum
dependency_source_checksum (ResolvedDependencySource.github_release repo l a ac checksum store) =
    checksum
dependency_source_checksum (ResolvedDependencySource.path path checksum) = checksum
dependency_source_checksum (ResolvedDependencySource.vendor path checksum store origin) = checksum

abbrev tag_part : Text → Text → PackageEffectTagMetadata → Text
tag_part prefix owner tag =
    format (prefix ∷ owner ∷ dots tag.path ∷ codes ":" ∷ unwrap_or tag.runtime_requirement [] ∷ [])

abbrev extension_part : Text → Text → PackageEffectExtensionMetadata → Text
extension_part prefix owner e =
    format (prefix ∷ owner ∷ dots e.child ∷ codes ":" ∷ dots e.parent ∷ [])

abbrev metadata_part : Text → Option Text → List Text
metadata_part root none = []
metadata_part root (some f) = format (codes "dep-public-metadata:" ∷ root ∷ codes ":" ∷ f ∷ []) ∷ []

abbrev module_part : PackageExternalModuleMetadata → Text
module_part m = format (codes "module:" ∷ show m.id ∷ codes ":" ∷ dots m.path ∷ [])

abbrev tool_part : PackageToolBindingMetadata → Text
tool_part b = format (
    codes "tool:"
    ∷ b.tool
    ∷ codes ":"
    ∷ b.kind
    ∷ codes ":"
    ∷ b.provider
    ∷ codes ":"
    ∷ join (codes ",") b.effect_row
    ∷ [])

module _ {K P : Type 0} where
  unfoldable mutual
    pub append_dependency_effect_fingerprint : ResolvedDependency K (Carried P) → Text → List Text
    append_dependency_effect_fingerprint (resolved i c r s ds f m) parent =
        let owner = format (
          parent
          ∷ codes "/"
          ∷ r
          ∷ codes ":"
          ∷ i.name
          ∷ codes ":"
          ∷ i.version
          ∷ codes ":"
          ∷ i.edition
          ∷ []) in
        map (tag_part (codes "dep-effect-tag:") (owner ++ codes ":")) m.effect_metadata.tags
        ++ (map (extension_part (codes "dep-effect-extension:") (owner ++ codes ":"))
              m.effect_metadata.extensions
            ++ append_children ds owner)

    pub append_children : Dependencies K (Carried P) → Text → List Text
    append_children nil parent = []
    append_children (cons d ds) parent =
        append_dependency_effect_fingerprint d parent ++ append_children ds parent

  unfoldable pub dependency_parts : ResolvedDependency K (Carried P) → List Text
  unfolding append_dependency_effect_fingerprint dependency_source_checksum
  dependency_parts d =
      format (
        codes "dep:"
        ∷ import_root d
        ∷ codes ":"
        ∷ (identity d).name
        ∷ codes ":"
        ∷ (identity d).version
        ∷ [])
      ∷ format (
          codes "dep-source-checksum:"
          ∷ import_root d
          ∷ codes ":"
          ∷ dependency_source_checksum (source d)
          ∷ [])
      ∷ (metadata_part (import_root d) (fingerprint d) ++ append_dependency_effect_fingerprint d [])

  unfoldable pub environment_fingerprint :
      Manifest
      → Lockfile
      → List (ResolvedDependency K (Carried P))
      → List PackageExternalModuleMetadata
      → List PackageToolBindingMetadata
      → PackageEffectMetadata
      → Text
  unfolding dependency_parts decimal_digits
  environment_fingerprint m lockfile dependencies modules tools effects = join (codes "|") (
      codes "etas-package-env:v3"
      ∷ m.package_section.name
      ∷ m.package_section.version
      ∷ m.package_section.edition
      ∷ unwrap_or lockfile.manifest_fingerprint (manifest_dependency_fingerprint m)
      ∷ (concat_map dependency_parts dependencies
          ++ (map module_part modules
              ++ (map tool_part tools
                  ++ (map (tag_part (codes "effect-tag:") []) effects.tags
                      ++ map (extension_part (codes "effect-extension:") []) effects.extensions)))))
