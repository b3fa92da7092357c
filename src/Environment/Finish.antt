-- ===== src/Environment/Finish.antt =====
-- `finish_environment` of crates/etas_package/src/resolver/environment.rs: the environment from the
-- resolved dependencies. `none` is a panic of its `expect`.
use Prim.Native.Nat.{Ordering, compare}
use etas.Base.{
  Text, codes, same_text, Option, none, some, Bool, true, false, ◌&&◌, List, [], ◌∷◌, ◌++◌, map,
  concat_map, join, ◌==◌, is_none,
}
use mathlib.Core.Option
use etas.Base.Order.{cmp}
use etas.Base.Sort.{sort_by, dedup_by}
use etas.Base.TreeMap.{TreeMap}
use etas.Diagnostics.{PackageDiagnostic, PackageError, Result, ok_unless, report_if}
use etas.Manifest.Schema.{Manifest, ToolBinding}
use etas.Manifest.Validate.{provider_name}
use etas.Metadata.{PackageIdentity, current, ResolvedDependency, identity, import_root}
use etas.Lockfile.{Lockfile}
use etas.Lock.Packages.{same_texts}
use etas.Environment.Model.{
  PackageExternalModuleMetadata, PackageExternalModuleOwnerMetadata, PackageToolBindingMetadata,
  PackageEffectMetadata, PackagePublicMetadata, Carried, carried, PackageIndex,
  PackageEnvironmentMetadata,
}
use etas.Environment.Fingerprint.{environment_fingerprint}

abbrev pub binding_metadata : Text → ToolBinding → Text → PackageToolBindingMetadata
binding_metadata tool b provider = record {
  tool = tool;
  kind = b.kind;
  provider = provider;
  effect_row = b.effects;
  action_row = b.actions;
}

abbrev pub add_binding :
    Text
    → ToolBinding
    → Option Text
    → Option (List PackageToolBindingMetadata)
    → Option (List PackageToolBindingMetadata)
add_binding tool b (some provider) (some rest) = some (binding_metadata tool b provider ∷ rest)
add_binding tool b _ _ = none

-- `binding.provider_name().expect(..)` on each binding of the manifest.
unfoldable pub manifest_bindings : TreeMap ToolBinding → Option (List PackageToolBindingMetadata)
manifest_bindings [] = some []
manifest_bindings ((tool, b) ∷ rest) = add_binding tool b (provider_name b) (manifest_bindings rest)

-- `Vec<String>: Ord`
unfoldable pub cmp_path : List Text → List Text → Ordering
unfolding cmp
cmp_path [] [] = Ordering.eq
cmp_path [] (b ∷ bs) = Ordering.lt
cmp_path (a ∷ xs) [] = Ordering.gt
cmp_path (a ∷ xs) (b ∷ ys) =
    let rest = cmp_path xs ys in
    elim (cmp a b) [ Ordering.lt ↦ Ordering.lt | Ordering.gt ↦ Ordering.gt | Ordering.eq ↦ rest ]

unfoldable pub module_le : PackageExternalModuleMetadata → PackageExternalModuleMetadata → Bool
unfolding cmp_path
module_le a b = elim (cmp_path a.path b.path) [
  | Ordering.lt ↦ true
  | Ordering.gt ↦ false
  | Ordering.eq ↦ elim (compare a.id b.id) [ Ordering.gt ↦ false | _ ↦ true ]
]

abbrev pub same_identity : PackageIdentity → PackageIdentity → Bool
same_identity a b =
    same_text a.name b.name && same_text a.version b.version && same_text a.edition b.edition

abbrev pub same_owner :
    Option PackageExternalModuleOwnerMetadata → Option PackageExternalModuleOwnerMetadata → Bool
same_owner none none = true
same_owner (some a) (some b) =
    same_identity a.identity b.identity && same_text a.import_root b.import_root
same_owner _ _ = false

unfoldable pub same_module : PackageExternalModuleMetadata → PackageExternalModuleMetadata → Bool
unfolding same_text
same_module a b = a.id == b.id && same_texts a.path b.path && same_owner a.owner b.owner

unfoldable pub owner_missing : Text → PackageExternalModuleMetadata → List PackageDiagnostic
owner_missing package_root m = report_if (is_none m.owner) (record {
  code = "package.metadata.external_module_owner_missing";
  message = join (codes ".") m.path ∷ [];
  path = some (package_root ++ codes "/.etas/package-index.json");
})

module _ {K P : Type 0} where
  unfoldable pub external_module_for_dependency :
      ResolvedDependency K (Carried P)
      → PackageExternalModuleMetadata
      → PackageExternalModuleMetadata
  external_module_for_dependency d m = record m {
    owner = some (record { identity = identity d; import_root = import_root d });
  }

  abbrev pub dependency_modules :
      ResolvedDependency K (Carried P) → List PackageExternalModuleMetadata
  dependency_modules d = map (external_module_for_dependency d) (carried d).modules

  abbrev pub dependency_bindings :
      ResolvedDependency K (Carried P) → List PackageToolBindingMetadata
  dependency_bindings d = (carried d).tool_bindings

  module _ (default_public : P) (package_root : Text) where
    -- `index.map(..).unwrap_or_default()`
    abbrev pub index_modules : Option (PackageIndex K P) → List PackageExternalModuleMetadata
    index_modules none = []
    index_modules (some index) = index.external_modules

    abbrev pub index_bindings : Option (PackageIndex K P) → List PackageToolBindingMetadata
    index_bindings none = []
    index_bindings (some index) = index.tool_bindings

    abbrev pub index_public : Option (PackageIndex K P) → PackagePublicMetadata P
    index_public none = record { modules = []; fingerprint = none; rest = default_public }
    index_public (some index) = index.public_metadata

    abbrev pub index_effects : Option (PackageIndex K P) → PackageEffectMetadata
    index_effects none = record { tags = []; extensions = [] }
    index_effects (some index) = index.effect_metadata

    unfoldable pub external_modules :
        Option (PackageIndex K P)
        → List (ResolvedDependency K (Carried P))
        → List PackageExternalModuleMetadata
    unfolding sort_by dedup_by module_le same_module external_module_for_dependency
    external_modules index dependencies =
        dedup_by same_module
          (sort_by module_le (index_modules index ++ concat_map dependency_modules dependencies))

    abbrev pub environment :
        Manifest
        → Lockfile
        → Option (PackageIndex K P)
        → List (ResolvedDependency K (Carried P))
        → List PackageToolBindingMetadata
        → PackageEnvironmentMetadata K P
    environment m lockfile index dependencies tools = record {
      current_package = some (current m);
      dependencies = dependencies;
      external_modules = external_modules index dependencies;
      public_metadata = index_public index;
      effect_metadata = index_effects index;
      tool_bindings = tools;
      metadata_fingerprint =
          environment_fingerprint m lockfile dependencies (external_modules index dependencies)
            tools (index_effects index);
    }

    -- After the bindings of the manifest.
    unfoldable pub finish_with :
        Manifest
        → Lockfile
        → Option (PackageIndex K P)
        → List (ResolvedDependency K (Carried P))
        → List PackageToolBindingMetadata
        → Result PackageError (PackageEnvironmentMetadata K P)
    unfolding owner_missing external_modules
    finish_with m lockfile index dependencies own =
        ok_unless (concat_map (owner_missing package_root) (index_modules index)) (
          environment m lockfile index dependencies
            (own ++ (index_bindings index ++ concat_map dependency_bindings dependencies)))

    unfoldable pub finish_environment :
        Manifest
        → Lockfile
        → Option (PackageIndex K P)
        → List (ResolvedDependency K (Carried P))
        → Option (Result PackageError (PackageEnvironmentMetadata K P))
    unfolding finish_with manifest_bindings
    finish_environment m lockfile index dependencies =
        Option.map (finish_with m lockfile index dependencies) (manifest_bindings m.bindings.tools)
