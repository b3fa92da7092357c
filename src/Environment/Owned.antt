-- ===== src/Environment/Owned.antt =====
-- The end of `build_environment`: the tool bindings of a validated manifest, and that every external
-- module has an owner.
use etas.Base.{
  Text, Option, none, some, false, List, [], ◌∷◌, ◌≡◌, ◌≢◌, ◌↔◌, refl, ap, All, All-append, map,
  concat_map, is_none,
}
use mathlib.Core.Option
use mathlib.Core.Option.{some-injective}
use etas.Base.TreeMap.{TreeMap}
use etas.Base.Sort.{All-sort_by, All-dedup_by}
use etas.Diagnostics.{PackageDiagnostic, ok, report_if-eq-nil, concat_map_iff, ok_unless}
use etas.Manifest.Schema.{ToolBinding}
use etas.Manifest.Validate.{provider_name}
use etas.Manifest.Shape.{IsTool}
use etas.Metadata.{ResolvedDependency}
use etas.Environment.Model.{
  PackageExternalModuleMetadata, PackageToolBindingMetadata, Carried, carried, PackageIndex,
}
use etas.Environment.Finish.{
  add_binding, binding_metadata, manifest_bindings, owner_missing, index_modules,
  dependency_modules, external_module_for_dependency, same_module, module_le, external_modules,
}

pub map-some {ℓ} :
    {A B : Type ℓ} (f : A → B) (o : Option A) (b : B)
    → Option.map f o ≡ some b
    → (a : A) × (o ≡ some a) × (f a ≡ b)
map-some f none b h = absurd (cc)
map-some f (some a) b h = (a, refl, some-injective _ _ h)

pub ok_unless-eq-ok :
    {A : Type 0} (ds : List PackageDiagnostic) (a b : A)
    → ok_unless ds a ≡ ok b
    → (ds ≡ []) × (a ≡ b)
ok_unless-eq-ok [] a b h = (refl, cc)
ok_unless-eq-ok (d ∷ ds) a b h = absurd (cc)

binding_some :
    (tool : Text) (b : ToolBinding) (o : Option Text) (r : Option (List PackageToolBindingMetadata))
    → o ≢ none
    → (own : List PackageToolBindingMetadata) × (r ≡ some own)
    → (own : List PackageToolBindingMetadata) × (add_binding tool b o r ≡ some own)
binding_some tool b none r n h = absurd (n refl)
binding_some tool b (some provider) r n (own, e) =
    (binding_metadata tool b provider ∷ own, ap (add_binding tool b (some provider)) e)

-- A validated manifest has a provider for each binding.
pub manifest_bindings-some :
    (tools : TreeMap ToolBinding)
    → All IsTool tools
    → (own : List PackageToolBindingMetadata) × (manifest_bindings tools ≡ some own)
unfolding manifest_bindings
manifest_bindings-some [] h = ([], refl)
manifest_bindings-some ((tool, b) ∷ rest) (p, h) =
    binding_some tool b (provider_name b) (manifest_bindings rest) p.1
      (manifest_bindings-some rest h)

pub owners_iff :
    (package_root : Text) (modules : List PackageExternalModuleMetadata)
    → (concat_map (owner_missing package_root) modules ≡ [])
      ↔ All (λ m. is_none m.owner ≡ false) modules
unfolding owner_missing
owners_iff package_root modules =
    concat_map_iff (owner_missing package_root) modules (λ m. report_if-eq-nil (is_none m.owner) _)

module _ {K P : Type 0} where
  All-map_owned :
      (d : ResolvedDependency K (Carried P)) (ms : List PackageExternalModuleMetadata)
      → All (λ m. is_none m.owner ≡ false) (map (external_module_for_dependency d) ms)
  unfolding external_module_for_dependency
  All-map_owned d [] = tt
  All-map_owned d (m ∷ ms) = (refl, All-map_owned d ms)

  dependency_modules_owned :
      (ds : List (ResolvedDependency K (Carried P)))
      → All (λ m. is_none m.owner ≡ false) (concat_map dependency_modules ds)
  dependency_modules_owned [] = tt
  dependency_modules_owned (d ∷ ds) =
      All-append (λ m. is_none m.owner ≡ false) _ _ (All-map_owned d (carried d).modules)
        (dependency_modules_owned ds)

  pub external_modules_owned :
      (default_public : P) (package_root : Text) (index : Option (PackageIndex K P))
      (ds : List (ResolvedDependency K (Carried P)))
      → All (λ m. is_none m.owner ≡ false) (index_modules default_public package_root index)
      → All (λ m. is_none m.owner ≡ false) (external_modules default_public package_root index ds)
  unfolding external_modules
  external_modules_owned default_public package_root index ds h =
      All-dedup_by (λ m. is_none m.owner ≡ false) same_module _
        (All-sort_by (λ m. is_none m.owner ≡ false) module_le _
          (All-append (λ m. is_none m.owner ≡ false) _ _ h (dependency_modules_owned ds)))
