-- ===== src/Environment/Model.antt =====
-- The metadata that the package environment reads and writes, from
-- crates/etas_package/src/metadata/model.rs. `P` stands for the parts of the public metadata that are
-- only copied.
use etas.Base.{ℕ, Text, Option, List}
use etas.Manifest.Schema.{BinTarget}
use etas.Metadata.{PackageIdentity, ResolvedDependency, Dependencies}

pub record PackageExternalExportMetadata : Type 0 where
  pub id : ℕ
  pub name : Text
  pub visibility : Text

pub record PackageExternalModuleOwnerMetadata : Type 0 where
  pub identity : PackageIdentity
  pub import_root : Text

pub record PackageExternalModuleMetadata : Type 0 where
  pub owner : Option PackageExternalModuleOwnerMetadata  -- `package`
  pub id : ℕ
  pub path : List Text
  pub exports : List PackageExternalExportMetadata

pub record PackageToolBindingMetadata : Type 0 where
  pub tool : Text
  pub kind : Text
  pub provider : Text
  pub effect_row : List Text
  pub action_row : List Text

pub record PackageEffectTagMetadata : Type 0 where
  pub path : List Text
  pub runtime_requirement : Option Text

pub record PackageEffectExtensionMetadata : Type 0 where
  pub child : List Text
  pub parent : List Text

pub record PackageEffectMetadata : Type 0 where
  pub tags : List PackageEffectTagMetadata
  pub extensions : List PackageEffectExtensionMetadata

pub record PackagePublicMetadata (P : Type 0) : Type 0 where
  pub modules : List PackageExternalModuleMetadata
  pub fingerprint : Option Text
  pub rest : P

-- What a dependency carries besides the fingerprint of its public metadata.
pub record Carried (P : Type 0) : Type 0 where
  pub modules : List PackageExternalModuleMetadata
  pub rest : P
  pub effect_metadata : PackageEffectMetadata
  pub tool_bindings : List PackageToolBindingMetadata

pub record PackageIndex (K P : Type 0) : Type 0 where
  pub version : ℕ
  pub std_compatibility : Text
  pub identity : PackageIdentity  -- `package`
  pub dependencies : Dependencies K (Carried P)
  pub external_modules : List PackageExternalModuleMetadata
  pub public_metadata : PackagePublicMetadata P
  pub effect_metadata : PackageEffectMetadata
  pub tool_bindings : List PackageToolBindingMetadata
  pub bins : List BinTarget

pub record PackageEnvironmentMetadata (K P : Type 0) : Type 0 where
  pub current_package : Option PackageIdentity
  pub dependencies : List (ResolvedDependency K (Carried P))
  pub external_modules : List PackageExternalModuleMetadata
  pub public_metadata : PackagePublicMetadata P
  pub effect_metadata : PackageEffectMetadata
  pub tool_bindings : List PackageToolBindingMetadata
  pub metadata_fingerprint : Text

module _ {K P : Type 0} where
  abbrev pub carried : ResolvedDependency K (Carried P) → Carried P
  carried (ResolvedDependency.resolved i c r s ds f m) = m
