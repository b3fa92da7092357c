-- ===== src/Lockfile.antt =====
-- crates/etas_package/src/lockfile/mod.rs. Reading and writing the TOML file is not modelled.
use etas.Base.{ℕ, Text, codes, Option, List, [], ◌∷◌, ◌++◌, join}
use etas.Base.TreeMap.{TreeMap}
use etas.Manifest.Schema.{Manifest, DependencySpec}
use etas.Manifest.Dependency.{lock_fingerprint}

pub record LockedPackage : Type 0 where
  pub name : Text
  pub version : Text
  pub source : Text
  pub checksum : Text
  pub dependencies : List Text
  pub import_root : Text
  pub metadata_fingerprint : Option Text

pub record Lockfile : Type 0 where
  pub version : ℕ
  pub manifest_fingerprint : Option Text
  pub packages : List LockedPackage

manifest_dependency_parts : TreeMap DependencySpec → List Text
manifest_dependency_parts [] = []
manifest_dependency_parts ((name, dependency) ∷ rest) =
    (codes "dependency:" ++ (name ++ (codes ":" ++ lock_fingerprint dependency)))
    ∷ manifest_dependency_parts rest

unfoldable pub manifest_dependency_fingerprint : Manifest → Text
unfolding manifest_dependency_parts
manifest_dependency_fingerprint m = join (codes "|") (
    codes "etas-lock-input:v1"
    ∷ (codes "package=" ++ m.package_section.name)
    ∷ (codes "version=" ++ m.package_section.version)
    ∷ (codes "edition=" ++ m.package_section.edition)
    ∷ manifest_dependency_parts m.dependencies)
