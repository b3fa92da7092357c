-- ===== src/Registry.antt =====
-- `select_registry_version` of crates/etas_package/src/source/local_registry.rs: which version of a
-- package in a local registry a requirement selects.
use Prim.Native.Nat.{Ordering, lt, eq, gt}
use etas.Base.{
  Text, codes, Option, none, some, Bool, true, false, List, [], ◌∷◌, ◌++◌, if◌then◌else◌,
}
use etas.Diagnostics.{PackageDiagnostic, Result, ok, err}
use etas.Semver.{Semver}
use etas.Manifest.Dependency.{unwrap_or}
pub mod Greatest
pub mod Selection
pub mod Selects

pub record LocalRegistryVersion : Type 0 where
  pub version : Text
  pub path : Option Text
  pub checksum : Text

module _ (semver : Semver) (compare : semver.Version → semver.Version → Ordering) where
  -- `max_by`: of several greatest elements, the last.
  unfoldable pub greater :
      semver.Version × LocalRegistryVersion
      → semver.Version × LocalRegistryVersion
      → semver.Version × LocalRegistryVersion
  greater a b = elim (compare a.0 b.0) [ gt ↦ a | _ ↦ b ]

  unfoldable pub max_from :
      semver.Version × LocalRegistryVersion
      → List (semver.Version × LocalRegistryVersion)
      → semver.Version × LocalRegistryVersion
  unfolding greater
  max_from best [] = best
  max_from best (c ∷ cs) = max_from (greater best c) cs

  unfoldable pub max_by :
      List (semver.Version × LocalRegistryVersion) → Option (semver.Version × LocalRegistryVersion)
  unfolding max_from
  max_by [] = none
  max_by (c ∷ cs) = some (max_from c cs)

  -- The body of the `for` loop over the versions, by what parsing the version gives.
  unfoldable pub add :
      Text
      → Text
      → semver.VersionReq
      → LocalRegistryVersion
      → Option semver.Version
      → List PackageDiagnostic × List (semver.Version × LocalRegistryVersion)
      → List PackageDiagnostic × List (semver.Version × LocalRegistryVersion)
  add name index_path r candidate none (ds, found) = (
    record {
      code = "package.registry.invalid_version";
      message = candidate.version ∷ name ∷ [];
      path = some index_path;
    }
        ∷ ds,
    found,
  )
  add name index_path r candidate (some v) (ds, found) =
      (ds, if semver.matches r v then (v, candidate) ∷ found else found)

  -- The loop: the diagnostics and the matching versions, both in order.
  unfoldable pub collect :
      Text
      → Text
      → semver.VersionReq
      → List LocalRegistryVersion
      → List PackageDiagnostic × List (semver.Version × LocalRegistryVersion)
  unfolding add
  collect name index_path r [] = ([], [])
  collect name index_path r (candidate ∷ versions) =
      add name index_path r candidate (semver.parse candidate.version)
        (collect name index_path r versions)

  abbrev pub ok_selected :
      PackageDiagnostic
      → List PackageDiagnostic × Option (semver.Version × LocalRegistryVersion)
      → Result (List PackageDiagnostic) LocalRegistryVersion
  ok_selected unresolved (d ∷ ds, best) = err (d ∷ ds)
  ok_selected unresolved ([], none) = err (unresolved ∷ [])
  ok_selected unresolved ([], some (v, candidate)) = ok candidate

  -- How the crate `semver` prints a requirement is left out of the message.
  unfoldable pub select_matching :
      (package_root name requirement index_path : Text)
      → Option semver.VersionReq
      → List LocalRegistryVersion
      → Result (List PackageDiagnostic) LocalRegistryVersion
  unfolding collect max_by
  select_matching package_root name requirement index_path none versions = err (
      record {
        code = "package.manifest.invalid_version_requirement";
        message = name ∷ requirement ∷ [];
        path = some (package_root ++ codes "/etas.toml");
      }
      ∷ [])
  select_matching package_root name requirement index_path (some r) versions =
      let found = collect name index_path r versions in
      ok_selected
        (record {
          code = "package.registry.version_unresolved";
          message = name ∷ [];
          path = some (package_root ++ codes "/etas.toml");
        })
        (found.0, max_by found.1)

  -- No requirement stands for `*`.
  unfoldable pub select_registry_version :
      (package_root name : Text)
      → Option Text
      → (index_path : Text) → List LocalRegistryVersion
      → Result (List PackageDiagnostic) LocalRegistryVersion
  unfolding select_matching
  select_registry_version package_root name requirement index_path versions =
      select_matching package_root name (unwrap_or requirement (codes "*")) index_path
        (semver.parse_req (unwrap_or requirement (codes "*"))) versions
