-- ===== src/Semver.antt =====
-- The third-party `semver` crate, as the package manager calls it, and
-- crates/etas_package/src/resolver/version.rs.
use etas.Base.{Text, Option, none, some, Bool}
use etas.Diagnostics.{Result, ok, err}

pub record Semver : Type 1 where
  pub Version : Type 0
  pub VersionReq : Type 0
  pub parse : Text → Option Version
  pub parse_req : Text → Option VersionReq
  pub matches : VersionReq → Version → Bool

pub data VersionError : Type 0 where
  invalid_version invalid_requirement : VersionError

unfoldable pub version_satisfies : Semver → Text → Text → Result VersionError Bool
version_satisfies semver version requirement = elim (semver.parse version) [
  | none ↦ err invalid_version
  | some v ↦ elim (semver.parse_req requirement) [
    | none ↦ err invalid_requirement
    | some r ↦ ok (semver.matches r v)
  ]
]
