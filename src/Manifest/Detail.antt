-- ===== src/Manifest/Detail.antt =====
-- `DependencyDetail::validate` and `DependencySpec::validate` of
-- crates/etas_package/src/manifest/mod.rs. A sequence of pushes is a concatenation.
use etas.Base.{
  ℕ, ◌+◌, String, Text, Option, none, some, Bool, true, false, not, List, [], ◌∷◌, ◌++◌,
}
use etas.Base.{◌&&◌, ◌||◌, is_some, is_none, ltb, if◌then◌else◌}
use etas.Diagnostics.{PackageDiagnostic, report_if}
use etas.Semver.{Semver}
use etas.Manifest.Schema.{DependencyDetail, DependencySpec, detailed}
use etas.Manifest.Names.{is_blank, is_valid_github_repo, is_blake3_checksum}
use etas.Manifest.Dependency.{unwrap_or}

-- `usize::from(bool)`
abbrev pub count_of : Bool → ℕ
count_of true = 1
count_of false = 0

-- A diagnostic about a dependency, at the manifest.
abbrev pub at_manifest : String → List Text → Text → PackageDiagnostic
at_manifest code message manifest_path = record {
  code = code;
  message = message;
  path = some manifest_path;
}

unfoldable pub source_count : DependencyDetail → ℕ
source_count d =
    count_of (is_some d.path)
    + count_of (is_some d.git)
    + count_of (is_some d.github)
    + count_of (is_some d.registry)

unfoldable pub git_selector_count : DependencyDetail → ℕ
git_selector_count d =
    count_of (is_some d.rev) + count_of (is_some d.tag) + count_of (is_some d.branch)

module _ (semver : Semver) (dependency_name : Text) (manifest_path : Text) where
  abbrev pub about : String → List Text → PackageDiagnostic
  about code values = at_manifest code (dependency_name ∷ values) manifest_path

  -- The `match self.checksum` of a release.
  unfoldable pub checksum_diagnostics : Option Text → List PackageDiagnostic
  checksum_diagnostics none = about "package.manifest.github_release_checksum_missing" [] ∷ []
  checksum_diagnostics (some checksum) =
      report_if (not (is_blake3_checksum checksum))
        (about "package.manifest.github_release_checksum_invalid" (checksum ∷ []))

  -- The block under `if let Some(github) = &self.github`, and its `else if`.
  unfoldable pub github_diagnostics : DependencyDetail → Option Text → List PackageDiagnostic
  unfolding checksum_diagnostics git_selector_count
  github_diagnostics d none =
      report_if (is_some d.release || is_some d.asset || is_some d.checksum)
        (about "package.manifest.github_release_without_github" [])
  github_diagnostics d (some github) =
      report_if (not (is_valid_github_repo github))
        (about "package.manifest.invalid_github_repo" (github ∷ []))
      ++ (report_if (is_some d.release && ltb 0 (git_selector_count d))
            (about "package.manifest.github_release_selector_conflict" [])
          ++ (if is_some d.release
              then report_if (is_blank (unwrap_or d.asset []))
                  (about "package.manifest.github_release_asset_missing" [])
                ++ checksum_diagnostics d.checksum
              else report_if (is_some d.asset || is_some d.checksum)
                  (about "package.manifest.github_release_field_without_release" [])))

  -- `if let Some(version) = .. && let Err(..) = semver::VersionReq::parse(version)`
  unfoldable pub requirement_diagnostics : Option Text → List PackageDiagnostic
  requirement_diagnostics none = []
  requirement_diagnostics (some version) =
      report_if (is_none (semver.parse_req version))
        (about "package.manifest.invalid_version_requirement" (version ∷ []))

  unfoldable pub validate_detail : DependencyDetail → List PackageDiagnostic
  unfolding github_diagnostics requirement_diagnostics source_count
  validate_detail d =
      report_if (ltb 1 (source_count d)) (about "package.manifest.dependency_source_conflict" [])
      ++ (report_if (is_none d.git && is_none d.github && ltb 0 (git_selector_count d))
            (about "package.manifest.git_selector_without_git" [])
          ++ (report_if (ltb 1 (git_selector_count d))
                (about "package.manifest.git_selector_conflict" [])
              ++ (report_if
                    (is_none d.path
                      && is_none d.git
                      && is_none d.github
                      && is_blank (unwrap_or d.version []))
                    (about "package.manifest.registry_dependency_without_version" [])
                  ++ (github_diagnostics d d.github ++ requirement_diagnostics d.version))))

  unfoldable pub validate_spec : DependencySpec → List PackageDiagnostic
  unfolding validate_detail
  validate_spec (DependencySpec.version v) =
      if is_blank v
      then about "package.manifest.invalid_dependency" [] ∷ []
      else report_if (is_none (semver.parse_req v))
          (about "package.manifest.invalid_version_requirement" (v ∷ []))
  validate_spec (detailed detail) = validate_detail detail
