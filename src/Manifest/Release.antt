-- ===== src/Manifest/Release.antt =====
-- A dependency on GitHub and its release fields, and that `validate` is silent on the valid ones.
use etas.Base.{Text, Option, none, some, false, ◌&&◌, ◌||◌, ltb}
use etas.Base.{List, [], ◌++◌, ◌≡◌, ◌≢◌, ◌↔◌, refl, arith, is_some, append-eq-nil}
use etas.Base.{if◌then◌else◌, Option-cases, inl, inr}
use mathlib.Core.Option.{some-injective}
use etas.Diagnostics.{PackageDiagnostic, report_if}
use etas.Semver.{Semver}
use etas.Manifest.Schema.{DependencyDetail}
use etas.Manifest.Names.{is_blank}
use etas.Manifest.Dependency.{unwrap_or}
use etas.Manifest.Detail.{about, git_selector_count, checksum_diagnostics, github_diagnostics}
use etas.Manifest.Grammar.{IsGithubRepo, IsBlake3, is_valid_github_repo_iff, is_blake3_checksum_iff}

pub record IsRelease (d : DependencyDetail) : Type 0 where
  pub rev : d.rev ≡ none
  pub tag : d.tag ≡ none
  pub branch : d.branch ≡ none
  pub asset : (a : Text) × (d.asset ≡ some a) × (is_blank a ≡ false)
  pub checksum : (c : Text) × (d.checksum ≡ some c) × IsBlake3 c

pub asset_lem :
    (o : Option Text)
    → (is_blank (unwrap_or o []) ≡ false) ↔ ((a : Text) × (o ≡ some a) × (is_blank a ≡ false))
unfolding is_blank
asset_lem none = ((λ h. absurd (cc)), (λ (a, e, k). absurd (cc)))
asset_lem (some a) = ((λ h. (a, refl, h)), (λ (a', e, k). rw (some-injective a a' e) k))

abbrev pub GithubPart : DependencyDetail → Option Text → Type 0
GithubPart d none = (d.release ≡ none) × (d.asset ≡ none) × (d.checksum ≡ none)
GithubPart d (some github) =
    IsGithubRepo github
    × (d.release ≢ none → IsRelease d)
    × (d.release ≡ none → (d.asset ≡ none) × (d.checksum ≡ none))

module _ (semver : Semver) (name path : Text) where
  checksum_lem :
      (o : Option Text)
      → (checksum_diagnostics semver name path o ≡ []) ↔ ((c : Text) × (o ≡ some c) × IsBlake3 c)
  unfolding checksum_diagnostics
  checksum_lem none = ((λ h. absurd (cc)), (λ k. absurd (cc (k.1))))
  checksum_lem (some c) =
      let valid = is_blake3_checksum_iff c in
      (
        (λ h. (c, refl, valid.0 (ground arith))),
        (λ (c', e, k). ground (arith, valid.1 (rw (some-injective c c' e) k))),
      )

  abbrev release_diagnostics : DependencyDetail → List PackageDiagnostic
  release_diagnostics d =
      report_if (is_some d.release && ltb 0 (git_selector_count d))
        (about semver name path "package.manifest.github_release_selector_conflict" [])
      ++ (if is_some d.release
          then report_if (is_blank (unwrap_or d.asset []))
              (about semver name path "package.manifest.github_release_asset_missing" [])
            ++ checksum_diagnostics semver name path d.checksum
          else report_if (is_some d.asset || is_some d.checksum)
              (about semver name path "package.manifest.github_release_field_without_release" []))

  github_none :
      (d : DependencyDetail) → (github_diagnostics semver name path d none ≡ []) ↔ GithubPart d none
  unfolding github_diagnostics
  github_none d = ground arith

  release_sound :
      (d : DependencyDetail) → release_diagnostics d ≡ [] → (d.release ≢ none → IsRelease d)
  unfolding git_selector_count
  release_sound d h given =
      let a : (is_blank (unwrap_or d.asset []) ≡ false)
          × (checksum_diagnostics semver name path d.checksum ≡ []) =
        ground arith in
      record {
        rev = ground arith;
        tag = ground arith;
        branch = ground arith;
        asset = (asset_lem d.asset).0 a.0;
        checksum = (checksum_lem d.checksum).0 a.1;
      }

  release_complete :
      (d : DependencyDetail)
      → (d.release ≢ none → IsRelease d)
      → (d.release ≡ none → (d.asset ≡ none) × (d.checksum ≡ none))
      → release_diagnostics d ≡ []
  unfolding git_selector_count
  release_complete d given absent = elim (Option-cases d.release) [
    | inl e ↦ let gone = absent e in ground arith
    | inr (r, e) ↦
        let g : IsRelease d = given (λ n. cc (e, n)) in
        ground (arith, (asset_lem d.asset).1 g.asset, (checksum_lem d.checksum).1 g.checksum)
  ]

  github_some :
      (d : DependencyDetail) (r : Text)
      → (github_diagnostics semver name path d (some r) ≡ []) ↔ GithubPart d (some r)
  unfolding github_diagnostics
  github_some d r =
      let both = append-eq-nil _ (release_diagnostics d) in
      let repo = is_valid_github_repo_iff r in
      (
        (λ h. (
          repo.0 (ground (arith, both.0 h)),
          release_sound d (both.0 h).1,
          (λ n. ground (arith, both.0 h)),
        )),
        (λ k. both.1 (ground (arith, repo.1 k.0), release_complete d k.1 k.2)),
      )

  pub github_lem :
      (d : DependencyDetail) (o : Option Text)
      → (github_diagnostics semver name path d o ≡ []) ↔ GithubPart d o
  github_lem d none = github_none d
  github_lem d (some r) = github_some d r
