-- ===== src/Manifest/WellFormed.antt =====
-- What a valid dependency is, in terms of its fields, and that `validate` is silent on just these.
use etas.Base.{◌+◌, Text, Option, none, some, false, ◌&&◌, ltb}
use etas.Base.{List, [], ◌∷◌, ◌≡◌, ◌≢◌, ◌↔◌, refl, arith, All, is_some, is_none, append-eq-nil}
use etas.Base.{Option-cases, inl, inr, sym, ◌∙◌}
use mathlib.Core.Option.{some-injective}
use etas.Diagnostics.{report_if-eq-nil}
use etas.Semver.{Semver}
use etas.Manifest.Schema.{DependencyDetail}
use etas.Manifest.Names.{is_blank}
use etas.Manifest.Dependency.{unwrap_or}
use etas.Manifest.Detail.{count_of, requirement_diagnostics, validate_detail}
use etas.Manifest.Grammar.{IsGithubRepo}
use etas.Manifest.Release.{IsRelease, asset_lem, GithubPart, github_lem}

-- Of the fields, one is given at most.
abbrev pub AtMostOne : List (Option Text) → Type 0
AtMostOne [] = Unit
AtMostOne (o ∷ os) = (o ≢ none → All (λ p. p ≡ none) os) × AtMostOne os

pub record IsValidDetail (semver : Semver) (d : DependencyDetail) : Type 0 where
  pub one_source : AtMostOne (d.path ∷ d.git ∷ d.github ∷ d.registry ∷ [])
  pub one_selector : AtMostOne (d.rev ∷ d.tag ∷ d.branch ∷ [])
  pub selector_source :
      d.git ≡ none → d.github ≡ none → (d.rev ≡ none) × (d.tag ≡ none) × (d.branch ≡ none)
  pub registry_version :
      d.path ≡ none
      → d.git ≡ none
      → d.github ≡ none
      → (v : Text) × (d.version ≡ some v) × (is_blank v ≡ false)
  pub repo : (github : Text) → d.github ≡ some github → IsGithubRepo github
  pub release_source : d.release ≢ none → (d.github ≢ none) × IsRelease d
  pub release_fields : d.release ≡ none → (d.asset ≡ none) × (d.checksum ≡ none)
  pub requirement : (v : Text) → d.version ≡ some v → semver.parse_req v ≢ none

source_lem :
    (a b c e : Option Text)
    → (ltb 1 (
          count_of (is_some a) + count_of (is_some b) + count_of (is_some c) + count_of (is_some e))
        ≡ false)
      ↔ AtMostOne (a ∷ b ∷ c ∷ e ∷ [])
source_lem none b c e = ground arith
source_lem (some a) none c e = ground arith
source_lem (some a) (some b) c e = ground arith

selector_lem :
    (a b c : Option Text)
    → (ltb 1 (count_of (is_some a) + count_of (is_some b) + count_of (is_some c)) ≡ false)
      ↔ AtMostOne (a ∷ b ∷ c ∷ [])
selector_lem a b c = ground arith

module _ (semver : Semver) (name path : Text) where
  requirement_lem :
      (o : Option Text)
      → (requirement_diagnostics semver name path o ≡ [])
        ↔ ((v : Text) → o ≡ some v → semver.parse_req v ≢ none)
  unfolding requirement_diagnostics
  requirement_lem none = ((λ h v e. absurd (cc)), (λ k. refl))
  requirement_lem (some v) =
      ((λ h v' e n. ground (arith, some-injective v v' e)), (λ k. ground (arith, k v refl)))

  registry_lem :
      (p g h v : Option Text)
      → ((is_none p && is_none g && is_none h && is_blank (unwrap_or v [])) ≡ false)
        ↔ (p ≡ none → g ≡ none → h ≡ none → (v' : Text) × (v ≡ some v') × (is_blank v' ≡ false))
  registry_lem p g h v =
      let blank = asset_lem v in
      (
        (λ e a b c. blank.0 (ground arith)),
        (λ k. elim (Option-cases p) [
          | inr (x, e) ↦ ground arith
          | inl a ↦ elim (Option-cases g) [
            | inr (x, e) ↦ ground arith
            | inl b ↦ elim (Option-cases h) [
              | inr (x, e) ↦ ground arith
              | inl c ↦ ground (arith, blank.1 (k a b c))
            ]
          ]
        ]),
      )

  selector_source_lem :
      (g h a b c : Option Text)
      → ((is_none g
            && is_none h
            && ltb 0 (count_of (is_some a) + count_of (is_some b) + count_of (is_some c)))
          ≡ false)
        ↔ (g ≡ none → h ≡ none → (a ≡ none) × (b ≡ none) × (c ≡ none))
  selector_source_lem none none a b c = ground arith
  selector_source_lem none (some h) a b c = ground arith
  selector_source_lem (some g) h a b c = ground arith

  parts_sound :
      (d : DependencyDetail) (o : Option Text)
      → d.github ≡ o
      → GithubPart d o
      → ((github : Text) → d.github ≡ some github → IsGithubRepo github)
        × (d.release ≢ none → (d.github ≢ none) × IsRelease d)
        × (d.release ≡ none → (d.asset ≡ none) × (d.checksum ≡ none))
  parts_sound d none e (r, a, c) = ((λ g k. absurd (cc)), (λ n. absurd (n r)), (λ _. (a, c)))
  parts_sound d (some g) e (repo, release, fields) =
      ((λ g' k. rw (some-injective g' g (sym k ∙ e)) repo), (λ n. ((λ k. cc), release n)), fields)

  parts_complete :
      (d : DependencyDetail) (o : Option Text)
      → d.github ≡ o
      → IsValidDetail semver d
      → GithubPart d o
  parts_complete d none e v = elim (Option-cases d.release) [
    | inl n ↦ (n, (v.release_fields n).0, (v.release_fields n).1)
    | inr (r, k) ↦ absurd ((v.release_source (λ n. cc (n, k))).0 e)
  ]
  parts_complete d (some g) e v = (v.repo g e, (λ n. (v.release_source n).1), v.release_fields)

  validate_detail_sound :
      (d : DependencyDetail) → validate_detail semver name path d ≡ [] → IsValidDetail semver d
  unfolding validate_detail
  validate_detail_sound d h =
      let e1 = (append-eq-nil _ _).0 h in
      let e2 = (append-eq-nil _ _).0 e1.1 in
      let e3 = (append-eq-nil _ _).0 e2.1 in
      let e4 = (append-eq-nil _ _).0 e3.1 in
      let e5 = (append-eq-nil _ _).0 e4.1 in
      let (repo, source, fields) =
        parts_sound d d.github refl ((github_lem semver name path d d.github).0 e5.0) in
      record {
        one_source =
            (source_lem d.path d.git d.github d.registry).0 ((report_if-eq-nil _ _).0 e1.0);
        one_selector = (selector_lem d.rev d.tag d.branch).0 ((report_if-eq-nil _ _).0 e3.0);
        selector_source =
            (selector_source_lem d.git d.github d.rev d.tag d.branch).0
              ((report_if-eq-nil _ _).0 e2.0);
        registry_version =
            (registry_lem d.path d.git d.github d.version).0 ((report_if-eq-nil _ _).0 e4.0);
        repo = repo;
        release_source = source;
        release_fields = fields;
        requirement = (requirement_lem d.version).0 e5.1;
      }

  validate_detail_complete :
      (d : DependencyDetail) → IsValidDetail semver d → validate_detail semver name path d ≡ []
  unfolding validate_detail
  validate_detail_complete d v =
      let source = (source_lem d.path d.git d.github d.registry).1 v.one_source in
      let orphan = (selector_source_lem d.git d.github d.rev d.tag d.branch).1 v.selector_source in
      let selector = (selector_lem d.rev d.tag d.branch).1 v.one_selector in
      let registry = (registry_lem d.path d.git d.github d.version).1 v.registry_version in
      let github = (github_lem semver name path d d.github).1 (parts_complete d d.github refl v) in
      let requirement = (requirement_lem d.version).1 v.requirement in
      (append-eq-nil _ _).1 (
        (report_if-eq-nil _ _).1 source,
        (append-eq-nil _ _).1 (
          (report_if-eq-nil _ _).1 orphan,
          (append-eq-nil _ _).1 (
            (report_if-eq-nil _ _).1 selector,
            (append-eq-nil _ _).1
                ((report_if-eq-nil _ _).1 registry, (append-eq-nil _ _).1 (github, requirement)),
          ),
        ),
      )

  -- A detailed dependency has no diagnostic exactly when it names one source at most and one of `rev`,
  -- `tag` and `branch` at most; gives such a selector only for `git` or `github`; gives a non-blank
  -- version where it is from a registry; has `owner/repo` for `github`; gives a release only with
  -- `github`, no selector, a non-blank asset and a BLAKE3 checksum, and asset and checksum only with a
  -- release; and gives a version only where `semver` reads it.
  pub validate_detail_iff :
      (d : DependencyDetail) → (validate_detail semver name path d ≡ []) ↔ IsValidDetail semver d
  validate_detail_iff d = (validate_detail_sound d, validate_detail_complete d)
