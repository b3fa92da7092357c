-- ===== src/Environment/Found.antt =====
-- What the search of the package index finds is one of its dependencies.
use etas.Base.{Text, Option, none, some, Bool, Bool-cases, ◌≡◌, inl, inr}
use mathlib.Core.Path.{subst}
use mathlib.Core.Option.{some-injective}
use etas.Manifest.Schema.{DependencySpec}
use etas.Metadata.{ResolvedDependency, Dependencies, nil, cons}
use etas.Lockfile.{LockedPackage}
use etas.Environment.Model.{Carried, PackageIndex}
use etas.Environment.Agree.{IsCoherent}
use etas.Environment.Build.{find_dependency, dependency_metadata, is_metadata_of}

module _ {K P : Type 0} (content_digest : ResolvedDependency K (Carried P) → Text) where
  abbrev pub AllCoherent : Dependencies K (Carried P) → Type 0
  AllCoherent nil = Unit {0}
  AllCoherent (cons d ds) = IsCoherent content_digest d × AllCoherent ds

  find_dependency-IsCoherent :
      (test : ResolvedDependency K (Carried P) → Bool) (ds : Dependencies K (Carried P))
      (d : ResolvedDependency K (Carried P))
      → AllCoherent ds
      → find_dependency test ds ≡ some d
      → IsCoherent content_digest d
  unfolding find_dependency
  find_dependency-IsCoherent test nil d h e = absurd (cc)
  find_dependency-IsCoherent test (cons x xs) d (h, hs) e = elim (Bool-cases (test x)) [
    | inl q ↦ subst (IsCoherent content_digest) (some-injective x d (rw q at e)) h
    | inr q ↦ find_dependency-IsCoherent test xs d hs (rw q at e)
  ]

abbrev pub index_dependencies :
    {K P : Type 0} → Option (PackageIndex K P) → Dependencies K (Carried P)
index_dependencies none = nil
index_dependencies (some index) = index.dependencies

pub dependency_metadata-IsCoherent :
    {K P : Type 0} (content_digest : ResolvedDependency K (Carried P) → Text)
    (index : Option (PackageIndex K P)) (spec : DependencySpec) (name root : Text)
    (locked : LockedPackage) (d : ResolvedDependency K (Carried P))
    → AllCoherent content_digest (index_dependencies index)
    → dependency_metadata index spec name root locked ≡ some d
    → IsCoherent content_digest d
unfolding dependency_metadata
dependency_metadata-IsCoherent content_digest none spec name root locked d h e = absurd (cc)
dependency_metadata-IsCoherent content_digest (some index) spec name root locked d h e =
    find_dependency-IsCoherent content_digest (is_metadata_of spec name root locked)
      index.dependencies d h e
