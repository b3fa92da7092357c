-- ===== src/Registry/Selects.antt =====
-- When a local registry has a version to select.
use Prim.Native.Nat.{Ordering}
use etas.Base.{
  Text, codes, Option, none, some, true, List, [], ◌∷◌, ◌≡◌, ◌≢◌, ◌↔◌, inl, inr, refl, sym, All,
}
use mathlib.Core.Path.{subst}
use mathlib.Core.Option.{some-injective}
use etas.Diagnostics.{PackageDiagnostic, ok}
use etas.Semver.{Semver}
use etas.Manifest.Dependency.{unwrap_or}
use etas.Registry.Greatest.{IsIn, IsOrder}
use etas.Registry.{
  LocalRegistryVersion, max_by, add, collect, ok_selected, select_matching, select_registry_version,
}
use etas.Registry.Selection.{Covered, collect_complete, select_registry_version-IsSelected}

module _ (semver : Semver) (compare : semver.Version → semver.Version → Ordering)
    (order : IsOrder compare) (name index_path : Text) (r : semver.VersionReq) where
  abbrev pub Parses : LocalRegistryVersion → Type 0
  Parses d = (v : semver.Version) × (semver.parse d.version ≡ some v)

  add_clean_iff :
      (d : LocalRegistryVersion) (o : Option semver.Version)
      (rest : List PackageDiagnostic × List (semver.Version × LocalRegistryVersion))
      → ((add semver compare name index_path r d o rest).0 ≡ [])
        ↔ (((v : semver.Version) × (o ≡ some v)) × (rest.0 ≡ []))
  unfolding add
  add_clean_iff d none rest = ((λ h. absurd (cc)), (λ ((v, e), _). absurd (cc)))
  add_clean_iff d (some v) rest = ((λ h. ((v, refl), h)), (λ (_, h). h))

  collect_clean_iff :
      (versions : List LocalRegistryVersion)
      → ((collect semver compare name index_path r versions).0 ≡ []) ↔ All Parses versions
  unfolding collect
  collect_clean_iff [] = ((λ _. tt), (λ _. refl))
  collect_clean_iff (d ∷ versions) =
      let ih = collect_clean_iff versions in
      let here =
        add_clean_iff d (semver.parse d.version)
          (collect semver compare name index_path r versions) in
      ((λ h. let (p, q) = here.0 h in (p, ih.0 q)), (λ (p, q). here.1 (p, ih.1 q)))

  all_in :
      (P : LocalRegistryVersion → Type 0) (versions : List LocalRegistryVersion)
      (d : LocalRegistryVersion)
      → All P versions
      → IsIn d versions
      → P d
  all_in P [] d h k = elim k [ ]
  all_in P (x ∷ versions) d (h, hs) (inl e) = subst P (sym e) h
  all_in P (x ∷ versions) d (h, hs) (inr k) = all_in P versions d hs k

  -- A version of the index that the requirement accepts.
  abbrev pub IsAccepted : LocalRegistryVersion → Type 0
  IsAccepted d =
      (v : semver.Version) × (semver.parse d.version ≡ some v) × (semver.matches r v ≡ true)

  not_empty :
      (versions : List LocalRegistryVersion) (d : LocalRegistryVersion)
      → IsIn d versions
      → IsAccepted d
      → (collect semver compare name index_path r versions).1 ≢ []
  not_empty versions d k (v, e, m) h =
      all_in (Covered semver compare order name index_path r (λ _. ⊥)) versions d
        (collect_complete semver compare order name index_path r (λ _. ⊥) versions
          (subst (All (λ _. ⊥)) (sym h) tt))
        k v e m

  selected_clean :
      (unresolved : PackageDiagnostic) (ds : List PackageDiagnostic)
      (best : Option (semver.Version × LocalRegistryVersion)) (c : LocalRegistryVersion)
      → ok_selected semver compare unresolved (ds, best) ≡ ok c
      → ds ≡ []
  selected_clean unresolved [] best c h = refl
  selected_clean unresolved (d ∷ ds) best c h = absurd (cc)

  clean_selected :
      (unresolved : PackageDiagnostic) (ds : List PackageDiagnostic)
      (found : List (semver.Version × LocalRegistryVersion))
      → ds ≡ []
      → found ≢ []
      → (c : LocalRegistryVersion) × (ok_selected semver compare unresolved
            (ds, max_by semver compare found)
          ≡ ok c)
  unfolding max_by
  clean_selected unresolved (d ∷ ds) found e n = absurd (cc)
  clean_selected unresolved [] [] e n = absurd (n refl)
  clean_selected unresolved [] (b ∷ found) e n = (_, refl)

  matching_clean :
      (root requirement : Text) (o : Option semver.VersionReq)
      (versions : List LocalRegistryVersion) (c : LocalRegistryVersion)
      → o ≡ some r
      → select_matching semver compare root name requirement index_path o versions ≡ ok c
      → All Parses versions
  unfolding select_matching
  matching_clean root requirement none versions c e h = absurd (cc)
  matching_clean root requirement (some s) versions c e h = (collect_clean_iff versions).0 (
      selected_clean _ _ _ c (
        subst
          (λ q.
            select_matching semver compare root name requirement index_path (some q) versions
            ≡ ok c)
          (some-injective s r e) h))

  matching_selected :
      (root requirement : Text) (o : Option semver.VersionReq)
      (versions : List LocalRegistryVersion)
      → o ≡ some r
      → All Parses versions
      → (collect semver compare name index_path r versions).1 ≢ []
      → (c : LocalRegistryVersion) × (select_matching semver compare root name requirement
            index_path o versions
          ≡ ok c)
  unfolding select_matching
  matching_selected root requirement o versions e p n =
      subst
        (λ q.
          (c : LocalRegistryVersion) × (select_matching semver compare root name requirement
              index_path q versions
            ≡ ok c))
        (sym e) (clean_selected _ _ _ ((collect_clean_iff versions).1 p) n)

  -- For a requirement that parses, `*` if there is none, a version is selected exactly when every
  -- version of the index parses and the requirement accepts one of them.
  pub select_registry_version_iff :
      (package_root : Text) (requirement : Option Text) (versions : List LocalRegistryVersion)
      → semver.parse_req (unwrap_or requirement (codes "*")) ≡ some r
      → ((c : LocalRegistryVersion) × (select_registry_version semver compare package_root name
              requirement index_path versions
            ≡ ok c))
        ↔ (All Parses versions × ((d : LocalRegistryVersion) × IsIn d versions × IsAccepted d))
  unfolding select_registry_version
  select_registry_version_iff package_root requirement versions e = (
    (λ (c, h).
        let s =
          select_registry_version-IsSelected semver compare order package_root name requirement
            index_path r versions c e h in
        (
          matching_clean package_root (unwrap_or requirement (codes "*")) _ versions c e h,
          (c, s.present, (s.parsed, s.parses, s.accepted)),
        )),
    (λ (p, (d, k, a)).
        matching_selected package_root (unwrap_or requirement (codes "*")) _ versions e p
          (not_empty versions d k a)),
  )
