-- ===== src/Registry/Selection.antt =====
-- The selected version is the greatest that matches.
use Prim.Native.Nat.{Ordering, gt}
use etas.Base.{
  Text, codes, Option, none, some, Bool, true, false, List, [], ◌∷◌, ◌≡◌, ◌≢◌, inl, inr, refl, sym,
  ap, ◌∙◌, All, if◌then◌else◌,
}
use mathlib.Core.Path.{subst}
use mathlib.Core.Option.{some-injective}
use etas.Diagnostics.{PackageDiagnostic, Result, ok}
use etas.Semver.{Semver}
use etas.Manifest.Dependency.{unwrap_or}
use etas.Registry.Greatest.{IsIn, IsOrder, max_lem}
use etas.Registry.{
  LocalRegistryVersion, max_from, max_by, add, collect, ok_selected, select_matching,
  select_registry_version,
}

ok-injective : {E A : Type 0} → (a b : A) → ◌≡◌ {A = Result E A} (ok a) (ok b) → a ≡ b
ok-injective a b h = cc

module _ (semver : Semver) (compare : semver.Version → semver.Version → Ordering)
    (order : IsOrder compare) where
  abbrev Found : Type 0
  Found = semver.Version × LocalRegistryVersion

  module _ (name index_path : Text) (r : semver.VersionReq) where
    abbrev matching : List LocalRegistryVersion → List Found
    matching versions = (collect semver compare name index_path r versions).1

    abbrev IsMatch : Found → List LocalRegistryVersion → Type 0
    IsMatch c versions =
        (semver.parse c.1.version ≡ some c.0) × (semver.matches r c.0 ≡ true) × IsIn c.1 versions

    picked :
        (d : LocalRegistryVersion) (v : semver.Version) (c : Found) (b : Bool) (found : List Found)
        (versions : List LocalRegistryVersion)
        → semver.parse d.version ≡ some v
        → semver.matches r v ≡ b
        → (IsIn c found → IsMatch c versions)
        → IsIn c (if b then (v, d) ∷ found else found)
        → IsMatch c (d ∷ versions)
    picked d v c false found versions e m h k = let (x, y, z) = h k in (x, y, inr z)
    picked d v c true found versions e m h (inr k) = let (x, y, z) = h k in (x, y, inr z)
    picked d v c true found versions e m h (inl k) =
        subst (λ c. IsMatch c (d ∷ versions)) (sym k) (e, m, inl refl)

    add_sound :
        (d : LocalRegistryVersion) (o : Option semver.Version) (c : Found)
        (rest : List PackageDiagnostic × List Found) (versions : List LocalRegistryVersion)
        → semver.parse d.version ≡ o
        → (IsIn c rest.1 → IsMatch c versions)
        → IsIn c (add semver compare name index_path r d o rest).1
        → IsMatch c (d ∷ versions)
    unfolding add
    add_sound d none c rest versions e h k = let (x, y, z) = h k in (x, y, inr z)
    add_sound d (some v) c rest versions e h k =
        picked d v c (semver.matches r v) rest.1 versions e refl h k

    collect_sound :
        (versions : List LocalRegistryVersion) (c : Found)
        → IsIn c (matching versions)
        → IsMatch c versions
    unfolding collect
    collect_sound [] c h = elim h [ ]
    collect_sound (d ∷ versions) c h =
        add_sound d (semver.parse d.version) c (collect semver compare name index_path r versions)
          versions refl (collect_sound versions c) h

    abbrev pub Covered : (semver.Version → Type 0) → LocalRegistryVersion → Type 0
    Covered P d =
        (w : semver.Version) → semver.parse d.version ≡ some w → semver.matches r w ≡ true → P w

    kept :
        (P : semver.Version → Type 0) (d : LocalRegistryVersion) (v : semver.Version) (b : Bool)
        (found : List Found)
        → semver.parse d.version ≡ some v
        → semver.matches r v ≡ b
        → All (λ c. P c.0) (if b then (v, d) ∷ found else found)
        → Covered P d × All (λ c. P c.0) found
    kept P d v true found e m (h, hs) = ((λ w k n. subst P (some-injective v w (sym e ∙ k)) h), hs)
    kept P d v false found e m h = (
      (λ w k n.
          absurd
            (true_not_false (sym n ∙ ap (semver.matches r) (some-injective w v (sym k ∙ e)) ∙ m))),
      h,
    )
      where
        true_not_false : true ≡ false → ⊥
        true_not_false q = absurd (cc)

    add_complete :
        (P : semver.Version → Type 0) (d : LocalRegistryVersion) (o : Option semver.Version)
        (rest : List PackageDiagnostic × List Found)
        → semver.parse d.version ≡ o
        → All (λ c. P c.0) (add semver compare name index_path r d o rest).1
        → Covered P d × All (λ c. P c.0) rest.1
    unfolding add
    add_complete P d none rest e h = ((λ w k n. absurd (none_not_some w (sym e ∙ k))), h)
      where
        none_not_some : (w : semver.Version) → none ≡ some w → ⊥
        none_not_some w q = absurd (cc)
    add_complete P d (some v) rest e h = kept P d v (semver.matches r v) rest.1 e refl h

    -- What holds of every match holds of every version of the index that parses and matches.
    pub collect_complete :
        (P : semver.Version → Type 0) (versions : List LocalRegistryVersion)
        → All (λ c. P c.0) (matching versions)
        → All (Covered P) versions
    unfolding collect
    collect_complete P [] h = tt
    collect_complete P (d ∷ versions) h =
        let (x, y) =
          add_complete P d (semver.parse d.version)
            (collect semver compare name index_path r versions) refl h in
        (x, collect_complete P versions y)

    -- The version is in the index, is a semantic version that the requirement accepts, and no version
    -- of the index that the requirement accepts is greater.
    pub record IsSelected (versions : List LocalRegistryVersion) (c : LocalRegistryVersion)
        : Type 0 where
      pub parsed : semver.Version
      pub parses : semver.parse c.version ≡ some parsed
      pub accepted : semver.matches r parsed ≡ true
      pub present : IsIn c versions
      pub greatest : All (Covered (λ w. compare w parsed ≢ gt)) versions

    chosen_lem :
        (versions : List LocalRegistryVersion) (c : LocalRegistryVersion)
        (unresolved : PackageDiagnostic) (ds : List PackageDiagnostic) (found : List Found)
        → found ≡ matching versions
        → ok_selected semver compare unresolved (ds, max_by semver compare found) ≡ ok c
        → IsSelected versions c
    unfolding max_by
    chosen_lem versions c unresolved (d ∷ ds) found e h = absurd (cc)
    chosen_lem versions c unresolved [] [] e h = absurd (cc)
    chosen_lem versions c unresolved [] (b ∷ found) e h =
        let (p, q, a) = max_lem semver compare order b found in
        let (x, y, z) =
          collect_sound versions (max_from semver compare b found)
            (subst (IsIn (max_from semver compare b found)) e a) in
        let g =
          collect_complete (λ w. compare w (max_from semver compare b found).0 ≢ gt) versions
            (subst (All (λ f. compare f.0 (max_from semver compare b found).0 ≢ gt)) e (p, q)) in
        subst (IsSelected versions) (ok-injective (max_from semver compare b found).1 c h) (record {
          parsed = (max_from semver compare b found).0;
          parses = x;
          accepted = y;
          present = z;
          greatest = g;
        })

    matching_lem :
        (versions : List LocalRegistryVersion) (c : LocalRegistryVersion) (root requirement : Text)
        → select_matching semver compare root name requirement index_path (some r) versions ≡ ok c
        → IsSelected versions c
    unfolding select_matching
    matching_lem versions c root requirement h =
        chosen_lem versions c _ _ (matching versions) refl h

  -- A version that is selected is in the index, parses, and is accepted by the requirement, `*` if
  -- there is none; no version in the index that the requirement accepts is greater.
  pub select_registry_version-IsSelected :
      (package_root name : Text) (requirement : Option Text) (index_path : Text)
      (r : semver.VersionReq) (versions : List LocalRegistryVersion) (c : LocalRegistryVersion)
      → semver.parse_req (unwrap_or requirement (codes "*")) ≡ some r
      → select_registry_version semver compare package_root name requirement index_path versions
        ≡ ok c
      → IsSelected name index_path r versions c
  unfolding select_registry_version
  select_registry_version-IsSelected package_root name requirement index_path r versions c e h =
      matching_lem name index_path r versions c package_root (unwrap_or requirement (codes "*")) (
        ap
          (λ o.
            select_matching semver compare package_root name (unwrap_or requirement (codes "*"))
              index_path o versions)
          (sym e)
        ∙ h)
