-- ===== src/Examples/Registries.antt =====
-- A local registry with three versions of a package, ordered as texts.
use Prim.Native.Nat.{lt, eq, gt}
use Prim.Native.String.{String}
use etas.Base.{
  ◌↔◌, All, Text, codes, same_text, none, some, ◌||◌, List, [], ◌∷◌, ◌≡◌, refl, sym, ◌∙◌, is_empty,
  if◌then◌else◌,
}
use etas.Base.Order.{cmp, cmp_refl, cmp_flip, le_trans}
use etas.Semver.{Semver}
use etas.Registry.{LocalRegistryVersion, select_registry_version}
use etas.Registry.Selects.{Parses, IsAccepted, select_registry_version_iff}
use etas.Registry.Greatest.{IsIn, IsOrder}
use etas.Registry.Selection.{IsSelected, select_registry_version-IsSelected}
use etas.Diagnostics.{ok}

abbrev any_semver : Semver
any_semver = record {
  Version = Text;
  VersionReq = Text;
  parse = λ t. if is_empty t then none else some t;
  parse_req = λ t. if is_empty t then none else some t;
  matches = λ r v. same_text r (codes "*") || same_text r v;
}

byte_order : IsOrder cmp
byte_order = record {
  reflexive = λ a h. absurd (eq_not_gt (sym (cmp_refl a) ∙ h));
  total = λ a b h k. absurd (lt_not_gt (sym (cmp_flip a b h) ∙ k));
  transitive = le_trans;
}
  where
    eq_not_gt : eq ≡ gt → ⊥
    eq_not_gt h = absurd (cc)

    lt_not_gt : lt ≡ gt → ⊥
    lt_not_gt h = absurd (cc)

abbrev release : String → LocalRegistryVersion
release number = record { version = codes number; path = none; checksum = codes "blake3:0af9" }

abbrev versions : List LocalRegistryVersion
versions = release "1" ∷ release "3" ∷ release "2" ∷ []

selected :
    select_registry_version any_semver cmp
      (codes "/app")
      (codes "json")
      none
      (codes "/index")
      versions
    ≡ ok (release "3")
unfolding select_registry_version same_text cmp
selected = refl

select_registry_version-IsSelected_example :
    IsSelected any_semver cmp byte_order
      (codes "json")
      (codes "/index")
      (codes "*")
      versions
      (release "3")
select_registry_version-IsSelected_example =
    select_registry_version-IsSelected any_semver cmp byte_order (codes "/app") (codes "json") none
      (codes "/index") (codes "*") versions (release "3") refl selected

select_registry_version_iff_example :
    ((c : LocalRegistryVersion) × (select_registry_version any_semver cmp
          (codes "/app")
          (codes "json")
          none
          (codes "/index")
          versions
        ≡ ok c))
    ↔ (All (Parses any_semver cmp byte_order (codes "json") (codes "/index") (codes "*")) versions
        × ((d : LocalRegistryVersion) × IsIn d versions
            × IsAccepted any_semver cmp byte_order (codes "json") (codes "/index") (codes "*") d))
select_registry_version_iff_example =
    select_registry_version_iff any_semver cmp byte_order (codes "json") (codes "/index")
      (codes "*") (codes "/app") none versions refl
