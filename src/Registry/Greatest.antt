-- ===== src/Registry/Greatest.antt =====
-- The greatest of a list of versions, by an order that is a parameter.
use Prim.Native.Nat.{Ordering, gt}
use etas.Base.{List, [], ◌∷◌, ◌≡◌, ◌≢◌, ◌⊎◌, inl, inr, refl, ◌∙◌, arith, All}
use etas.Semver.{Semver}
use etas.Registry.{LocalRegistryVersion, greater, max_from}

-- What the order of semantic versions is: total and transitive.
pub record IsOrder {V : Type 0} (compare : V → V → Ordering) : Type 0 where
  pub reflexive : (a : V) → compare a a ≢ gt
  pub total : (a b : V) → compare a b ≡ gt → compare b a ≢ gt
  pub transitive : (a b c : V) → compare a b ≢ gt → compare b c ≢ gt → compare a c ≢ gt

abbrev pub IsIn : {A : Type 0} → A → List A → Type 0
IsIn c [] = ⊥
IsIn c (d ∷ ds) = (c ≡ d) ⊎ IsIn c ds

module _ (semver : Semver) (compare : semver.Version → semver.Version → Ordering)
    (order : IsOrder compare) where
  abbrev Found : Type 0
  Found = semver.Version × LocalRegistryVersion

  greater_lem :
      (a b : Found)
      → (compare a.0 (greater semver compare a b).0 ≢ gt)
        × (compare b.0 (greater semver compare a b).0 ≢ gt)
        × ((greater semver compare a b ≡ a) ⊎ (greater semver compare a b ≡ b))
  unfolding greater
  greater_lem a b = ground (arith, order.reflexive a.0, order.reflexive b.0, order.total a.0 b.0)

  pub max_lem :
      (best : Found) (cs : List Found)
      → (compare best.0 (max_from semver compare best cs).0 ≢ gt)
        × All (λ c. compare c.0 (max_from semver compare best cs).0 ≢ gt) cs
        × IsIn (max_from semver compare best cs) (best ∷ cs)
  unfolding max_from
  max_lem best [] = (order.reflexive best.0, tt, inl refl)
  max_lem best (c ∷ cs) =
      let (p, q, r) = greater_lem best c in
      let (x, y, z) = max_lem (greater semver compare best c) cs in
      (
        order.transitive best.0 (greater semver compare best c).0 _ p x,
        (order.transitive c.0 (greater semver compare best c).0 _ q x, y),
        among r z,
      )
    where
      among :
          (greater semver compare best c ≡ best) ⊎ (greater semver compare best c ≡ c)
          → (max_from semver compare (greater semver compare best c) cs
              ≡ greater semver compare best c)
            ⊎ IsIn (max_from semver compare (greater semver compare best c) cs) cs
          → IsIn (max_from semver compare (greater semver compare best c) cs) (best ∷ c ∷ cs)
      among (inl e) (inl k) = inl (k ∙ e)
      among (inr e) (inl k) = inr (inl (k ∙ e))
      among _ (inr k) = inr (inr k)
