-- ===== src/HostConfig/Allowlists.antt =====
-- An allowlist of endpoints as a set, and `sort_dedup_network_allowlist` of
-- crates/etas_cli/src/command/interpreter/host_config.rs as its normal form.
use mathlib.Core.HLevel.{×_prop}
use mathlib.Core.Path.{subst}
use mathlib.Core.Quot
use mathlib.Core.Quot.{Quot, Quot-set}
use Prim.Native.Nat.{lt}
use etas.Base.{◌≤◌, ◌⊎◌, Text, same_text_iff, true, false, List, ◌≡◌, ◌≢◌, sym, ◌↔◌, arith}
use etas.Base.Order.{cmp, cmp-eq_iff, cmp_refl, cmp_flip, cmp_trans}
use etas.Base.Canonical.{
  IsOrder, SameElements, SameElements-sym, SameElements-trans, IsStrict, sort_dedup-IsStrict,
  sort_dedup-SameElements, SameElements-sym, SameElements-trans, IsStrict-prop, IsStrict-unique,
}
use etas.HostConfig.{NetworkEndpoint}
use etas.HostConfig.Network.{endpoint_le, same_endpoint, sort_dedup_network_allowlist}

endpoint_le_flip : (a b : NetworkEndpoint) → endpoint_le a b ≡ false → endpoint_le b a ≡ true
unfolding endpoint_le
endpoint_le_flip a b h = ground (
  arith,
  cmp_flip a.scheme b.scheme,
  cmp_flip a.host b.host,
  cmp-eq_iff a.scheme b.scheme,
  cmp-eq_iff a.host b.host,
  cmp_refl b.scheme,
  cmp_refl b.host,
)

same_endpoint_iff : (a b : NetworkEndpoint) → (same_endpoint a b ≡ true) ↔ (a ≡ b)
unfolding same_endpoint
same_endpoint_iff a b = ground (arith, same_text_iff a.scheme b.scheme, same_text_iff a.host b.host)

-- The lexicographic order, as a sum.
abbrev Below : NetworkEndpoint → NetworkEndpoint → Type 0
Below a b =
    (cmp a.scheme b.scheme ≡ lt)
    ⊎ ((a.scheme ≡ b.scheme) × ((cmp a.host b.host ≡ lt) ⊎ ((a.host ≡ b.host) × (a.port ≤ b.port))))

endpoint_le_iff : (a b : NetworkEndpoint) → (endpoint_le a b ≡ true) ↔ Below a b
unfolding endpoint_le
endpoint_le_iff a b = ground (arith, cmp-eq_iff a.scheme b.scheme, cmp-eq_iff a.host b.host)

cmp_irrefl : (s t : Text) → cmp s t ≡ lt → cmp t s ≢ lt
cmp_irrefl s t h k = ground (arith, cmp_trans s t s h k, cmp_refl s)

Below-antisym : (a b : NetworkEndpoint) → Below a b → Below b a → a ≡ b
Below-antisym a b h k = ground (
  arith,
  cmp_irrefl a.scheme b.scheme,
  cmp_irrefl a.host b.host,
  cmp_refl a.scheme,
  cmp_refl a.host,
)

Below-trans : (a b c : NetworkEndpoint) → Below a b → Below b c → Below a c
Below-trans a b c h k =
    ground (arith, cmp_trans a.scheme b.scheme c.scheme, cmp_trans a.host b.host c.host)

endpoint_order : IsOrder endpoint_le same_endpoint
endpoint_order = record {
  le_flip = endpoint_le_flip;
  le_trans = λ a b c h k.
      (endpoint_le_iff a c).1
        (Below-trans a b c ((endpoint_le_iff a b).0 h) ((endpoint_le_iff b c).0 k));
  le_antisym = λ a b h k. Below-antisym a b ((endpoint_le_iff a b).0 h) ((endpoint_le_iff b a).0 k);
  same_iff = same_endpoint_iff;
}

sorted-SameElements :
    (xs : List NetworkEndpoint) → SameElements (sort_dedup_network_allowlist xs) xs
unfolding sort_dedup_network_allowlist
sorted-SameElements xs = sort_dedup-SameElements endpoint_order xs

sorted-IsStrict :
    (xs : List NetworkEndpoint) → IsStrict endpoint_le (sort_dedup_network_allowlist xs)
unfolding sort_dedup_network_allowlist
sorted-IsStrict xs = sort_dedup-IsStrict endpoint_order xs

-- Two allowlists are sorted to the same list exactly when they allow the same endpoints.
pub sort_dedup_network_allowlist_iff :
    (xs ys : List NetworkEndpoint)
    → (sort_dedup_network_allowlist xs ≡ sort_dedup_network_allowlist ys) ↔ SameElements xs ys
sort_dedup_network_allowlist_iff xs ys = (
  λ e.
      SameElements-trans (SameElements-sym (sorted-SameElements xs))
        (subst (λ l. SameElements l ys) (sym e) (sorted-SameElements ys)),
  λ h. IsStrict-unique endpoint_order _ _ (sorted-IsStrict xs) (sorted-IsStrict ys) (
      SameElements-trans (sorted-SameElements xs)
        (SameElements-trans h (SameElements-sym (sorted-SameElements ys)))),
)

-- An allowlist as the set of the endpoints that it allows.
abbrev pub Allowlist : Type 0
Allowlist = Quot {α = List NetworkEndpoint} SameElements

abbrev pub allowlist : List NetworkEndpoint → Allowlist
allowlist = Quot.mk

unfoldable pub normal_form : Allowlist → List NetworkEndpoint
normal_form =
    Quot.lift (hlevel) sort_dedup_network_allowlist
      λ xs ys h. (sort_dedup_network_allowlist_iff xs ys).1 h

-- Sorting an allowlist and dropping what stands twice depends on nothing but the set of its endpoints, and
-- the list that is left stands for this set, with each endpoint once and in ascending order.
pub normal_form-IsStrict :
    (x : Allowlist) → (allowlist (normal_form x) ≡ x) × IsStrict endpoint_le (normal_form x)
unfolding normal_form
normal_form-IsStrict =
    Quot.ind (λ x. ×_prop (Quot-set _ _) (IsStrict-prop endpoint_le (normal_form x)))
      λ xs. (Quot.sound (sorted-SameElements xs), sorted-IsStrict xs)
