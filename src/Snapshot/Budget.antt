-- ===== src/Snapshot/Budget.antt =====
-- crates/etas_package/src/source_snapshot/budget.rs: one budget for all the snapshots of a compilation.
use etas.Base.{ℕ, ◌+◌, ◌-◌, ◌≤◌, Text, Option, none, some, Bool, true, false, ◌==◌}
use etas.Base.{List, [], ◌∷◌, ◌≡◌, refl, arith, if◌then◌else◌}
use mathlib.Core.Path.{subst}
use etas.Diagnostics.{ok, err}
use etas.Semver.{Semver}
use etas.Snapshot.{
  System, SourceSnapshotLimits, LockedPackageSourceSnapshot, default_limits, resource_limit,
  entries, total_bytes,
}
use etas.Snapshot.Hoare.{Good}
use etas.Snapshot.Reader.{checkpoint}
use etas.Snapshot.Sizes.{sizes}
use etas.Snapshot.Locked.{Run, and_then, new_reader, read_locked_package_sources}
use etas.Snapshot.Verified.{IsVerified, read_locked_package_sources-IsVerified}
use etas.Snapshot.Payload.{Good-and_then}

pub record SourceSnapshotBudget : Type 0 where
  pub limits : SourceSnapshotLimits
  pub spent_entries : ℕ
  pub bytes : ℕ

abbrev pub new : SourceSnapshotLimits → SourceSnapshotBudget
new limits = record { limits = limits; spent_entries = 0; bytes = 0 }

abbrev pub default_budget : SourceSnapshotBudget
default_budget = new default_limits

-- What a budget leaves for the next package.
abbrev pub remaining : SourceSnapshotBudget → SourceSnapshotLimits
remaining self = record self.limits {
  max_entries = self.limits.max_entries - self.spent_entries;
  max_total_bytes = self.limits.max_total_bytes - self.bytes;
}

abbrev pub spend : SourceSnapshotBudget → LockedPackageSourceSnapshot → SourceSnapshotBudget
spend self snapshot = record self {
  spent_entries = self.spent_entries + snapshot.entries;
  bytes = self.bytes + snapshot.payload_bytes;
}

module _ {E : Type 0} (sys : System) (semver : Semver) where
  -- The checkpoints that the first call takes are gone from the list that the reader gets.
  unfoldable pub read_locked :
      SourceSnapshotBudget
      → Text
      → Text
      → List (Option E)
      → Run E (LockedPackageSourceSnapshot × SourceSnapshotBudget)
  unfolding checkpoint read_locked_package_sources
  read_locked self root checksum checks = and_then (checkpoint (new_reader checks)) λ (_, r).
      let limits = remaining self in
      if limits.max_entries == 0
      then some (err (resource_limit entries self.limits.max_entries))
      else if limits.max_total_bytes == 0
      then some (err (resource_limit total_bytes self.limits.max_total_bytes))
      else elim (read_locked_package_sources sys semver root checksum limits r.checks) [
        | none ↦ none
        | some result ↦ and_then result λ snapshot. some (ok (snapshot, spend self snapshot))
      ]

-- The budgets that successful reads lead to from a new one, and their snapshots.
pub data Reads (E : Type 0) (limits : SourceSnapshotLimits)
    : List LockedPackageSourceSnapshot → SourceSnapshotBudget → Type 1 where
  started : Reads E limits [] (new limits)
  read :
      {snapshots : List LockedPackageSourceSnapshot} {self self' : SourceSnapshotBudget}
      → (sys : System) (semver : Semver) (root checksum : Text) (checks : List (Option E))
        (snapshot : LockedPackageSourceSnapshot)
      → Reads E limits snapshots self
      → read_locked {E = E} sys semver self root checksum checks ≡ some (ok (snapshot, self'))
      → Reads E limits (snapshot ∷ snapshots) self'

-- The bytes of all the files of all the snapshots.
abbrev pub sizes_of : List LockedPackageSourceSnapshot → ℕ
sizes_of [] = 0
sizes_of (s ∷ ss) = sizes s.files + sizes_of ss

abbrev Spent : SourceSnapshotBudget → LockedPackageSourceSnapshot × SourceSnapshotBudget → Type 0
Spent self (snapshot, self') =
    (self' ≡ spend self snapshot)
    × (snapshot.entries ≤ self.limits.max_entries - self.spent_entries)
    × (snapshot.payload_bytes ≤ self.limits.max_total_bytes - self.bytes)
    × (snapshot.payload_bytes ≡ sizes snapshot.files)

Good-if :
    {E A : Type 0} (Q : A → Type 0) (test : Bool) (a b : Run E A)
    → Good Q a
    → Good Q b
    → Good Q (if test then a else b)
Good-if Q true a b ha hb = ha
Good-if Q false a b ha hb = hb

module _ {E : Type 0} (sys : System) (semver : Semver) where
  spend-Good :
      (self : SourceSnapshotBudget) (expected : Text) (run : Run E LockedPackageSourceSnapshot)
      → Good (IsVerified sys semver (remaining self) expected) run
      → Good
          (Spent self)
          (elim run as (λ _. Run E (LockedPackageSourceSnapshot × SourceSnapshotBudget)) [
            | none ↦ none
            | some result ↦ and_then result λ snapshot. some (ok (snapshot, spend self snapshot))
          ])
  unfolding and_then
  spend-Good self expected none g = g
  spend-Good self expected (some (err e)) g = tt
  spend-Good self expected (some (ok s)) g = (refl, g.entries_bound, g.bytes_bound, g.bytes_exact)

  read_locked-Good :
      (self : SourceSnapshotBudget) (root checksum : Text) (checks : List (Option E))
      → Good (Spent self) (read_locked sys semver self root checksum checks)
  unfolding read_locked
  read_locked-Good self root checksum checks =
      Good-and_then _ (checkpoint (new_reader checks)) _ λ (_, r) e.
        Good-if (Spent self) ((remaining self).max_entries == 0) _ _ tt (
          Good-if (Spent self) ((remaining self).max_total_bytes == 0) _ _ tt (
            spend-Good self checksum _ (
              read_locked_package_sources-IsVerified sys semver root checksum (remaining self)
                r.checks)))

-- However many packages a compilation reads on one budget, the entries that it has seen and the bytes
-- that it holds stay within the budget's limits, and the bytes it has counted are those of the files of
-- the snapshots.
pub Reads-bounds :
    {E : Type 0} (limits : SourceSnapshotLimits) (snapshots : List LockedPackageSourceSnapshot)
    (self : SourceSnapshotBudget)
    → Reads E limits snapshots self
    → (self.limits ≡ limits)
      × (self.spent_entries ≤ limits.max_entries)
      × (self.bytes ≤ limits.max_total_bytes)
      × (self.bytes ≡ sizes_of snapshots)
Reads-bounds limits [] self started = (refl, omega arith, omega arith, refl)
Reads-bounds {E = E} limits _ self' (read sys semver root checksum checks snapshot reads e) =
    let (el, en, eb, ex) = Reads-bounds limits _ _ reads in
    let (s, sn, sb, sx) =
      subst (Good (Spent _)) e (read_locked-Good sys semver _ root checksum checks) in
    ground (arith, s, el, en, eb, ex, sn, sb, sx)
