-- ===== src/Snapshot/Reader/Actions.antt =====
-- The state of `Reader` of crates/etas_package/src/source_snapshot/reader.rs, and the actions on it:
-- an action may fail, and after a failure the state is lost, as the reader is dropped.
use Prim.Native.Nat.{lt, eq, gt, min}
use etas.Base.{ℕ, ◌+◌, ◌-◌, ◌^◌, Option, none, some, Bool, true, false}
use etas.Base.{List, [], ◌∷◌, leb, if◌then◌else◌}
use etas.Base.Paths.{RelativePath, compare_path}
use etas.Diagnostics.{Result, ok, err}
use etas.Snapshot.{Files, Kind, file, dir, SourceSnapshotError, interrupted}

unfoldable pub lookup : RelativePath → Files → Option (List ℕ)
lookup k [] = none
lookup k ((j, v) ∷ m) = let rest = lookup k m in elim (compare_path k j) [ eq ↦ some v | _ ↦ rest ]

unfoldable pub insert : RelativePath → List ℕ → Files → Files
insert k v [] = (k, v) ∷ []
insert k v ((j, w) ∷ m) =
    let rest = insert k v m in
    elim (compare_path k j) [ lt ↦ (k, v) ∷ (j, w) ∷ m | eq ↦ (j, v) ∷ m | gt ↦ (j, w) ∷ rest ]

-- `usize` on a 64-bit target
abbrev pub usize_max : ℕ
usize_max = 2 ^ 64 - 1

abbrev pub checked_add : ℕ → ℕ → Option ℕ
checked_add a b = if leb (a + b) usize_max then some (a + b) else none

abbrev pub saturating_add : ℕ → ℕ → ℕ
saturating_add a b = min (a + b) usize_max

-- The mutable fields, the results that the caller's `checkpoint` is still to give, where an empty list
-- stands for success from there on, and how often the file system was accessed.
pub record Reader (E : Type 0) : Type 0 where
  pub checks : List (Option E)
  pub accesses : ℕ
  pub entries : ℕ
  pub total : ℕ
  pub files : Files
  pub checksum_paths : List RelativePath

abbrev pub M : Type 0 → Type 0 → Type 0
M E A = Reader E → Result (SourceSnapshotError E) (A × Reader E)

infixl 10 ◌>>=◌ ◌>>◌
unfoldable pub ◌>>=◌ : {E A B : Type 0} → M E A → (A → M E B) → M E B
◌>>=◌ m f r = elim (m r) [ err e ↦ err e | ok (a, r') ↦ f a r' ]

abbrev pub ◌>>◌ : {E B : Type 0} → M E (Unit {0}) → M E B → M E B
m >> k = m >>= λ _. k

unfoldable pub pure : {E A : Type 0} → A → M E A
pure a r = ok (a, r)

unfoldable pub fail : {E A : Type 0} → SourceSnapshotError E → M E A
fail e r = err e

-- `if test { return Err(e) }`
unfoldable pub fail_when : {E : Type 0} → Bool → SourceSnapshotError E → M E (Unit {0})
fail_when test e r = if test then err e else ok (tt, r)

-- What reads the fields of `self`.
unfoldable pub with_self : {E A : Type 0} → (Reader E → M E A) → M E A
with_self f r = f r r

-- `option.ok_or(e)?`
unfoldable pub expect : {E A : Type 0} → Option A → SourceSnapshotError E → M E A
expect none e r = err e
expect (some a) e r = ok (a, r)

-- `result?`
unfoldable pub lift : {E A : Type 0} → Result (SourceSnapshotError E) A → M E A
lift (ok a) r = ok (a, r)
lift (err e) r = err e

-- `n` accesses to the file system. The result is how many there were before.
unfoldable pub access : {E : Type 0} → ℕ → M E ℕ
access n r = ok (r.accesses, record r { accesses = r.accesses + n })

unfoldable pub next_check : {E : Type 0} → List (Option E) → M E (Unit {0})
next_check [] r = ok (tt, r)
next_check (none ∷ checks) r = ok (tt, record r { checks = checks })
next_check (some e ∷ checks) r = err (interrupted e)

-- `(self.checkpoint)().map_err(Error::Interrupted)?`
unfoldable pub checkpoint : {E : Type 0} → M E (Unit {0})
unfolding next_check
checkpoint r = next_check r.checks r

unfoldable pub is_file_kind : Kind → Bool
is_file_kind file = true
is_file_kind _ = false

unfoldable pub is_dir_kind : Kind → Bool
is_dir_kind dir = true
is_dir_kind _ = false
