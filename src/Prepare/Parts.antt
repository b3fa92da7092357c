-- ===== src/Prepare/Parts.antt =====
-- What the parts of `prepare_package` give: an accepted lockfile and a selected bin.
use etas.Base.{
  ap, Text, same_text_iff, Option, none, some, Bool, true, false, not, ◌||◌, same_text, List, [],
  ◌∷◌, ◌≡◌, ◌⊎◌, inl, inr, refl, sym, arith, All, concat_map, find, Bool-cases,
}
use mathlib.Core.Path.{subst}
use mathlib.Core.Option.{some-injective}
use mathlib.Core.List.{Memᴰ}
use mathlib.Core.List.Memᴰ as MemD
use etas.Diagnostics.{Result, ok, err, ◌>>=◌, ok_or, fail_if}
use etas.Manifest.Schema.{Manifest, BinTarget}
use etas.Lockfile.{Lockfile, manifest_dependency_fingerprint}
use etas.Lock.Policy.{
  resolve_lockfile, select_bin, selected_bin, import_root_missing, default_entry,
  validate_lockfile_import_roots,
}
use etas.Lock.Accepted.{HasRoot, resolve_lockfile_iff}
use etas.Environment.Owned.{ok_unless-eq-ok}

pub bind-eq-ok :
    {E A B : Type 0} (r : Result E A) (f : A → Result E B) (b : B)
    → (r >>= f) ≡ ok b
    → (a : A) × (r ≡ ok a) × (f a ≡ ok b)
bind-eq-ok (ok a) f b h = (a, refl, h)
bind-eq-ok (err e) f b h = absurd (cc)

pub ok-injective : {E A : Type 0} (a b : A) → ◌≡◌ {A = Result E A} (ok a) (ok b) → a ≡ b
ok-injective a b h = cc

pub refused_lem :
    {E : Type 0} (b : Bool) (e : E) (u : Unit {0}) → fail_if (not b) e ≡ ok u → b ≡ true
refused_lem true e u h = refl
refused_lem false e u h = absurd (cc)

pub ok_or-eq-ok : {E A : Type 0} (o : Option A) (e : E) (a : A) → ok_or o e ≡ ok a → o ≡ some a
ok_or-eq-ok none e a h = absurd (cc)
ok_or-eq-ok (some b) e a h = cc

-- A lockfile that is accepted for a manifest.
abbrev pub IsAccepted : Manifest → Lockfile → Type 0
IsAccepted m lockfile =
    (lockfile.version ≡ 1)
    × (lockfile.manifest_fingerprint ≡ some (manifest_dependency_fingerprint m))
    × All HasRoot lockfile.packages

resolve_lockfile_same :
    (root : Text) (m : Manifest) (given lockfile : Lockfile)
    → resolve_lockfile root m (some given) ≡ ok lockfile
    → given ≡ lockfile
unfolding resolve_lockfile validate_lockfile_import_roots
resolve_lockfile_same root m given lockfile h =
    ground
      (arith, ok_unless-eq-ok (concat_map (import_root_missing root) given.packages) given lockfile)

pub resolve_lockfile-IsAccepted :
    (root : Text) (m : Manifest) (found : Option Lockfile) (lockfile : Lockfile)
    → resolve_lockfile root m found ≡ ok lockfile
    → IsAccepted m lockfile
unfolding resolve_lockfile
resolve_lockfile-IsAccepted root m none lockfile h = ground arith
resolve_lockfile-IsAccepted root m (some given) lockfile h =
    let e = resolve_lockfile_same root m given lockfile h in
    (resolve_lockfile_iff root m lockfile).0
      (subst (λ l. resolve_lockfile root m (some l) ≡ ok lockfile) e h)

-- The packages of the lockfile are those of the file, if there are any.
pub resolve_lockfile-cases :
    (root : Text) (m : Manifest) (found : Option Lockfile) (lockfile : Lockfile)
    → resolve_lockfile root m found ≡ ok lockfile
    → (found ≡ some lockfile) ⊎ (lockfile.packages ≡ [])
unfolding resolve_lockfile
resolve_lockfile-cases root m none lockfile h = inr (ground arith)
resolve_lockfile-cases root m (some given) lockfile h =
    inl (ap some (resolve_lockfile_same root m given lockfile h))

-- The bin of the options, by its name or its flow, or the default entry.
abbrev pub IsSelected : Manifest → Option Text → Option BinTarget → Type 0
IsSelected m none bin = bin ≡ default_entry m
IsSelected m (some selected) none = ⊥
IsSelected m (some selected) (some bin) =
    Memᴰ bin m.bins × ((bin.name ≡ selected) ⊎ (bin.flow ≡ selected))

find-some :
    {A : Type 0} (p : A → Bool) (xs : List A) (x : A)
    → find p xs ≡ some x
    → Memᴰ x xs × (p x ≡ true)
find-some p [] x h = absurd (cc)
find-some p (y ∷ ys) x h = elim (Bool-cases (p y)) [
  | inl e ↦ (
    MemD.head (sym (some-injective y x (rw e at h))),
    subst (λ z. p z ≡ true) (some-injective y x (rw e at h)) e,
  )
  | inr e ↦ let (m, k) = find-some p ys x (rw e at h) in (MemD.tail m, k)
]

pub select_bin-IsSelected :
    (m : Manifest) (selected : Option Text) (bin : Option BinTarget)
    → select_bin m selected ≡ ok bin
    → IsSelected m selected bin
unfolding select_bin
select_bin-IsSelected m none bin h = cc
select_bin-IsSelected m (some selected) bin h =
    chosen (find (λ b. same_text b.name selected || same_text b.flow selected) m.bins) refl bin h
  where
    chosen :
        (found : Option BinTarget)
        → find (λ b. same_text b.name selected || same_text b.flow selected) m.bins ≡ found
        → (bin : Option BinTarget) → selected_bin selected found ≡ ok bin
        → IsSelected m (some selected) bin
    chosen none e bin h = absurd (cc)
    chosen (some b) e none h = absurd (cc)
    chosen (some b) e (some bin) h =
        let same : b ≡ bin = cc in
        let (mem, k) = find-some _ m.bins b e in
        subst (λ (c : BinTarget). Memᴰ c m.bins × ((c.name ≡ selected) ⊎ (c.flow ≡ selected))) same
          (mem, ground (arith, same_text_iff b.name selected, same_text_iff b.flow selected))
