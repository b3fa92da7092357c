-- ===== src/FileLock/Refines.antt =====
-- The lock that `acquire` and `drop` promise to a caller, free or in the hand of one acquirer, and that
-- a run of crates/etas_package/src/file_lock.rs is a run of it.
use etas.Base.{
  ℕ, Option, none, some, Bool, true, false, ◌==◌, ◌≡◌, refl, sym, arith, ==_iff, inl, inr,
  Bool-cases,
}
use mathlib.Core.Path.{subst}
use etas.FileLock.{
  Disk, Phase, System, moved, Step, step, failure, Reach, start, later, advance, fail_access,
}
use etas.FileLock.Exclusion.{holds, mutual_exclusion}

-- A step of one acquirer: it takes the free lock, it gives back its own lock, or the lock stays as it is.
pub data LockStep (who : ℕ) : Option ℕ → Option ℕ → Type 0 where
  wait : (owner : Option ℕ) → LockStep who owner owner
  take : LockStep who none (some who)
  give : LockStep who (some who) none

abbrev owns : ℕ → Option ℕ → Bool
owns who none = false
owns who (some i) = i == who

-- The abstract lock has the owner, and no other acquirer is in a phase with the lock.
abbrev pub HasOwner : System → Option ℕ → Type 0
HasOwner s owner = (i : ℕ) → holds (s.phase i) ≡ owns i owner

abbrev pub actor : {s t : System} → Step s t → ℕ
actor (step i) = i
actor (failure i) = i

-- A run of the abstract lock that ends with the owner, whose steps are made by the acquirers of the run,
-- in its order, and which has an owner exactly as the system has one after every step.
unfoldable pub Follows :
    {path : Option ℕ} {next : ℕ} {s : System} → Reach path next s → Option ℕ → Type 0
Follows {s} start owner = (owner ≡ none) × HasOwner s owner
Follows {s} (later r st) owner =
    (before : Option ℕ) × Follows r before × LockStep (actor st) before owner × HasOwner s owner

-- What an acquirer does to its own phase is a step of the abstract lock.
moved_lem :
    (s : System) (i : ℕ) (r : Disk × Phase) (owner : Option ℕ)
    → HasOwner s owner
    → ((j : ℕ) → owner ≡ some j → holds r.1 ≡ true → i ≡ j)
    → (after : Option ℕ) × LockStep i owner after × HasOwner (moved s i r) after
moved_lem s i r none h only = elim (Bool-cases (holds r.1)) [
  | inl e ↦ (some i, take, λ k. ground (arith, h k))
  | inr e ↦ (none, wait none, λ k. ground (arith, h k))
]
moved_lem s i r (some j) h only = elim (Bool-cases (holds r.1)) [
  | inl e ↦ (some j, wait (some j), λ k. ground (arith, h k, only j refl e))
  | inr e ↦ elim (Bool-cases (j == i)) [
    | inl q ↦ (
      none,
      subst (λ x. LockStep i (some x) none) (sym ((==_iff j i).0 q)) give,
      λ k. ground (arith, h k),
    )
    | inr q ↦ (some j, wait (some j), λ k. ground (arith, h k))
  ]
]

Follows-HasOwner :
    {path : Option ℕ} {next : ℕ} {s : System} (r : Reach path next s) (owner : Option ℕ)
    → Follows r owner
    → HasOwner s owner
unfolding Follows
Follows-HasOwner start owner (o, h) = h
Follows-HasOwner (later r st) owner (o, f, l, h) = h

-- An acquirer that enters a phase with the lock is the owner, if there is one.
entered_lem :
    {path : Option ℕ} {next : ℕ} (s : System) (i : ℕ) (r : Disk × Phase) (owner : Option ℕ)
    → Reach path next (moved s i r)
    → HasOwner s owner
    → (j : ℕ) → owner ≡ some j
    → holds r.1 ≡ true
    → i ≡ j
entered_lem s i r owner reached h j o e = elim (Bool-cases (i == j)) [
  | inl q ↦ (==_iff i j).0 q
  | inr q ↦ (mutual_exclusion i j reached (ground arith) (ground (arith, h j))).0
]

Step-Follows :
    {path : Option ℕ} {next : ℕ} {s t : System} (r : Reach path next s) (st : Step s t)
    → ((owner : Option ℕ) × Follows r owner)
    → (owner : Option ℕ) × Follows (later r st) owner
unfolding Follows
Step-Follows {s} r (step i) (o, f) =
    let h = Follows-HasOwner r o f in
    let result = advance i s.disk (s.phase i) in
    let (after, l, k) = moved_lem s i result o h (entered_lem s i result o (later r (step i)) h) in
    (after, (o, f, l, k))
Step-Follows {s} r (failure i) (o, f) =
    let h = Follows-HasOwner r o f in
    let result = fail_access s.disk (s.phase i) in
    let (after, l, k) =
      moved_lem s i result o h (entered_lem s i result o (later r (failure i)) h) in
    (after, (o, f, l, k))

-- A run of any number of acquirers, their failures included, is a run of the abstract lock: the lock is
-- free at first, an acquirer takes it only when it is free, nobody but the owner gives it back, and after
-- every step the acquirer in the phases with the lock is the owner.
pub Reach-Follows :
    {path : Option ℕ} {next : ℕ} {s : System} (r : Reach path next s)
    → (owner : Option ℕ) × Follows r owner
unfolding Follows
Reach-Follows start = (none, (refl, λ i. refl))
Reach-Follows (later r st) = Step-Follows r st (Reach-Follows r)
