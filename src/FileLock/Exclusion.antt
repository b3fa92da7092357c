-- ===== src/FileLock/Exclusion.antt =====
-- No two acquirers have the lock at once, however their accesses interleave and fail.
use etas.Base.{ℕ, Option, some, Bool, true, false, ◌≡◌, ◌≢◌, sym, ap, ◌∙◌, inl, inr, Bool-cases}
use mathlib.Core.Path.{subst}
use mathlib.Core.Option.{some-injective}
use etas.FileLock.{
  Disk, Phase, idle, trying, opened, locked, writing, held, removing, closing, timed_out, failed,
  System, Reach,
}
use etas.FileLock.Invariant.{IsSound, Reach-Inv}

-- The phases in which an acquirer has the lock, or is about to remove the lock file.
abbrev pub holds : Phase → Bool
holds (writing inode) = true
holds (held inode) = true
holds (removing inode) = true
holds _ = false

holder_lem :
    (d : Disk) (i : ℕ) (p : Phase)
    → IsSound d i p
    → holds p ≡ true
    → (inode : ℕ) × (d.owner inode ≡ some i) × (d.path ≡ some inode)
holder_lem d i idle h e = absurd (cc)
holder_lem d i (trying _) h e = absurd (cc)
holder_lem d i (opened _ x) h e = absurd (cc)
holder_lem d i (locked _ x) h e = absurd (cc)
holder_lem d i (writing x) h e = (x, h.0, h.1)
holder_lem d i (held x) h e = (x, h.0, h.1)
holder_lem d i (removing x) h e = (x, h.0, h.1)
holder_lem d i (closing x) h e = absurd (cc)
holder_lem d i timed_out h e = absurd (cc)
holder_lem d i failed h e = absurd (cc)

-- However acquirers interleave at every access to the file system, fail, or end, no two of them have
-- the lock at once, and the one that has it owns the file at the path.
pub mutual_exclusion :
    {path : Option ℕ} {next : ℕ} {s : System} (i j : ℕ)
    → Reach path next s
    → holds (s.phase i) ≡ true
    → holds (s.phase j) ≡ true
    → (i ≡ j) × ((inode : ℕ) × (s.disk.path ≡ some inode) × (s.disk.owner inode ≡ some i))
mutual_exclusion {s} i j r hi hj =
    let (x, oi, pi) = holder_lem s.disk i (s.phase i) (Reach-Inv r i) hi in
    let (y, oj, pj) = holder_lem s.disk j (s.phase j) (Reach-Inv r j) hj in
    (same_owner x y oi pi oj pj, (x, pi, oi))
  where
    same_owner :
        (x y : ℕ)
        → s.disk.owner x ≡ some i
        → s.disk.path ≡ some x
        → s.disk.owner y ≡ some j
        → s.disk.path ≡ some y
        → i ≡ j
    same_owner x y oi pi oj pj =
        some-injective i j (sym oi ∙ ap s.disk.owner (some-injective x y (sym pi ∙ pj)) ∙ oj)

removing_lem :
    (d : Disk) (i : ℕ) (p : Phase) (inode : ℕ)
    → IsSound d i p
    → p ≡ removing inode
    → (d.owner inode ≡ some i) × (d.path ≡ some inode)
removing_lem d i p inode h e = subst (IsSound d i) e h

-- When an acquirer removes the file at the path, the file is its own, and no other has the lock: a lock
-- file of another owner is never removed.
pub removes_own :
    {path : Option ℕ} {next : ℕ} {s : System} (i inode : ℕ)
    → Reach path next s
    → s.phase i ≡ removing inode
    → (s.disk.path ≡ some inode)
      × (s.disk.owner inode ≡ some i)
      × ((j : ℕ) → i ≢ j → holds (s.phase j) ≡ false)
removes_own {s} i inode r e =
    let (o, p) = removing_lem s.disk i (s.phase i) inode (Reach-Inv r i) e in
    (
      p,
      o,
      λ j n. elim (Bool-cases (holds (s.phase j))) [
        | inl k ↦ absurd (n (mutual_exclusion i j r (ap holds e) k).0)
        | inr k ↦ k
      ],
    )
