-- ===== src/FileLock/Invariant.antt =====
-- What every acquirer of a file lock may rely on, kept by its own accesses and by those of the others.
use etas.Base.{
  ℕ, zero, suc, Option, some, ◌==◌, ◌≡◌, ◌≢◌, refl, ◌∙◌, arith, ==_iff, inl, inr, Bool-cases,
}
use mathlib.Core.Path.{subst}
use etas.FileLock.{
  Disk, Phase, idle, trying, opened, locked, writing, held, removing, closing, timed_out, failed,
  advance, fail_access, System, moved, Step, step, failure, Reach, start, later,
}

-- Who has the advisory lock from the phase on, and when the path must still be the owner's file.
abbrev pub IsSound : Disk → ℕ → Phase → Type 0
IsSound d who (locked rounds inode) = d.owner inode ≡ some who
IsSound d who (writing inode) = (d.owner inode ≡ some who) × (d.path ≡ some inode)
IsSound d who (held inode) = (d.owner inode ≡ some who) × (d.path ≡ some inode)
IsSound d who (removing inode) = (d.owner inode ≡ some who) × (d.path ≡ some inode)
IsSound d who (closing inode) = d.owner inode ≡ some who
IsSound d who _ = Unit {0}

advance-own :
    (i : ℕ) (d : Disk) (p : Phase) → IsSound d i p → IsSound (advance i d p).0 i (advance i d p).1
unfolding advance
advance-own i d idle h = tt
advance-own i d (trying zero) h = tt
advance-own i d (trying (suc n)) h = ground arith
advance-own i d (opened n k) h = ground arith
advance-own i d (locked n k) h = ground arith
advance-own i d (writing k) h = h
advance-own i d (held k) h = ground arith
advance-own i d (removing k) h = ground arith
advance-own i d (closing k) h = tt
advance-own i d timed_out h = tt
advance-own i d failed h = tt

-- Another acquirer's lock stays, and its file at the path.
advance_owner :
    (i j inode : ℕ) (d : Disk) (p : Phase)
    → i ≢ j
    → IsSound d i p
    → d.owner inode ≡ some j
    → (advance i d p).0.owner inode ≡ some j
unfolding advance
advance_owner i j inode d idle n h k = k
advance_owner i j inode d (trying zero) n h k = k
advance_owner i j inode d (trying (suc _)) n h k = ground arith
advance_owner i j inode d (opened _ x) n h k = ground arith
advance_owner i j inode d (locked _ x) n h k = ground arith
advance_owner i j inode d (writing x) n h k = k
advance_owner i j inode d (held x) n h k = ground arith
advance_owner i j inode d (removing x) n h k = k
advance_owner i j inode d (closing x) n h k = ground arith
advance_owner i j inode d timed_out n h k = k
advance_owner i j inode d failed n h k = k

advance_path :
    (i j inode : ℕ) (d : Disk) (p : Phase)
    → i ≢ j
    → IsSound d i p
    → d.owner inode ≡ some j
    → d.path ≡ some inode
    → (advance i d p).0.path ≡ some inode
unfolding advance
advance_path i j inode d idle n h k e = e
advance_path i j inode d (trying zero) n h k e = e
advance_path i j inode d (trying (suc _)) n h k e = ground arith
advance_path i j inode d (opened _ x) n h k e = ground arith
advance_path i j inode d (locked _ x) n h k e = ground arith
advance_path i j inode d (writing x) n h k e = e
advance_path i j inode d (held x) n h k e = ground arith
advance_path i j inode d (removing x) n h k e = ground arith
advance_path i j inode d (closing x) n h k e = ground arith
advance_path i j inode d timed_out n h k e = e
advance_path i j inode d failed n h k e = e

fail-own : (i : ℕ) (d : Disk) (p : Phase) → IsSound (fail_access d p).0 i (fail_access d p).1
unfolding fail_access
fail-own i d idle = tt
fail-own i d (trying _) = tt
fail-own i d (opened _ _) = tt
fail-own i d (locked _ x) = tt
fail-own i d (writing x) = tt
fail-own i d (held x) = tt
fail-own i d (removing x) = tt
fail-own i d (closing x) = tt
fail-own i d timed_out = tt
fail-own i d failed = tt

fail_owner :
    (i j inode : ℕ) (d : Disk) (p : Phase)
    → i ≢ j
    → IsSound d i p
    → d.owner inode ≡ some j
    → (fail_access d p).0.owner inode ≡ some j
unfolding fail_access
fail_owner i j inode d idle n h k = k
fail_owner i j inode d (trying _) n h k = k
fail_owner i j inode d (opened _ x) n h k = k
fail_owner i j inode d (locked _ x) n h k = ground arith
fail_owner i j inode d (writing x) n h k = ground arith
fail_owner i j inode d (held x) n h k = ground arith
fail_owner i j inode d (removing x) n h k = ground arith
fail_owner i j inode d (closing x) n h k = ground arith
fail_owner i j inode d timed_out n h k = k
fail_owner i j inode d failed n h k = k

fail_path : (d : Disk) (p : Phase) → (fail_access d p).0.path ≡ d.path
unfolding fail_access
fail_path d idle = refl
fail_path d (trying _) = refl
fail_path d (opened _ x) = refl
fail_path d (locked _ x) = refl
fail_path d (writing x) = refl
fail_path d (held x) = refl
fail_path d (removing x) = refl
fail_path d (closing x) = refl
fail_path d timed_out = refl
fail_path d failed = refl

kept-IsSound :
    (d d' : Disk) (j : ℕ) (q : Phase)
    → ((inode : ℕ) → d.owner inode ≡ some j → d'.owner inode ≡ some j)
    → ((inode : ℕ) → d.owner inode ≡ some j → d.path ≡ some inode → d'.path ≡ some inode)
    → IsSound d j q
    → IsSound d' j q
kept-IsSound d d' j idle o p h = tt
kept-IsSound d d' j (trying _) o p h = tt
kept-IsSound d d' j (opened _ x) o p h = tt
kept-IsSound d d' j (locked _ x) o p h = o x h
kept-IsSound d d' j (writing x) o p (h, k) = (o x h, p x h k)
kept-IsSound d d' j (held x) o p (h, k) = (o x h, p x h k)
kept-IsSound d d' j (removing x) o p (h, k) = (o x h, p x h k)
kept-IsSound d d' j (closing x) o p h = o x h
kept-IsSound d d' j timed_out o p h = tt
kept-IsSound d d' j failed o p h = tt

abbrev pub Inv : System → Type 0
Inv s = (i : ℕ) → IsSound s.disk i (s.phase i)

moved-Inv :
    (s : System) (i : ℕ) (r : Disk × Phase)
    → IsSound r.0 i r.1
    → ((j : ℕ) → i ≢ j → IsSound r.0 j (s.phase j))
    → Inv (moved s i r)
moved-Inv s i r own other j = elim (Bool-cases (i == j)) [
  | inl e ↦ rw e (subst (λ k. IsSound r.0 k r.1) ((==_iff i j).0 e) own)
  | inr e ↦ rw e (other j (λ q. absurd (ground arith)))
]

Step-Inv : {s t : System} → Step s t → Inv s → Inv t
Step-Inv {s} (step i) h =
    moved-Inv s i (advance i s.disk (s.phase i)) (advance-own i s.disk (s.phase i) (h i)) (λ j n.
      kept-IsSound s.disk (advance i s.disk (s.phase i)).0 j (s.phase j)
        (λ x k. advance_owner i j x s.disk (s.phase i) n (h i) k)
        (λ x k e. advance_path i j x s.disk (s.phase i) n (h i) k e) (h j))
Step-Inv {s} (failure i) h =
    moved-Inv s i (fail_access s.disk (s.phase i)) (fail-own i s.disk (s.phase i)) (λ j n.
      kept-IsSound s.disk (fail_access s.disk (s.phase i)).0 j (s.phase j)
        (λ x k. fail_owner i j x s.disk (s.phase i) n (h i) k)
        (λ x k e. fail_path s.disk (s.phase i) ∙ e) (h j))

pub Reach-Inv : {path : Option ℕ} {next : ℕ} {s : System} → Reach path next s → Inv s
Reach-Inv start = λ i. tt
Reach-Inv (later r st) = Step-Inv st (Reach-Inv r)
