-- ===== src/FileLock/Attempts.antt =====
-- The loop of an acquirer ends whatever the others do, and takes a lock that nobody has.
use etas.Base.{
  ℕ, zero, suc, ◌+◌, ◌*◌, ◌<◌, ◌≤◌, Option, none, some, ◌≡◌, refl, arith, List, [], ◌∷◌, length,
}
use etas.FileLock.{
  Disk, lock_retry_count, Phase, idle, trying, opened, locked, writing, held, removing, closing,
  timed_out, failed, advance,
}

-- The accesses that the loop may still make.
abbrev pub accesses : Phase → ℕ
accesses (trying rounds) = 3 * rounds + 1
accesses (opened rounds inode) = 3 * rounds + 3
accesses (locked rounds inode) = 3 * rounds + 2
accesses _ = 0

accesses-advance :
    (who : ℕ) (d : Disk) (p : Phase) → 0 < accesses p → accesses (advance who d p).1 < accesses p
unfolding advance
accesses-advance who d idle h = absurd (omega arith)
accesses-advance who d (trying zero) h = omega arith
accesses-advance who d (trying (suc n)) h = ground arith
accesses-advance who d (opened n x) h = ground arith
accesses-advance who d (locked n x) h = ground arith
accesses-advance who d (writing x) h = absurd (omega arith)
accesses-advance who d (held x) h = absurd (omega arith)
accesses-advance who d (removing x) h = absurd (omega arith)
accesses-advance who d (closing x) h = absurd (omega arith)
accesses-advance who d timed_out h = absurd (omega arith)
accesses-advance who d failed h = absurd (omega arith)

-- `acquire_platform` on what the disk is at each of its accesses, while the loop runs.
unfoldable pub acquire : ℕ → List Disk → Phase → Phase
acquire who [] p = p
acquire who (d ∷ disks) p = elim (accesses p) [
  | zero ↦ p
  | suc n ↦ acquire who disks (advance who d p).1
]

acquire_done :
    (who : ℕ) (disks : List Disk) (p : Phase)
    → accesses p ≤ length disks
    → accesses (acquire who disks p) ≡ 0
unfolding acquire
acquire_done who [] p h = omega arith
acquire_done who (d ∷ disks) p h =
    ground (arith, accesses-advance who d p, acquire_done who disks (advance who d p).1)

-- From the start of `acquire`, 1501 accesses are enough for the loop to end, whatever other acquirers
-- do to the disk in between.
pub acquire_ends :
    (who : ℕ) (disks : List Disk)
    → length disks ≡ 1501
    → accesses (acquire who disks (trying lock_retry_count)) ≡ 0
acquire_ends who disks h = acquire_done who disks (trying lock_retry_count) (omega (arith))

abbrev pub run_alone : ℕ → ℕ → Disk × Phase → Disk × Phase
run_alone who zero r = r
run_alone who (suc n) r = run_alone who n (advance who r.0 r.1)

abbrev pub Acquired : ℕ → Disk × Phase → Type 0
Acquired who r =
    (inode : ℕ) × (r.1 ≡ held inode) × (r.0.path ≡ some inode) × (r.0.owner inode ≡ some who)

free_lem :
    (who rounds next : ℕ) (owner : ℕ → Option ℕ) (path : Option ℕ)
    → owner next ≡ none
    → ((inode : ℕ) → path ≡ some inode → owner inode ≡ none)
    → Acquired who
        (run_alone who 4 (record { path = path; next = next; owner = owner }, trying (suc rounds)))
unfolding advance
free_lem who rounds next owner none fresh free = (next, ground arith, ground arith, ground arith)
free_lem who rounds next owner (some x) fresh free =
    let e = free x refl in (x, ground arith, ground arith, ground arith)

-- An acquirer that nobody disturbs has the lock after four accesses, if no file is at the path, or if
-- nobody has the advisory lock on the file at the path: a lock file that a process left behind when it
-- ended is no obstacle.
pub acquire_free :
    (who rounds : ℕ) (d : Disk)
    → d.owner d.next ≡ none
    → ((inode : ℕ) → d.path ≡ some inode → d.owner inode ≡ none)
    → Acquired who (run_alone who 4 (d, trying (suc rounds)))
acquire_free who rounds d fresh free = free_lem who rounds d.next d.owner d.path fresh free
