-- ===== src/Examples/FileLocks.antt =====
-- Two acquirers of one package lock, and the theorems at states that they reach.
use etas.Base.{ℕ, Option, none, some, false, ◌≡◌, ◌≢◌, refl, List, [], ◌∷◌, replicate}
use mathlib.Core.List.{foldl}
use etas.FileLock.{Disk, lock_retry_count, trying, held, advance, System, step, Reach, start, later}
use etas.FileLock.Exclusion.{holds, mutual_exclusion, removes_own}
use etas.FileLock.Refines.{Follows, Reach-Follows}
use etas.FileLock.Attempts.{accesses, acquire, acquire_ends, Acquired, run_alone, acquire_free}

record Run (path : Option ℕ) (next : ℕ) : Type 0 where
  last : System
  reach : Reach path next last

turn : {path : Option ℕ} {next : ℕ} → Run path next → ℕ → Run path next
turn r i = record { last = _; reach = later r.reach (step i) }

run : (path : Option ℕ) (next : ℕ) → List ℕ → Run path next
unfolding turn
run path next = foldl turn (record { last = _; reach = start })

-- 1 opens the file before 0 has the lock, and waits.
abbrev taken : Run none 7
taken = run none 7 (0 ∷ 0 ∷ 1 ∷ 1 ∷ 0 ∷ 0 ∷ 1 ∷ 0 ∷ [])

-- 0 is about to remove the file that 1 has opened.
abbrev given_back : Run none 7
given_back = run none 7 (0 ∷ 0 ∷ 0 ∷ 0 ∷ 0 ∷ 1 ∷ 1 ∷ 0 ∷ [])

-- 1 gets the lock on the file that 0 has removed, sees that the path is another, and takes that.
retried :
    (run none 7 (0 ∷ 0 ∷ 0 ∷ 0 ∷ 0 ∷ 1 ∷ 1 ∷ 0 ∷ 0 ∷ 0 ∷ 1 ∷ 1 ∷ 1 ∷ 1 ∷ 1 ∷ 1 ∷ [])).last.phase 1
    ≡ held 8
unfolding run advance
retried = refl

mutual_exclusion_example :
    (◌≡◌ {A = ℕ} 0 0)
    × ((inode : ℕ) × (taken.last.disk.path ≡ some inode) × (taken.last.disk.owner inode ≡ some 0))
unfolding run advance
mutual_exclusion_example = mutual_exclusion 0 0 taken.reach refl refl

removes_own_example :
    (given_back.last.disk.path ≡ some 7)
    × (given_back.last.disk.owner 7 ≡ some 0)
    × ((j : ℕ) → 0 ≢ j → holds (given_back.last.phase j) ≡ false)
unfolding run advance
removes_own_example = removes_own 0 7 given_back.reach refl

Reach-Follows_example : (owner : Option ℕ) × Follows given_back.reach owner
Reach-Follows_example = Reach-Follows given_back.reach

abbrev fresh_disk : Disk
fresh_disk = record { path = none; next = 7; owner = λ _. none }

acquire_ends_example :
    accesses (acquire 0 (replicate 1501 fresh_disk) (trying lock_retry_count)) ≡ 0
acquire_ends_example = acquire_ends 0 (replicate 1501 fresh_disk) refl

acquire_free_example : Acquired 0 (run_alone 0 4 (fresh_disk, trying 1))
acquire_free_example = acquire_free 0 0 fresh_disk refl (λ inode e. refl)
