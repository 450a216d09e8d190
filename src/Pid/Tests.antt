-- ===== src/Pid/Tests.antt =====
-- Runs of the process ids, and their theorems at a map with the first eight in use.
use airix.Prelude.{
  ℕ, ◌+◌, ◌%◌, ◌<◌, ◌≡◌, refl, ◌⊎◌, true, false, none, some, arith, ◌==◌, if◌then◌else◌,
}
use airix.Pid.{Pids, is_used, alloc_rounds, alloc_pid, free_pid}
use airix.Pid.Alloc.{Turns, alloc_pid_lem, free_pid-Turns}

abbrev eight_used : Pids
eight_used = record { pid_map = λ k. if k == 0 then 255 else 0; pid_gen = 6 }

-- The generator passes the two that are in use.
gives_eight : (alloc_pid eight_used).0 ≡ some 8
unfolding alloc_pid alloc_rounds is_used
gives_eight = refl

alloc_pid_lem_example :
    (((alloc_pid eight_used).0 ≡ none)
      × ((p : ℕ) → p < 1024 → is_used p eight_used ≡ true)
      × ((alloc_pid eight_used).1.pid_map ≡ eight_used.pid_map))
    ⊎ ((p : ℕ) × ((alloc_pid eight_used).0 ≡ some p)
        × (p < 1024)
        × (is_used p eight_used ≡ false)
        × Turns p true eight_used (alloc_pid eight_used).1
        × ((alloc_pid eight_used).1.pid_gen ≡ (p + 1) % 1024))
alloc_pid_lem_example = alloc_pid_lem eight_used (omega arith)

free_pid-Turns_example : Turns 3 false eight_used (free_pid 3 eight_used)
free_pid-Turns_example = free_pid-Turns 3 eight_used
