-- ===== src/Proc/Tests.antt =====
-- The theorem on releasing a process, at one that has a directory without tables.
use airix.Prelude.{◌≡◌, refl, ◌≢◌, ◌⊎◌, none, some, [], ◌∷◌, arith, length}
use airix.Bio.{proc_state_running}
use airix.Vmm.Walk.{IsTree}
use airix.Axfs.Tests.{test_slabs}
use airix.Proc.{Procs, zero_process, proc_free, vm_of}
use airix.Proc.Release.{space_pages}
use airix.Proc.Free.{Emptied, proc_free_lem}

-- Every process has the same directory, of absent entries.
abbrev pub test_procs : Procs
test_procs = record {
  slabs = test_slabs;
  entries = λ t i. 2;
  memory = λ a. 0;
  pids = record { pid_map = λ i. 0; pid_gen = 0 };
  proc_cache = 5;
  proc = λ p. record zero_process { pid = some 3; page_dir = 0xC0005000; mem_pages = 1 };
  sched = record {
    procs = 4 ∷ [];
    state = λ p. proc_state_running;
    current_proc = some 4;
    freed = [];
  };
  pg_dir = 0xC0006000;
}

no_tables : IsTree 0xC0005000 (vm_of test_procs)
no_tables = record {
  own = λ i h there. absurd (there refl);
  once = λ i j h h' there e. absurd (there refl);
}

proc_free_lem_example :
    ((1 ≢ length (space_pages test_procs.entries 0xC0005000)) × (proc_free 4 test_procs ≡ none))
    ⊎ ((1 ≡ length (space_pages test_procs.entries 0xC0005000))
        × ((s' : Procs) × Emptied 4 (space_pages test_procs.entries 0xC0005000) test_procs s'))
proc_free_lem_example =
    proc_free_lem 4 test_procs (λ e. absurd (omega (arith, e))) no_tables (omega arith)
