-- ===== src/Sched/Tests.antt =====
-- A round of the scheduler in a ring of four processes.
use airix.Prelude.{ℕ, ◌≡◌, refl, subst, true, some, [], ◌∷◌, arith, ◌==◌, if◌then◌else◌}
use mathlib.Core.Option.{some-injective}
use airix.Pmm.Cover.{memb}
use airix.Bio.{proc_state_running, proc_state_io, proc_state_dead}
use airix.Sched.{Sched, sched_initialize, sched_add, scheduler}
use airix.Sched.Pick.{Distinct, Left}
use airix.Sched.Round.{scheduler_lem}

-- Process 2 is current and sleeps, 3 is dead, 4 sleeps and 1 may run.
abbrev four : Sched
four = record {
  procs = 1 ∷ 2 ∷ 3 ∷ 4 ∷ [];
  state =
      λ p. if p == 1 then proc_state_running else if p == 3 then proc_state_dead else proc_state_io;
  current_proc = some 2;
  freed = [];
}

four-Distinct : Distinct four.procs
four-Distinct y = ground arith

scheduler_lem_example :
    (q : ℕ) × (s' : Sched) × (scheduler 9 four ≡ some (q, s'))
    × (s'.current_proc ≡ some q)
    × (four.state q ≡ proc_state_running)
    × (memb q s'.procs ≡ true)
    × Left four s'
unfolding memb
scheduler_lem_example =
    scheduler_lem 9 1 four four-Distinct
      (λ c e. subst (λ k. memb k four.procs ≡ true) (some-injective 2 c e) refl) refl refl
      (omega arith)

ring_built : (sched_add 1 (sched_add 2 (sched_initialize four))).procs ≡ 1 ∷ 2 ∷ []
unfolding sched_add sched_initialize
ring_built = refl
