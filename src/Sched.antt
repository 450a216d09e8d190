-- ===== src/Sched.antt =====
-- kernel/scheduler.c: the ring of processes and the search for the next one to run. The ring is the
-- list of the processes from `list_head.next` on; a pointer into it is a process or `none`, which is
-- `list_head` itself. The processor's registers and the switch of stacks are not modelled.
pub mod Ring
pub mod Pick
pub mod Round
pub mod Tests
use airix.Prelude.{
  ℕ, zero, suc, ◌+◌, ◌-◌, ◌*◌, ◌/◌, ◌%◌, ◌^◌, ◌≤◌, ◌<◌, min, ◌≡◌, refl, sym, ap, subst, ◌∙◌,
  fun_ext, ◌≢◌, ◌↔◌, ◌⊎◌, inl, inr, Bool, true, false, not, ◌&&◌, ◌||◌, Option, none, some, List,
  [], ◌∷◌, ◌++◌, map, reverse, arith, dec_lt, dec_le, ℕ_discrete, ltb, leb, ◌==◌, if◌then◌else◌,
  ltb→lt, lt→ltb, leb→le, le→leb, nle→leb, ==_iff, Bool-cases, Option-cases, tests, all_below,
  all_below_sound, length, get_elem?, get_or, set, take, drop, replicate, length-append, length-set,
  get_or-set_self, get_or-set_ne, length-take, length-replicate, test_bit, set_bit, clear_bit,
  update, update_self, update_ne, ◌>>=◌, >>=-eq-some, subst_some, nil_of_length, List-cases, Holds,
  Holds-some, Holds-bind, Holds-if,
}
use airix.Slab.{unlink}
use airix.Bio.{ProcState, proc_state_running, proc_state_io, proc_state_dead}

-- `freed` are the processes that `proc_free` has been called with, newest first.
pub record Sched : Type 0 where
  pub procs : List ℕ
  pub state : ℕ → ProcState
  pub current_proc : Option ℕ
  pub freed : List ℕ

pub sched_initialize : Sched → Sched
sched_initialize s = record s { procs = [] }

unfoldable pub sched_add : ℕ → Sched → Sched
sched_add proc s = record s { procs = proc ∷ s.procs }

pub sched_remove : ℕ → Sched → Sched
sched_remove proc s = record s { procs = unlink proc s.procs }

-- `list_head.next`.
pub first : List ℕ → Option ℕ
first [] = none
first (x ∷ xs) = some x

-- `proc->next`.
pub after : ℕ → List ℕ → Option ℕ
after proc [] = none
after proc (x ∷ xs) = if x == proc then first xs else after proc xs

-- The `while` of `scheduler`, on fuel: `none` where it does not end.
pub find_runnable : ℕ → Option ℕ → Sched → Option (ℕ × Sched)
find_runnable zero at s = none
find_runnable (suc fuel) none s = find_runnable fuel (first s.procs) s
find_runnable (suc fuel) (some proc) s = elim (s.state proc) [
  | proc_state_running ↦ some (proc, s)
  | proc_state_dead ↦
      find_runnable fuel (after proc s.procs)
        (record (sched_remove proc s) { freed = proc ∷ s.freed })
  | proc_state_io ↦ find_runnable fuel (after proc s.procs) s
]

-- `current_proc ? current_proc->next : list_head.next`.
abbrev pub next_node : Option ℕ → List ℕ → Option ℕ
next_node none procs = first procs
next_node (some proc) procs = after proc procs

-- A round of `scheduler` up to the switch to the process.
pub scheduler : ℕ → Sched → Option (ℕ × Sched)
scheduler fuel s = find_runnable fuel (next_node s.current_proc s.procs) s >>= λ r.
    some (r.0, record r.1 { current_proc = some r.0 })
