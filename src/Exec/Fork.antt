-- ===== src/Exec/Fork.antt =====
-- kernel/process.c and kernel/scheduler.c: what a fork leaves of the parent and the child.
use airix.Prelude.{ℕ, ◌≡◌, ◌≢◌, some, List, ◌∷◌}
use airix.Slab.{Slabs, slab_alloc}
use airix.Bio.{proc_state_running}
use airix.Proc.{Process, Procs, with_proc}
use airix.Exec.{retvalue, start_running}

-- A clone that runs, at the head of the ring, as a copy of its parent with as many pages.
pub record Cloned (parent clone : ℕ) (s : Procs) : Type 0 where
  pub some_clone : clone ≢ 0
  pub other : clone ≢ parent
  pub parent_of : (s.proc clone).parent ≡ parent
  pub context : (s.proc clone).context ≡ (s.proc parent).context
  pub entry : (s.proc clone).entry ≡ (s.proc parent).entry
  pub kernel_stack : (s.proc clone).kernel_stack ≡ (s.proc parent).kernel_stack
  pub user_stack : (s.proc clone).user_stack ≡ (s.proc parent).user_stack
  pub mem_pages : (s.proc clone).mem_pages ≡ (s.proc parent).mem_pages
  pub running : s.sched.state clone ≡ proc_state_running
  pub head : (rest : List ℕ) × (s.sched.procs ≡ clone ∷ rest)

-- The object of a new process is none of an old one.
abbrev pub IsNew : ℕ → Procs → Type 0
IsNew p s = (c : ℕ) (t : Slabs) → slab_alloc s.proc_cache s.slabs ≡ some (c, t) → c ≢ p

-- The last step of a clone.
abbrev cloned : ℕ → ℕ → Procs → Procs
cloned p clone s = start_running clone (
    with_proc clone
      (record (s.proc clone) {
        context = (s.proc p).context;
        entry = (s.proc p).entry;
        kernel_stack = (s.proc p).kernel_stack;
        user_stack = (s.proc p).user_stack;
        parent = p;
      })
      s)

-- The values that a system call returns play no part in being a clone.
abbrev returned : ℕ → Process → Process
returned value x = record x { syscall_retvalue = value }

-- A child whose call returns 0, and a parent whose call returns the child's pid.
abbrev pub Forked : ℕ → Procs → Type 0
Forked p s =
    (c : ℕ) × Cloned p c s
    × ((s.proc c).syscall_retvalue ≡ 0)
    × ((s.proc p).syscall_retvalue ≡ retvalue (s.proc c).pid)
