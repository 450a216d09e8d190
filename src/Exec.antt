-- ===== src/Exec.antt =====
-- kernel/process.c: programs started and processes cloned, fork of kernel/scheduler.c, and the process
-- of the kernel tasks, kernel/ktask.c. `none` is a panic.
pub mod Fork
pub mod Tests
use airix.Prelude.{
  ℕ, zero, suc, ◌+◌, ◌-◌, ◌^◌, Bool, true, false, not, ◌&&◌, ◌||◌, Option, none, some, ltb, leb,
  ◌==◌, if◌then◌else◌, update, ◌>>=◌,
}
use airix.Bio.{proc_state_running}
use airix.Vmm.{
  cast_p2v_or_null, vmm_alloc_vaddr_space, vmm_alloc_page_table, vmm_get_page_table_index,
  vmm_map_page_table_index, vmm_get_page_index, vmm_map_page_index,
}
use airix.Sched.{sched_add}
use airix.Paging.{pg_copy_kernel_space}
use airix.Proc.{
  Procs, vm_of, with_vm, with_proc, plus32, alloc_page_address, proc_alloc, proc_free,
  alloc_proc_stacks,
}
use airix.Elf.{elf_load_program}

-- One page more of a process.
abbrev pub count_page : ℕ → Procs → Procs
count_page p s = with_proc p (record (s.proc p) { mem_pages = plus32 (s.proc p).mem_pages 1 }) s

-- `pg_copy_kernel_space` into the space of a process.
pub copy_kernel_space : ℕ → Procs → Procs
copy_kernel_space p s =
    let r =
      pg_copy_kernel_space (s.proc p).page_dir
        (record { pg_dir = s.pg_dir; vm = vm_of s; cr3 = 0 }) in
    with_vm r.vm s

-- The directory of a process, with the answer whether there is one.
pub alloc_space : ℕ → Procs → Option (Bool × Procs)
alloc_space p s = vmm_alloc_vaddr_space (vm_of s) >>= λ r.
    let s' = with_proc p (record (s.proc p) { page_dir = r.0 }) (with_vm r.1 s) in
    if r.0 == 0 then some (false, s') else some (true, count_page p s')

-- A process that starts to run.
abbrev pub start_running : ℕ → Procs → Procs
start_running p s = record s {
  sched = sched_add p (record s.sched { state = update s.sched.state p proc_state_running });
}

pub init_proc_from_elf : ℕ → ℕ → (ℕ → ℕ) → ℕ → Procs → Option (Bool × Procs)
init_proc_from_elf fuel p elf size s = alloc_space p s >>= λ a.
    if a.0
    then (elf_load_program fuel elf size p a.1 >>= λ l.
        if l.0
        then (alloc_proc_stacks p l.1 >>= λ k.
            if k.0 then some (true, copy_kernel_space p k.1) else some (false, k.1))
        else some (false, l.1))
    else some (false, a.1)

pub proc_exec : ℕ → (ℕ → ℕ) → ℕ → Procs → Option (Bool × Procs)
proc_exec fuel elf size s = proc_alloc s >>= λ r.
    if r.0 == 0
    then some (false, r.1)
    else (init_proc_from_elf fuel r.0 elf size r.1 >>= λ i.
        if i.0
        then some (true, start_running r.0 i.1)
        else (proc_free r.0 i.1 >>= λ s'. some (false, s')))

-- A page of memory copied to another, both by their physical addresses.
abbrev pub copy_page : ℕ → ℕ → (ℕ → ℕ) → ℕ → ℕ
copy_page dest from memory a =
    if leb dest a && ltb a (dest + 4096) then memory (from + (a - dest)) else memory a

-- The entries of a table from `pte` on, copied with their pages into a table of the clone.
pub clone_entries : ℕ → ℕ → ℕ → ℕ → ℕ → Procs → Option (Bool × Procs)
clone_entries zero clone clone_tab page_tab pte s = some (true, s)
clone_entries (suc n) clone clone_tab page_tab pte s =
    let (page, page_flag) = vmm_get_page_index page_tab pte (vm_of s) in
    if page == 0
    then clone_entries n clone clone_tab page_tab (pte + 1) s
    else (alloc_page_address s >>= λ r.
        let s' = record r.1 { memory = copy_page r.0 page r.1.memory } in
        if r.0 == 0
        then some (false, r.1)
        else clone_entries n clone clone_tab page_tab (pte + 1) (
            count_page clone
              (with_vm (vmm_map_page_index clone_tab pte r.0 page_flag (vm_of s')) s')))

-- The tables of a directory from `pde` on.
pub clone_tables : ℕ → ℕ → ℕ → ℕ → Procs → Option (Bool × Procs)
clone_tables zero clone page_dir pde s = some (true, s)
clone_tables (suc n) clone page_dir pde s =
    let (page_tab, tab_flag) = vmm_get_page_table_index page_dir pde (vm_of s) in
    if page_tab == 0
    then clone_tables n clone page_dir (pde + 1) s
    else (vmm_alloc_page_table (vm_of s) >>= λ r.
        let s' = with_vm r.1 s in
        let mapped =
          with_vm (vmm_map_page_table_index (s'.proc clone).page_dir pde r.0 tab_flag (vm_of s'))
            s' in
        if r.0 == 0
        then some (false, s')
        else (clone_entries 1024 clone r.0 page_tab 0 (count_page clone mapped) >>= λ e.
            if e.0 then clone_tables n clone page_dir (pde + 1) e.1 else some (false, e.1)))

pub init_proc_from_proc : ℕ → ℕ → Procs → Option (Bool × Procs)
init_proc_from_proc clone p s = alloc_space clone s >>= λ a.
    if a.0
    then (clone_tables 768 clone (a.1.proc p).page_dir 0 a.1 >>= λ t.
        if t.0 then some (true, copy_kernel_space clone t.1) else some (false, t.1))
    else some (false, a.1)

-- The clone, 0 for a null pointer.
pub proc_clone : ℕ → Procs → Option (ℕ × Procs)
proc_clone p s = proc_alloc s >>= λ r.
    let clone = r.0 in
    if clone == 0
    then some (0, r.1)
    else (init_proc_from_proc clone p r.1 >>= λ i.
        let s' = i.1 in
        let proc = s'.proc p in
        if i.0
        then (if (s'.proc clone).mem_pages == proc.mem_pages
            then some (
              clone,
              start_running clone (
                  with_proc clone
                    (record (s'.proc clone) {
                      context = proc.context;
                      entry = proc.entry;
                      kernel_stack = proc.kernel_stack;
                      user_stack = proc.user_stack;
                      parent = p;
                    })
                    s'),
            )
            else none)
        else (proc_free clone s' >>= λ s''. some (0, s'')))

-- The number that a system call returns for a pid.
pub retvalue : Option ℕ → ℕ
retvalue none = 2 ^ 32 - 1
retvalue (some pid) = pid

pub sched_task_fork : ℕ → Procs → Option Procs
sched_task_fork parent s = proc_clone parent s >>= λ r.
    let child = r.0 in
    let s' = r.1 in
    if child == 0
    then some (with_proc parent (record (s'.proc parent) { syscall_retvalue = 2 ^ 32 - 1 }) s')
    else (let pid = retvalue (s'.proc child).pid in
        let t = with_proc parent (record (s'.proc parent) { syscall_retvalue = pid }) s' in
        some (with_proc child (record (t.proc child) { syscall_retvalue = 0 }) t))

-- `ktask_initialize`; the address of ktask_main is an argument.
pub ktask_initialize : ℕ → Procs → Option Procs
ktask_initialize ktask_main s = proc_alloc s >>= λ r.
    let p = r.0 in
    if (p == 0) || not (retvalue (r.1.proc p).pid == 0)
    then none
    else (alloc_page_address r.1 >>= λ k.
        let stack = cast_p2v_or_null k.0 in
        if stack == 0
        then none
        else (vmm_alloc_vaddr_space (vm_of k.1) >>= λ d.
            let proc = record (k.1.proc p) {
              kernel_stack = plus32 stack 4096;
              page_dir = d.0;
              entry = ktask_main;
            } in
            let s' = with_proc p proc (with_vm d.1 k.1) in
            if d.0 == 0
            then none
            else (let ready = copy_kernel_space p s' in some (start_running p ready))))
