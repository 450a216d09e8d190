-- ===== src/Proc.antt =====
-- kernel/process.c: processes and their address spaces. A process is known by its address in the slab
-- of `proc_cache`, 0 is a null pointer. Its state, that of `struct process`, is in the record of the
-- scheduler, which reads it from the time on when the process is in the ring. `none` is a panic.
pub mod Release
pub mod Free
pub mod Tests
use airix.Prelude.{
  ℕ, zero, suc, ◌+◌, ◌-◌, ◌*◌, ◌/◌, ◌%◌, ◌^◌, Bool, true, false, Option, none, some, ◌==◌,
  if◌then◌else◌, update, ◌>>=◌,
}
use airix.Pmm.{pmm_alloc_pages, pmm_free_pages}
use airix.Slab.{Slabs, slab_alloc, slab_free, slab_create_kmem_cache, kernel_base}
use airix.Bio.{proc_state_dead}
use airix.Vmm.{
  Vm, vmm_map, vmm_unmap_page_table_index, vmm_unmap_page_index, vmm_free_page_table,
  vmm_free_vaddr_space,
}
use airix.Pid.{Pids, alloc_pid, free_pid}
use airix.Sched.{Sched}

abbrev pub proc_kernel_stack : ℕ
proc_kernel_stack = kernel_base - 16 * 4096

abbrev pub proc_user_stack : ℕ
proc_user_stack = kernel_base - 1024 * 4096

-- `struct process`; no pid is -1.
pub record Process : Type 0 where
  pub pid : Option ℕ
  pub page_dir : ℕ
  pub context : ℕ
  pub entry : ℕ
  pub kernel_stack : ℕ
  pub user_stack : ℕ
  pub syscall_retvalue : ℕ
  pub mem_pages : ℕ
  pub status : ℕ
  pub parent : ℕ

-- The globals and the allocators below; `memory` is the physical memory by bytes, as far as it holds
-- pages of processes, `entries` as far as it holds directories and tables. `pg_dir` is the kernel's.
pub record Procs : Type 0 where
  pub slabs : Slabs
  pub entries : ℕ → ℕ → ℕ
  pub memory : ℕ → ℕ
  pub pids : Pids
  pub proc_cache : ℕ
  pub proc : ℕ → Process
  pub sched : Sched
  pub pg_dir : ℕ

abbrev pub vm_of : Procs → Vm
vm_of s = record { pmm = s.slabs.pmm; entries = s.entries }

abbrev pub with_vm : Vm → Procs → Procs
with_vm vm s = record s { slabs = record s.slabs { pmm = vm.pmm }; entries = vm.entries }

abbrev pub with_proc : ℕ → Process → Procs → Procs
with_proc p proc s = record s { proc = update s.proc p proc }

-- The increment of a counter of 32 bits, and its decrement.
abbrev pub plus32 : ℕ → ℕ → ℕ
plus32 n k = (n + k) % 2 ^ 32

abbrev pub dec32 : ℕ → ℕ
dec32 n = (n + 2 ^ 32 - 1) % 2 ^ 32

-- `pmm_alloc_page_address` and `pmm_free_page_address`.
pub alloc_page_address : Procs → Option (ℕ × Procs)
alloc_page_address s = pmm_alloc_pages 0 s.slabs.pmm >>= λ r.
    some (r.0 * 4096 % 2 ^ 32, record s { slabs = record s.slabs { pmm = r.1 } })

pub free_page_address : ℕ → Procs → Procs
free_page_address paddr s = record s {
  slabs = record s.slabs { pmm = pmm_free_pages (paddr / 4096) 0 s.slabs.pmm };
}

-- `proc_initialize` without the entry of the interrupt table; 128 is sizeof(struct process).
pub proc_initialize : Procs → Option Procs
proc_initialize s =
    slab_create_kmem_cache 128 4 s.slabs >>= λ r. some (record s { proc_cache = r.0; slabs = r.1 })

-- The loops of `proc_free` over a table and over a directory, with `mem_pages`.
pub free_entries : ℕ → ℕ → ℕ → Vm × ℕ → Vm × ℕ
free_entries zero page_tab pte (vm, mem) = (vm, mem)
free_entries (suc n) page_tab pte (vm, mem) =
    let u = vmm_unmap_page_index page_tab pte 0 vm in
    free_entries n page_tab (pte + 1) (
      if u.0 == 0
      then (u.1, mem)
      else (record u.1 { pmm = pmm_free_pages (u.0 / 4096) 0 u.1.pmm }, dec32 mem))

pub free_table : ℕ → Vm × ℕ → Vm × ℕ
free_table page_tab (vm, mem) =
    let r = free_entries 1024 page_tab 0 (vm, mem) in (vmm_free_page_table page_tab r.0, dec32 r.1)

pub free_tables : ℕ → ℕ → ℕ → Vm × ℕ → Vm × ℕ
free_tables zero page_dir pde (vm, mem) = (vm, mem)
free_tables (suc n) page_dir pde (vm, mem) =
    let u = vmm_unmap_page_table_index page_dir pde 0 vm in
    free_tables n page_dir (pde + 1) (if u.0 == 0 then (u.1, mem) else free_table u.0 (u.1, mem))

-- The virtual address space; 768 tables are below KERNEL_BASE.
pub free_space : ℕ → Vm × ℕ → Vm × ℕ
free_space page_dir (vm, mem) =
    let r = free_tables 768 page_dir 0 (vm, mem) in (vmm_free_vaddr_space page_dir r.0, dec32 r.1)

pub release_pid : Option ℕ → Pids → Pids
release_pid none pids = pids
release_pid (some pid) pids = free_pid pid pids

pub proc_free : ℕ → Procs → Option Procs
proc_free p s =
    let proc = s.proc p in
    let r =
      if proc.page_dir == 0
      then (vm_of s, proc.mem_pages)
      else free_space proc.page_dir (vm_of s, proc.mem_pages) in
    let s' = with_proc p (record proc { mem_pages = r.1 }) (with_vm r.0 s) in
    if r.1 == 0
    then (slab_free s.proc_cache p s'.slabs >>= λ slabs.
        some (record s' { slabs = slabs; pids = release_pid proc.pid s.pids }))
    else none

abbrev pub zero_process : Process
zero_process = record {
  pid = none;
  page_dir = 0;
  context = 0;
  entry = 0;
  kernel_stack = 0;
  user_stack = 0;
  syscall_retvalue = 0;
  mem_pages = 0;
  status = 0;
  parent = 0;
}

unfoldable pub proc_alloc : Procs → Option (ℕ × Procs)
proc_alloc s = slab_alloc s.proc_cache s.slabs >>= λ r.
    let p = r.0 in
    let a = alloc_pid s.pids in
    let s' =
      with_proc p (record zero_process { pid = a.0 }) (record s { slabs = r.1; pids = a.1 }) in
    if p == 0
    then some (0, record s { slabs = r.1 })
    else elim a.0 [ some pid ↦ some (p, s') | none ↦ proc_free p s' >>= λ s''. some (0, s'') ]

-- `vmm_map` into the space of a process, with the page that was allocated for it: it is counted, or
-- given back where the result is -1.
pub map_counted : ℕ → ℕ → ℕ → ℕ → Procs → Option (Bool × Procs)
map_counted p vaddr paddr flag s = vmm_map (s.proc p).page_dir vaddr paddr flag (vm_of s) >>= λ r.
    let s' = with_vm r.1 s in
    elim r.0 [
      | none ↦ some (false, free_page_address paddr s')
      | some extra ↦ some (
        true,
        with_proc p (record (s.proc p) { mem_pages = plus32 (s.proc p).mem_pages (extra + 1) }) s',
      )
    ]

-- A stack's page right below an address.
pub map_stack : ℕ → ℕ → ℕ → Procs → Option (Bool × Procs)
map_stack p stack flag s = alloc_page_address s >>= λ r.
    if r.0 == 0 then some (false, r.1) else map_counted p (stack - 4096) r.0 flag r.1

pub alloc_proc_stacks : ℕ → Procs → Option (Bool × Procs)
alloc_proc_stacks p s = map_stack p proc_kernel_stack 2 s >>= λ k.
    if k.0
    then (map_stack p proc_user_stack 6 k.1 >>= λ u.
        if u.0
        then some (
          true,
          with_proc p
              (record (u.1.proc p) {
                kernel_stack = proc_kernel_stack;
                user_stack = proc_user_stack;
              })
              u.1,
        )
        else some (false, u.1))
    else some (false, k.1)

pub proc_exit : ℕ → ℕ → Procs → Procs
proc_exit p status s =
    with_proc p (record (s.proc p) { status = status })
      (record s { sched = record s.sched { state = update s.sched.state p proc_state_dead } })
