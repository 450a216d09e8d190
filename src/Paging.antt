-- ===== src/Paging.antt =====
-- mm/paging.c: the kernel's own page directory, which maps the physical memory from KERNEL_BASE on.
-- A page is known by its virtual address also where the source, before paging is on, writes to it by
-- its physical one.
pub mod Step
pub mod Kernel
pub mod Copy
pub mod Tests
use airix.Prelude.{
  ℕ, zero, suc, ◌+◌, ◌-◌, ◌*◌, ◌/◌, ◌%◌, ◌^◌, ◌≤◌, ◌<◌, min, ◌≡◌, refl, sym, ap, subst, ◌∙◌,
  fun_ext, ◌≢◌, ◌↔◌, ◌⊎◌, inl, inr, Bool, true, false, not, ◌&&◌, ◌||◌, Option, none, some, List,
  [], ◌∷◌, ◌++◌, map, reverse, arith, dec_lt, dec_le, ℕ_discrete, ltb, leb, ◌==◌, if◌then◌else◌,
  ltb→lt, lt→ltb, leb→le, le→leb, nle→leb, ==_iff, Bool-cases, Option-cases, tests, all_below,
  all_below_sound, length, get_elem?, get_or, set, take, drop, replicate, length-append, length-set,
  get_or-set_self, get_or-set_ne, length-take, length-replicate, test_bit, set_bit, clear_bit,
  update, update_self, update_ne, ◌>>=◌, >>=-eq-some, subst_some, nil_of_length, List-cases, Holds,
  Holds-some, Holds-bind, Holds-if,
}
use airix.Slab.{p2v, v2p, kernel_base}
use airix.Vmm.{Vm, vmm_writable, vmm_pde_index, present_entry, write_entry}

-- The pages, `pg_dir`, and what `set_cr3` was last given.
pub record Paging : Type 0 where
  pub vm : Vm
  pub pg_dir : ℕ
  pub cr3 : ℕ

-- `(pte_t)physical_addr | VMM_WRITABLE | VMM_PRESENT` for each entry of a page table.
pub identity_entry : ℕ → ℕ → ℕ
identity_entry physical_addr i = present_entry ((physical_addr + i * 4096) % 2 ^ 32) vmm_writable

abbrev pub fill_page : ℕ → (ℕ → ℕ) → Vm → Vm
fill_page page f vm = record vm { entries = update vm.entries page f }

-- `pg_init_paging`: the next free physical address, and the state.
pub pg_init_paging : ℕ → Paging → ℕ × Paging
pg_init_paging page_aligned_free s =
    let page_dir = p2v page_aligned_free in
    let page_tab = page_aligned_free + 4096 in
    let entry = present_entry page_tab vmm_writable in
    let vm =
      fill_page (p2v page_tab) (identity_entry 0) (fill_page page_dir (λ i. vmm_writable) s.vm) in
    (
      page_aligned_free + 8192,
      record {
        vm =
            write_entry page_dir (vmm_pde_index kernel_base) entry
              (write_entry page_dir 0 entry vm);
        pg_dir = page_dir;
        cr3 = page_aligned_free;
      },
    )

-- A round of the `while` of `pg_complete_paging`: a page table for the next 4 MB.
pub map_next : ℕ → ℕ → ℕ → Vm → Vm
map_next pg_dir physical_addr page_aligned_free vm =
    let virtual_addr = (physical_addr % 2 ^ 32 + kernel_base) % 2 ^ 32 in
    let pg_tab = p2v page_aligned_free in
    write_entry pg_dir (vmm_pde_index virtual_addr) (present_entry (v2p pg_tab) vmm_writable)
      (fill_page pg_tab (identity_entry physical_addr) vm)

-- The loop, on fuel: the next free physical address, and the pages.
pub map_all : ℕ → ℕ → ℕ → ℕ → ℕ → Vm → Option (ℕ × Vm)
map_all zero max pg_dir physical_addr page_aligned_free vm = none
map_all (suc fuel) max pg_dir physical_addr page_aligned_free vm =
    let rest =
      map_all fuel max pg_dir (physical_addr + 2 ^ 22) (page_aligned_free + 4096)
        (map_next pg_dir physical_addr page_aligned_free vm) in
    if ltb physical_addr max then rest else some (page_aligned_free, vm)

-- `pg_complete_paging`, given the result of `pmm_max_physical_address`.
pub pg_complete_paging : ℕ → ℕ → ℕ → Paging → Option (ℕ × Paging)
pg_complete_paging fuel page_aligned_free max_physical_addr s =
    map_all fuel max_physical_addr s.pg_dir (2 ^ 22) page_aligned_free
      (write_entry s.pg_dir 0 vmm_writable s.vm)
    >>= λ r. some (r.0, record s { vm = r.1; cr3 = v2p s.pg_dir })

-- `pg_copy_kernel_space`: the entries from that of KERNEL_BASE on.
pub pg_copy_kernel_space : ℕ → Paging → Paging
pg_copy_kernel_space vaddr_space s =
    let own = s.vm.entries vaddr_space in
    record s {
      vm =
          fill_page vaddr_space
            (λ i. if leb 768 i && ltb i 1024 then s.vm.entries s.pg_dir i else own i) s.vm;
    }
