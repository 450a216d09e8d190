-- ===== src/Vmm.antt =====
-- mm/vmm.c and the helpers of mm/vmm.h. A page directory or table is known by its virtual address,
-- and holds its entries by index; a null pointer is 0. `none` is a panic.
pub mod Words
pub mod Walk
pub mod Map
pub mod Extend
pub mod Outcome
pub mod Unmap
pub mod Tests
use airix.Prelude.{
  ℕ, zero, suc, ◌+◌, ◌-◌, ◌*◌, ◌/◌, ◌%◌, ◌^◌, ◌≤◌, ◌<◌, min, ◌≡◌, refl, sym, ap, subst, ◌∙◌,
  fun_ext, ◌≢◌, ◌↔◌, ◌⊎◌, inl, inr, Bool, true, false, not, ◌&&◌, ◌||◌, Option, none, some, List,
  [], ◌∷◌, ◌++◌, map, reverse, arith, dec_lt, dec_le, ℕ_discrete, ltb, leb, ◌==◌, if◌then◌else◌,
  ltb→lt, lt→ltb, leb→le, le→leb, nle→leb, ==_iff, Bool-cases, Option-cases, tests, all_below,
  all_below_sound, length, get_elem?, get_or, set, take, drop, replicate, length-append, length-set,
  get_or-set_self, get_or-set_ne, length-take, length-replicate, test_bit, set_bit, clear_bit,
  update, update_self, update_ne, ◌>>=◌, >>=-eq-some, subst_some, nil_of_length, List-cases, Holds,
  Holds-some, Holds-bind, Holds-if,
}
use airix.Pmm.{Pmm, pmm_alloc_pages, pmm_free_pages}
use airix.Slab.{p2v, v2p}

-- `enum vmm_flag`.
abbrev pub vmm_present : ℕ
vmm_present = 0x1

abbrev pub vmm_writable : ℕ
vmm_writable = 0x2

abbrev pub vmm_user : ℕ
vmm_user = 0x4

abbrev pub vmm_pde_index : ℕ → ℕ
vmm_pde_index vaddr = vaddr / 2 ^ 22 % 1024

abbrev pub vmm_pte_index : ℕ → ℕ
vmm_pte_index vaddr = vaddr / 2 ^ 12 % 1024

-- The bitwise `|` of the n lowest bits.
pub lor : ℕ → ℕ → ℕ → ℕ
lor zero a b = 0
lor (suc n) a b = (if a % 2 == 0 then b % 2 else 1) + 2 * lor n (a / 2) (b / 2)

-- `paddr | flag | VMM_PRESENT`.
pub present_entry : ℕ → ℕ → ℕ
present_entry paddr flag = lor 32 (lor 32 paddr flag) vmm_present

-- `(flag & 0xFFF) & ~VMM_PRESENT`.
abbrev pub absent_entry : ℕ → ℕ
absent_entry flag = clear_bit (flag % 4096) vmm_present

-- `entry & 0xFFFFF000`.
abbrev pub frame : ℕ → ℕ
frame entry = entry / 4096 * 4096

abbrev pub cast_p2v_or_null : ℕ → ℕ
cast_p2v_or_null paddr = if paddr == 0 then 0 else p2v paddr

-- The pages that hold directories and tables, and the page allocator.
pub record Vm : Type 0 where
  pub pmm : Pmm
  pub entries : ℕ → ℕ → ℕ

unfoldable pub write_entry : ℕ → ℕ → ℕ → Vm → Vm
write_entry tab index entry s = record s {
  entries = update s.entries tab (update (s.entries tab) index entry);
}

unfoldable pub get_page_table : ℕ → ℕ → Vm → ℕ
get_page_table page_dir vaddr s =
    cast_p2v_or_null (frame (s.entries page_dir (vmm_pde_index vaddr)))

-- `vmm_alloc_vaddr_space` and `vmm_alloc_page_table`: a page of writable, absent entries, or null.
pub vmm_alloc_page_table : Vm → Option (ℕ × Vm)
vmm_alloc_page_table s = pmm_alloc_pages 0 s.pmm >>= λ r.
    let page = cast_p2v_or_null (r.0 * 4096 % 2 ^ 32) in
    if page == 0
    then some (0, record s { pmm = r.1 })
    else some (page, record s { pmm = r.1; entries = update s.entries page (λ i. vmm_writable) })

pub vmm_alloc_vaddr_space : Vm → Option (ℕ × Vm)
vmm_alloc_vaddr_space s = vmm_alloc_page_table s

unfoldable pub vmm_free_page_table : ℕ → Vm → Vm
vmm_free_page_table page_tab s = record s { pmm = pmm_free_pages (v2p page_tab / 4096) 0 s.pmm }

unfoldable pub vmm_free_vaddr_space : ℕ → Vm → Vm
vmm_free_vaddr_space page_dir s = vmm_free_page_table page_dir s

pub vmm_map_page_table_index : ℕ → ℕ → ℕ → ℕ → Vm → Vm
vmm_map_page_table_index page_dir index page_tab flag s =
    write_entry page_dir index (present_entry (v2p page_tab) flag) s

unfoldable pub vmm_unmap_page_table_index : ℕ → ℕ → ℕ → Vm → ℕ × Vm
vmm_unmap_page_table_index page_dir index flag s = (
  cast_p2v_or_null (frame (s.entries page_dir index)),
  write_entry page_dir index (absent_entry flag) s,
)

-- The table, and the flags of its entry.
pub vmm_get_page_table_index : ℕ → ℕ → Vm → ℕ × ℕ
vmm_get_page_table_index page_dir index s =
    (cast_p2v_or_null (frame (s.entries page_dir index)), s.entries page_dir index % 4096)

pub vmm_map_page_index : ℕ → ℕ → ℕ → ℕ → Vm → Vm
vmm_map_page_index page_tab index paddr flag s =
    write_entry page_tab index (present_entry paddr flag) s

unfoldable pub vmm_unmap_page_index : ℕ → ℕ → ℕ → Vm → ℕ × Vm
vmm_unmap_page_index page_tab index flag s =
    (frame (s.entries page_tab index), write_entry page_tab index (absent_entry flag) s)

-- The page, and the flags of its entry.
pub vmm_get_page_index : ℕ → ℕ → Vm → ℕ × ℕ
vmm_get_page_index page_tab index s =
    (frame (s.entries page_tab index), s.entries page_tab index % 4096)

pub vmm_map_page_table : ℕ → ℕ → ℕ → ℕ → Vm → Vm
vmm_map_page_table page_dir vaddr page_tab flag s =
    vmm_map_page_table_index page_dir (vmm_pde_index vaddr) page_tab flag s

pub vmm_unmap_page_table : ℕ → ℕ → ℕ → Vm → ℕ × Vm
vmm_unmap_page_table page_dir vaddr flag s =
    vmm_unmap_page_table_index page_dir (vmm_pde_index vaddr) flag s

pub vmm_map_page : ℕ → ℕ → ℕ → ℕ → Vm → Vm
vmm_map_page page_tab vaddr paddr flag s =
    vmm_map_page_index page_tab (vmm_pte_index vaddr) paddr flag s

pub vmm_unmap_page : ℕ → ℕ → ℕ → Vm → ℕ × Vm
vmm_unmap_page page_tab vaddr flag s = vmm_unmap_page_index page_tab (vmm_pte_index vaddr) flag s

-- The end of `vmm_map`, once there is a table.
pub map_in_table : ℕ → ℕ → ℕ → ℕ → ℕ → Vm → Option (Option ℕ × Vm)
map_in_table page page_tab vaddr paddr flag s =
    if test_bit (s.entries page_tab (vmm_pte_index vaddr)) vmm_present
    then none
    else some (some page, vmm_map_page page_tab vaddr paddr flag s)

-- `vmm_map`: the pages that it used beside, or no number for the result -1.
pub vmm_map : ℕ → ℕ → ℕ → ℕ → Vm → Option (Option ℕ × Vm)
vmm_map page_dir vaddr paddr flag s =
    let page_tab = get_page_table page_dir vaddr s in
    if page_tab == 0
    then (vmm_alloc_page_table s >>= λ r.
        if r.0 == 0
        then some (none, r.1)
        else map_in_table 1 r.0 vaddr paddr flag (vmm_map_page_table page_dir vaddr r.0 flag r.1))
    else map_in_table 0 page_tab vaddr paddr flag s
