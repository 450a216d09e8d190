-- ===== src/Vmm/Tests.antt =====
-- Runs of the page tables, and their theorems at a directory with one table.
use airix.Prelude.{
  ℕ, ◌/◌, ◌^◌, ◌<◌, ◌≡◌, refl, sym, ap, ◌∙◌, ◌≢◌, ◌&&◌, none, some, [], arith, ℕ_discrete, ◌==◌,
  if◌then◌else◌,
}
use airix.Pmm.{Pmm}
use airix.Vmm.{
  Vm, write_entry, get_page_table, lor, present_entry, vmm_map, map_in_table, vmm_map_page,
  vmm_map_page_index, vmm_map_page_table, vmm_map_page_table_index, vmm_unmap_page,
  vmm_unmap_page_table, vmm_unmap_page_table_index, vmm_get_page_index, vmm_get_page_table_index,
}
use airix.Vmm.Walk.{translate, IsTree, table_at}
use airix.Vmm.Outcome.{Outcome}
use airix.Vmm.Unmap.{vmm_unmap_page_lem}

abbrev no_pages : Pmm
no_pages = record {
  flags = λ p. 1;
  order = λ p. 0;
  total_pages = 0;
  num_pages = 0;
  num_blocks = λ o. 0;
  areas = λ o. [];
}

abbrev directory : ℕ
directory = 0xC0001000

-- One table, at 0xC0005000 for the first 4 MB of the kernel, with an entry for the third page.
abbrev one_table : Vm
one_table = record {
  pmm = no_pages;
  entries = λ t i.
      if t == directory
      then (if i == 768 then 0x5003 else 2)
      else if (t == 0xC0005000) && (i == 2)
      then 0x7003
      else 2;
}

at_768 :
    (i : ℕ)
    → table_at directory i one_table ≢ 0
    → (i ≡ 768) × (table_at directory i one_table ≡ 0xC0005000)
at_768 i there = elim (ℕ_discrete i 768) [
  | yes e ↦ (e, ap (λ k. table_at directory k one_table) e)
  | no ne ↦ absurd (there (ground arith))
]

one_table-IsTree : IsTree directory one_table
one_table-IsTree = record {
  own = λ i h there e. absurd (omega (arith, (at_768 i there).1, e));
  once = λ i j hi hj there same. (at_768 i there).0 ∙ sym (at_768 j (λ z. there (same ∙ z))).0;
}

vmm_unmap_page_lem_example :
    (s' : Vm) × (vmm_unmap_page
        (get_page_table directory 0xC0002000 one_table)
        0xC0002000
        2
        one_table
      ≡ (0x7000, s'))
    × (translate directory 0xC0002000 s' ≡ none)
    × ((w : ℕ)
        → w < 2 ^ 32
        → w / 4096 ≢ 0xC0002000 / 4096
        → translate directory w s' ≡ translate directory w one_table)
    × IsTree directory s'
unfolding translate get_page_table
vmm_unmap_page_lem_example =
    vmm_unmap_page_lem directory 0xC0002000 0x7000 2 one_table (omega arith) one_table-IsTree refl

-- The page is mapped with the flags, and the entry of the table is read back.
maps :
    (s' : Vm) × (vmm_map directory 0xC0003000 0x9000 6 one_table ≡ some (some 0, s'))
    × (vmm_get_page_index 0xC0005000 3 s' ≡ (0x9000, 7))
    × (vmm_get_page_table_index directory 768 s' ≡ (0xC0005000, 3))
unfolding vmm_map get_page_table map_in_table vmm_map_page vmm_map_page_index write_entry
    present_entry lor vmm_get_page_index vmm_get_page_table_index
maps = (_, refl, refl, refl)

-- A directory's entry is written and taken back.
tables :
    let s = vmm_map_page_table directory 0x400000 0xC0006000 2 one_table in
    vmm_get_page_table_index directory 1 s ≡ (0xC0006000, 3)
    × ((vmm_unmap_page_table directory 0x400000 0 s).0 ≡ 0xC0006000)
unfolding vmm_map_page_table vmm_map_page_table_index write_entry present_entry lor
    vmm_get_page_table_index vmm_unmap_page_table vmm_unmap_page_table_index
tables = (refl, refl)
