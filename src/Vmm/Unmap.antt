-- ===== src/Vmm/Unmap.antt =====
-- vmm_unmap_page of mm/vmm.h: taking a page out of a table.
use airix.Prelude.{
  ℕ, ◌/◌, ◌^◌, ◌<◌, ◌≡◌, refl, sym, ap, ◌∙◌, ◌≢◌, inl, inr, false, none, some, arith, ◌==◌,
  Bool-cases, test_bit,
}
use mathlib.Core.Option.{some-injective}
use airix.Vmm.{
  Vm, cast_p2v_or_null, write_entry, get_page_table, frame, vmm_present, vmm_pde_index,
  vmm_pte_index, absent_entry, vmm_unmap_page, vmm_unmap_page_index,
}
use airix.Vmm.Walk.{
  translate, through, through-absent, through-present, translate_at, IsTree, other_page,
  write_entry-table, write_entry_self, translate-other,
}
use airix.Vmm.Map.{IsTree-same}

absent_reads : (flag : ℕ) → test_bit (absent_entry flag) vmm_present ≡ false
absent_reads flag = ground arith

present_of : (t e : ℕ) {p : ℕ} → through t e ≡ some p → (t ≢ 0) × (frame e ≡ p)
present_of t e {p} h = elim (Bool-cases (t == 0)) [
  | inl z ↦ ground arith
  | inr there ↦ elim (Bool-cases (test_bit e vmm_present)) [
    | inr absent ↦ ground arith
    | inl present ↦ (
      (λ z. ground arith),
      some-injective (frame e) p (sym (through-present t e (λ z. ground arith) present) ∙ h),
    )
  ]
]

-- Unmapping a mapped page from its table gives the page that it was mapped to, and leaves it
-- unmapped, every other page mapped as before, and each table there once.
pub vmm_unmap_page_lem :
    (page_dir vaddr paddr flag : ℕ) (s : Vm)
    → vaddr < 2 ^ 32
    → IsTree page_dir s
    → translate page_dir vaddr s ≡ some paddr
    → (s' : Vm) × (vmm_unmap_page (get_page_table page_dir vaddr s) vaddr flag s ≡ (paddr, s'))
      × (translate page_dir vaddr s' ≡ none)
      × ((w : ℕ)
          → w < 2 ^ 32
          → w / 4096 ≢ vaddr / 4096
          → translate page_dir w s' ≡ translate page_dir w s)
      × IsTree page_dir s'
unfolding vmm_unmap_page vmm_unmap_page_index get_page_table
vmm_unmap_page_lem page_dir vaddr paddr flag s hv tree mapped = (
  s',
  ap (λ p. (p, s')) there.1,
  translate_at page_dir vaddr t (absent_entry flag) s' at'
        (write_entry_self t (vmm_pte_index vaddr) (absent_entry flag) s)
      ∙ through-absent t (absent_entry flag) (absent_reads flag),
  (λ w hw ne.
      translate-other page_dir w t (vmm_pte_index vaddr) (absent_entry flag) s outside (λ e same.
        other_page vaddr w hv hw ne
          (tree.once (vmm_pde_index w) (vmm_pde_index vaddr) (omega arith) (omega arith)
            (λ z. there.0 (e ∙ z)) (sym e))
          (sym same))),
  IsTree-same page_dir s s' dir_same tree,
)
  where
    t : ℕ
    t = get_page_table page_dir vaddr s

    there : (t ≢ 0) × (frame (s.entries t (vmm_pte_index vaddr)) ≡ paddr)
    there =
        present_of t (s.entries t (vmm_pte_index vaddr))
          (sym (translate_at page_dir vaddr t _ s refl refl) ∙ mapped)

    s' : Vm
    s' = write_entry t (vmm_pte_index vaddr) (absent_entry flag) s

    outside : t ≢ page_dir
    outside = tree.own (vmm_pde_index vaddr) (omega arith) there.0

    dir_same : s'.entries page_dir ≡ s.entries page_dir
    dir_same = write_entry-table t (vmm_pte_index vaddr) (absent_entry flag) page_dir s outside

    at' : get_page_table page_dir vaddr s' ≡ t
    at' = ap (λ f. cast_p2v_or_null (frame (f (vmm_pde_index vaddr)))) dir_same
