-- ===== src/Vmm/Extend.antt =====
-- vmm_map of mm/vmm.c where it adds a page table.
use airix.Prelude.{
  ℕ, ◌*◌, ◌^◌, ◌<◌, ◌≡◌, refl, sym, ap, ◌∙◌, ◌≢◌, arith, ℕ_discrete, update, update_self, update_ne,
}
use airix.Pmm.{Pmm}
use airix.Slab.{p2v, v2p}
use airix.Vmm.{
  Vm, get_page_table, cast_p2v_or_null, frame, vmm_writable, vmm_pde_index, vmm_pte_index,
  present_entry, vmm_map_page_table, vmm_map_page_table_index,
}
use airix.Vmm.Words.{present_entry-reads}
use airix.Vmm.Walk.{
  translate, through-absent, translate_at, table_at, IsTree, write_entry-table, write_entry-entry,
  write_entry_self,
}

module _ (page_dir x b vaddr flag : ℕ) (m : Pmm) (s : Vm) (paged : x ≡ cast_p2v_or_null (b * 4096))
    (small : b < 2 ^ 20) (nz : x ≢ 0) (outside : x ≢ page_dir)
    (fresh : (i : ℕ) → i < 1024 → table_at page_dir i s ≢ x) (hv : vaddr < 2 ^ 32)
    (hf : flag < 4096) (tree : IsTree page_dir s)
    (missing : get_page_table page_dir vaddr s ≡ 0) where
  abbrev cleared : Vm
  cleared = record s { pmm = m; entries = update s.entries x (λ i. vmm_writable) }

  abbrev pub extended : Vm
  extended = vmm_map_page_table page_dir vaddr x flag cleared

  cleared_dir : cleared.entries page_dir ≡ s.entries page_dir
  cleared_dir = update_ne s.entries x page_dir _ outside

  -- The table that the new entry names.
  named : cast_p2v_or_null (frame (present_entry (v2p x) flag)) ≡ x
  named =
      let there : b * 4096 ≢ 0 = λ z. nz (paged ∙ ap cast_p2v_or_null z) in
      let at : x ≡ p2v (b * 4096) = ground arith in
      let back : v2p x ≡ b * 4096 = ap v2p at ∙ omega arith in
      ap cast_p2v_or_null
        (ap (λ p. frame (present_entry p flag)) back ∙ (present_entry-reads b flag small hf).0)
      ∙ sym paged

  table_new : table_at page_dir (vmm_pde_index vaddr) extended ≡ x
  unfolding vmm_map_page_table vmm_map_page_table_index
  table_new =
      ap (λ e. cast_p2v_or_null (frame e))
        (write_entry_self page_dir (vmm_pde_index vaddr) (present_entry (v2p x) flag) cleared)
      ∙ named

  table_old :
      (i : ℕ) → vmm_pde_index vaddr ≢ i → table_at page_dir i extended ≡ table_at page_dir i s
  unfolding vmm_map_page_table vmm_map_page_table_index
  table_old i ne =
      ap (λ e. cast_p2v_or_null (frame e))
        (write_entry-entry page_dir (vmm_pde_index vaddr) (present_entry (v2p x) flag) page_dir i
            cleared (λ same. ne)
          ∙ ap (λ f. f i) cleared_dir)

  table_here : (i : ℕ) → vmm_pde_index vaddr ≡ i → table_at page_dir i extended ≡ x
  table_here i e = ap (λ k. table_at page_dir k extended) (sym e) ∙ table_new

  pub extended-IsTree : IsTree page_dir extended
  extended-IsTree = record {
    own = λ i h there. elim (ℕ_discrete (vmm_pde_index vaddr) i) [
      | yes e ↦ λ z. outside (sym (table_here i e) ∙ z)
      | no ne ↦ λ z. tree.own i h (λ k. there (table_old i ne ∙ k)) (sym (table_old i ne) ∙ z)
    ];
    once = λ i j hi hj there same. elim (ℕ_discrete (vmm_pde_index vaddr) i) [
      | yes ei ↦ elim (ℕ_discrete (vmm_pde_index vaddr) j) [
        | yes ej ↦ sym ei ∙ ej
        | no nj ↦ absurd (fresh j hj (sym (table_old j nj) ∙ sym same ∙ table_here i ei))
      ]
      | no ni ↦ elim (ℕ_discrete (vmm_pde_index vaddr) j) [
        | yes ej ↦ absurd (fresh i hi (sym (table_old i ni) ∙ same ∙ table_here j ej))
        | no nj ↦
            tree.once i j hi hj (λ k. there (table_old i ni ∙ k))
              (sym (table_old i ni) ∙ same ∙ table_old j nj)
      ]
    ];
  }

  pub extended-table : get_page_table page_dir vaddr extended ≡ x
  unfolding get_page_table
  extended-table = table_new

  extended_at :
      (t i : ℕ) → t ≢ page_dir → extended.entries t i ≡ update s.entries x (λ k. vmm_writable) t i
  unfolding vmm_map_page_table vmm_map_page_table_index
  extended_at t i ne =
      ap (λ f. f i)
        (write_entry-table page_dir (vmm_pde_index vaddr) (present_entry (v2p x) flag) t cleared
          (λ e. ne (sym e)))

  -- No address is mapped to another page by it.
  pub extended-translate : (w : ℕ) → translate page_dir w extended ≡ translate page_dir w s
  unfolding get_page_table
  extended-translate w = elim (ℕ_discrete (vmm_pde_index vaddr) (vmm_pde_index w)) [
    | yes e ↦
        let blank : extended.entries x (vmm_pte_index w) ≡ vmm_writable =
          extended_at x (vmm_pte_index w) outside
          ∙ ap (λ f. f (vmm_pte_index w)) (update_self s.entries x (λ i. vmm_writable)) in
        let gone : table_at page_dir (vmm_pde_index w) s ≡ 0 =
          ap (λ k. table_at page_dir k s) (sym e) ∙ missing in
        translate_at page_dir w x vmm_writable extended (table_here (vmm_pde_index w) e) blank
        ∙ through-absent x vmm_writable refl
        ∙ sym (translate_at page_dir w 0 _ s gone refl)
    | no ne ↦ elim (ℕ_discrete (table_at page_dir (vmm_pde_index w) s) 0) [
      | yes z ↦
          translate_at page_dir w 0 _ extended (table_old (vmm_pde_index w) ne ∙ z) refl
          ∙ sym (translate_at page_dir w 0 _ s z refl)
      | no there ↦
          let t = table_at page_dir (vmm_pde_index w) s in
          translate_at page_dir w t (s.entries t (vmm_pte_index w)) extended
            (table_old (vmm_pde_index w) ne)
            (extended_at t (vmm_pte_index w) (tree.own (vmm_pde_index w) (omega arith) there)
              ∙ ap (λ f. f (vmm_pte_index w))
                  (update_ne s.entries x t _ (λ e. fresh (vmm_pde_index w) (omega arith) (sym e))))
          ∙ sym (translate_at page_dir w t _ s refl refl)
    ]
  ]
