-- ===== src/Paging/Step.antt =====
-- A round of the loop of pg_complete_paging of mm/paging.c.
use airix.Prelude.{
  ℕ, ◌+◌, ◌*◌, ◌/◌, ◌%◌, ◌^◌, ◌≤◌, ◌<◌, ◌≡◌, refl, sym, ap, ◌∙◌, ◌≢◌, some, arith, dec_lt,
  update_self, update_ne,
}
use airix.Slab.{p2v, v2p, kernel_base}
use airix.Vmm.{
  Vm, get_page_table, cast_p2v_or_null, frame, vmm_writable, vmm_pde_index, vmm_pte_index,
  present_entry, write_entry,
}
use airix.Vmm.Words.{present_entry-reads}
use airix.Vmm.Walk.{
  translate, through-present, translate_at, table_at, write_entry-table, write_entry-entry,
  write_entry_self,
}
use airix.Paging.{identity_entry, fill_page, map_next}

-- The first n times 4 MB of physical memory are mapped from KERNEL_BASE on, by tables below the page b.
pub record IsKernelMap (dir n b : ℕ) (vm : Vm) : Type 0 where
  pub mapped :
      (p : ℕ) → p < n * 2 ^ 22 → translate dir (kernel_base + p) vm ≡ some (p / 4096 * 4096)
  pub apart :
      (i : ℕ)
      → i < n
      → (table_at dir (768 + i) vm ≢ dir) × (table_at dir (768 + i) vm < kernel_base + b * 4096)

module _ (dir n b : ℕ) (vm : Vm) (v : IsKernelMap dir n b vm) (below : dir < kernel_base + b * 4096)
    (few : n < 256) (small : b < 2 ^ 18) where
  abbrev next : Vm
  next = map_next dir (n * 2 ^ 22) (b * 4096) vm

  abbrev tab : ℕ
  tab = p2v (b * 4096)

  at : tab ≡ kernel_base + b * 4096
  at = omega arith

  entry : ℕ
  entry = present_entry (v2p tab) vmm_writable

  place : vmm_pde_index ((n * 2 ^ 22 % 2 ^ 32 + kernel_base) % 2 ^ 32) ≡ 768 + n
  place = omega arith

  step : next ≡ write_entry dir (768 + n) entry (fill_page tab (identity_entry (n * 2 ^ 22)) vm)
  unfolding map_next entry
  step =
      ap
        (λ k.
          write_entry dir k (present_entry (v2p tab) vmm_writable)
            (fill_page tab (identity_entry (n * 2 ^ 22)) vm))
        place

  outside : tab ≢ dir
  outside e = absurd (omega (arith, at, e))

  filled : Vm
  filled = fill_page tab (identity_entry (n * 2 ^ 22)) vm

  filled_old : (t : ℕ) → t ≢ tab → filled.entries t ≡ vm.entries t
  unfolding filled
  filled_old t ne = update_ne vm.entries tab t _ (λ e. ne (sym e))

  next_table : (t : ℕ) → t ≢ dir → next.entries t ≡ filled.entries t
  unfolding filled
  next_table t ne =
      ap (λ s. s.entries t) step ∙ write_entry-table dir (768 + n) entry t filled (λ e. ne (sym e))

  table_old : (i : ℕ) → i < n → table_at dir (768 + i) next ≡ table_at dir (768 + i) vm
  unfolding filled
  table_old i h =
      ap (λ e. cast_p2v_or_null (frame e))
        (ap (λ s. s.entries dir (768 + i)) step
          ∙ write_entry-entry dir (768 + n) entry dir (768 + i) filled
              (λ same e. absurd (omega arith))
          ∙ ap (λ f. f (768 + i)) (filled_old dir (λ e. outside (sym e))))

  table_new : 0 < b → table_at dir (768 + n) next ≡ tab
  unfolding filled entry
  table_new pos =
      let back : v2p tab ≡ b * 4096 = omega arith in
      ap (λ e. cast_p2v_or_null (frame e))
        (ap (λ s. s.entries dir (768 + n)) step ∙ write_entry_self dir (768 + n) entry filled)
      ∙ ap cast_p2v_or_null (
          ap (λ p. frame (present_entry p vmm_writable)) back
          ∙ (present_entry-reads b vmm_writable (omega arith) (omega arith)).0)
      ∙ ground arith

  -- The pages that were mapped are mapped as before.
  old_page :
      (p : ℕ) → p < n * 2 ^ 22 → translate dir (kernel_base + p) next ≡ some (p / 4096 * 4096)
  unfolding get_page_table
  old_page p h =
      let i : ℕ = p / 2 ^ 22 in
      let index : vmm_pde_index (kernel_base + p) ≡ 768 + i = omega arith in
      let t : ℕ = table_at dir (768 + i) vm in
      let (ne_dir, low) = v.apart i (omega arith) in
      let ne_tab : t ≢ tab = λ e. absurd (omega (arith, low, e, at)) in
      translate_at dir (kernel_base + p) t (vm.entries t (vmm_pte_index (kernel_base + p))) next
        (ap (λ k. table_at dir k next) index ∙ table_old i (omega arith))
        (ap (λ f. f (vmm_pte_index (kernel_base + p))) (next_table t ne_dir ∙ filled_old t ne_tab))
      ∙ sym (translate_at dir (kernel_base + p) t _ vm (ap (λ k. table_at dir k vm) index) refl)
      ∙ v.mapped p h

  -- The new ones are mapped too.
  new_page :
      0 < b
      → (p : ℕ) → n * 2 ^ 22 ≤ p
      → p < (n + 1) * 2 ^ 22
      → translate dir (kernel_base + p) next ≡ some (p / 4096 * 4096)
  unfolding get_page_table filled identity_entry
  new_page pos p lo hi =
      let index : vmm_pde_index (kernel_base + p) ≡ 768 + n = omega arith in
      let j : ℕ = vmm_pte_index (kernel_base + p) in
      let page : (n * 2 ^ 22 + j * 4096) % 2 ^ 32 ≡ p / 4096 * 4096 = omega arith in
      let reads = present_entry-reads (p / 4096) vmm_writable (omega arith) (omega arith) in
      translate_at dir (kernel_base + p) tab (present_entry (p / 4096 * 4096) vmm_writable) next
        (ap (λ k. table_at dir k next) index ∙ table_new pos)
        (ap (λ f. f j)
            (next_table tab outside ∙ update_self vm.entries tab (identity_entry (n * 2 ^ 22)))
          ∙ ap (λ a. present_entry a vmm_writable) page)
      ∙ through-present tab _ (λ z. absurd (omega (arith, at, z))) reads.1
      ∙ ap some reads.0

  pub next-IsKernelMap : 0 < b → IsKernelMap dir (n + 1) (b + 1) next
  next-IsKernelMap pos = record {
    mapped = λ p h. elim (dec_lt p (n * 2 ^ 22)) [
      | yes lt ↦ old_page p lt
      | no ge ↦ new_page pos p (omega arith) h
    ];
    apart = λ i h. elim (dec_lt i n) [
      | yes lt ↦
          let (ne_dir, low) = v.apart i lt in
          ((λ e. ne_dir (sym (table_old i lt) ∙ e)), omega (arith, table_old i lt, low))
      | no ge ↦
          let same : table_at dir (768 + i) next ≡ tab =
            ap (λ k. table_at dir (768 + k) next) {x = i} {y = n} (omega arith) ∙ table_new pos in
          ((λ e. outside (sym same ∙ e)), omega (arith, same, at))
    ];
  }
