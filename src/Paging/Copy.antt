-- ===== src/Paging/Copy.antt =====
-- pg_copy_kernel_space of mm/paging.c.
use airix.Prelude.{
  ℕ, ◌^◌, ◌≤◌, ◌<◌, ◌≡◌, refl, sym, ap, ◌∙◌, ◌≢◌, ◌&&◌, arith, ltb, leb, if◌then◌else◌, lt→ltb,
  le→leb, nle→leb, update, update_self, update_ne,
}
use airix.Slab.{kernel_base}
use airix.Vmm.{get_page_table, cast_p2v_or_null, frame, vmm_pde_index, vmm_pte_index}
use airix.Vmm.Walk.{translate, translate_at, table_at}
use airix.Paging.{Paging, pg_copy_kernel_space}

-- After `pg_copy_kernel_space` into a directory that is none of the kernel's page tables, that
-- directory maps each address from KERNEL_BASE on as the kernel's did, and its entries below are as
-- they were.
pub pg_copy_kernel_space_lem :
    (space : ℕ) (s : Paging)
    → ((i : ℕ) → 768 ≤ i → i < 1024 → table_at s.pg_dir i s.vm ≢ space)
    → ((w : ℕ)
        → kernel_base ≤ w
        → w < 2 ^ 32
        → translate space w (pg_copy_kernel_space space s).vm ≡ translate s.pg_dir w s.vm)
      × ((i : ℕ)
          → i < 768
          → (pg_copy_kernel_space space s).vm.entries space i ≡ s.vm.entries space i)
unfolding pg_copy_kernel_space get_page_table
pg_copy_kernel_space_lem space s apart = (high, low)
  where
    copied : ℕ → ℕ
    copied i = if leb 768 i && ltb i 1024 then s.vm.entries s.pg_dir i else s.vm.entries space i

    low : (i : ℕ) → i < 768 → update s.vm.entries space copied space i ≡ s.vm.entries space i
    low i h = ap (λ f. f i) (update_self s.vm.entries space copied) ∙ rw (nle→leb 768 i h) refl

    high :
        (w : ℕ)
        → kernel_base ≤ w
        → w < 2 ^ 32
        → translate space w (pg_copy_kernel_space space s).vm ≡ translate s.pg_dir w s.vm
    high w lo hi =
        let i : ℕ = vmm_pde_index w in
        let from : 768 ≤ i = omega arith in
        let upto : i < 1024 = omega arith in
        let t : ℕ = table_at s.pg_dir i s.vm in
        let same : copied i ≡ s.vm.entries s.pg_dir i =
          rw (le→leb 768 i from, lt→ltb i 1024 upto) refl in
        translate_at space w t (s.vm.entries t (vmm_pte_index w)) (pg_copy_kernel_space space s).vm
          (ap (λ f. cast_p2v_or_null (frame (f i))) (update_self s.vm.entries space copied)
            ∙ ap (λ e. cast_p2v_or_null (frame e)) same)
          (ap (λ f. f (vmm_pte_index w))
            (update_ne s.vm.entries space t copied (λ e. apart i from upto (sym e))))
        ∙ sym (translate_at s.pg_dir w t _ s.vm refl refl)
