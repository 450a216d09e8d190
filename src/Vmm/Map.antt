-- ===== src/Vmm/Map.antt =====
-- vmm_map of mm/vmm.c where the directory has a table for the address.
use airix.Prelude.{
  ℕ, ◌*◌, ◌/◌, ◌%◌, ◌^◌, ◌<◌, ◌≡◌, refl, sym, ap, subst, ◌∙◌, ◌≢◌, ◌⊎◌, inl, inr, true, none, some,
  arith, Bool-cases, test_bit, set_bit,
}
use airix.Vmm.{
  Vm, write_entry, get_page_table, cast_p2v_or_null, frame, vmm_present, vmm_pde_index,
  vmm_pte_index, present_entry, map_in_table, vmm_map_page, vmm_map_page_index, vmm_get_page_index,
}
use airix.Vmm.Words.{present_entry-reads}
use airix.Vmm.Walk.{
  translate, through-absent, through-present, translate_at, IsTree, other_page, write_entry-table,
  write_entry_self, translate-other,
}

pub IsTree-same :
    (page_dir : ℕ) (s s' : Vm)
    → s'.entries page_dir ≡ s.entries page_dir
    → IsTree page_dir s
    → IsTree page_dir s'
IsTree-same page_dir s s' e v = record {
  own = λ i h.
      subst (λ f. cast_p2v_or_null (frame (f i)) ≢ 0 → cast_p2v_or_null (frame (f i)) ≢ page_dir)
        (sym e) (v.own i h);
  once = λ i j hi hj.
      subst
        (λ f.
          cast_p2v_or_null (frame (f i)) ≢ 0
          → cast_p2v_or_null (frame (f i)) ≡ cast_p2v_or_null (frame (f j))
          → i ≡ j)
        (sym e) (v.once i j hi hj);
}

-- The page was not mapped and now is, with the flags and the present bit; every other page is mapped
-- as before.
abbrev pub Mapped : ℕ → ℕ → ℕ → ℕ → Vm → Vm → Type 0
Mapped page_dir vaddr page flag s s' =
    (translate page_dir vaddr s ≡ none)
    × (translate page_dir vaddr s' ≡ some (page * 4096))
    × ((vmm_get_page_index (get_page_table page_dir vaddr s') (vmm_pte_index vaddr) s').1
        ≡ set_bit flag vmm_present)
    × ((w : ℕ)
        → w < 2 ^ 32
        → w / 4096 ≢ vaddr / 4096
        → translate page_dir w s' ≡ translate page_dir w s)
    × IsTree page_dir s'

absurd_some : {A : Type 0} {a : A} → some a ≡ none → ⊥
absurd_some e = cc

-- With a table.
pub map_in_table_lem :
    (page_dir n t vaddr page flag : ℕ) (s : Vm)
    → vaddr < 2 ^ 32
    → page < 2 ^ 20
    → flag < 4096
    → IsTree page_dir s
    → get_page_table page_dir vaddr s ≡ t
    → t ≢ 0
    → ((map_in_table n t vaddr (page * 4096) flag s ≡ none) × (translate page_dir vaddr s ≢ none))
      ⊎ ((s' : Vm) × (map_in_table n t vaddr (page * 4096) flag s ≡ some (some n, s'))
          × Mapped page_dir vaddr page flag s s')
unfolding map_in_table get_page_table vmm_map_page vmm_map_page_index vmm_get_page_index
map_in_table_lem page_dir n t vaddr page flag s hv hp hf tree at nz =
    elim (Bool-cases (test_bit (s.entries t (vmm_pte_index vaddr)) vmm_present)) [
      | inl taken ↦ inl (
        rw taken refl,
        λ e. absurd_some (
            sym (through-present t _ nz taken)
            ∙ sym (translate_at page_dir vaddr t _ s at refl)
            ∙ e),
      )
      | inr absent ↦ inr (
        s',
        rw absent refl,
        (
          translate_at page_dir vaddr t _ s at refl ∙ through-absent t _ absent,
          translate_at page_dir vaddr t entry s' at' self
              ∙ through-present t entry nz reads.1
              ∙ ap some reads.0,
          ap (λ k. s'.entries k (vmm_pte_index vaddr) % 4096) at'
              ∙ ap (λ x. x % 4096) self
              ∙ reads.2,
          (λ w hw ne. translate-other page_dir w t (vmm_pte_index vaddr) entry s outside (λ e same.
              other_page vaddr w hv hw ne
                (tree.once (vmm_pde_index w) (vmm_pde_index vaddr) (omega arith) (omega arith)
                  (λ z. nz (e ∙ z)) (sym e ∙ sym at))
                (sym same))),
          IsTree-same page_dir s s' dir_same tree,
        ),
      )
    ]
  where
    entry : ℕ
    entry = present_entry (page * 4096) flag

    reads :
        (frame entry ≡ page * 4096)
        × (test_bit entry vmm_present ≡ true)
        × (entry % 4096 ≡ set_bit flag vmm_present)
    reads = present_entry-reads page flag hp hf

    s' : Vm
    s' = write_entry t (vmm_pte_index vaddr) entry s

    outside : t ≢ page_dir
    outside e = tree.own (vmm_pde_index vaddr) (omega arith) (λ z. nz (sym at ∙ z)) (at ∙ e)

    dir_same : s'.entries page_dir ≡ s.entries page_dir
    dir_same = write_entry-table t (vmm_pte_index vaddr) entry page_dir s outside

    self : s'.entries t (vmm_pte_index vaddr) ≡ entry
    self = write_entry_self t (vmm_pte_index vaddr) entry s

    at' : get_page_table page_dir vaddr s' ≡ t
    at' = ap (λ f. cast_p2v_or_null (frame (f (vmm_pde_index vaddr)))) dir_same ∙ at
