-- ===== src/Vmm/Walk.antt =====
-- What a directory translates an address to, and what a write of an entry does to it.
use airix.Prelude.{
  ℕ, ◌/◌, ◌^◌, ◌<◌, ◌≡◌, refl, sym, ap, ◌∙◌, ◌≢◌, inl, inr, true, false, Option, none, some, arith,
  ℕ_discrete, ◌==◌, if◌then◌else◌, Bool-cases, test_bit, update, update_self, update_ne,
}
use airix.Vmm.{
  Vm, write_entry, get_page_table, cast_p2v_or_null, frame, vmm_present, vmm_pde_index,
  vmm_pte_index,
}

-- The page of a table's entry, where both are there.
abbrev pub through : ℕ → ℕ → Option ℕ
through tab entry =
    if tab == 0 then none else if test_bit entry vmm_present then some (frame entry) else none

pub through-absent : (t e : ℕ) → test_bit e vmm_present ≡ false → through t e ≡ none
through-absent t e h = elim (Bool-cases (t == 0)) [ inl z ↦ rw z refl | inr nz ↦ rw (nz, h) refl ]

pub through-present :
    (t e : ℕ) → t ≢ 0 → test_bit e vmm_present ≡ true → through t e ≡ some (frame e)
through-present t e nz h = elim (Bool-cases (t == 0)) [
  | inl z ↦ absurd (nz (ground arith))
  | inr there ↦ rw (there, h) refl
]

-- The page that an address is mapped to.
unfoldable pub translate : ℕ → ℕ → Vm → Option ℕ
translate page_dir vaddr s =
    through (get_page_table page_dir vaddr s)
      (s.entries (get_page_table page_dir vaddr s) (vmm_pte_index vaddr))

pub translate_at :
    (page_dir vaddr t e : ℕ) (s : Vm)
    → get_page_table page_dir vaddr s ≡ t
    → s.entries t (vmm_pte_index vaddr) ≡ e
    → translate page_dir vaddr s ≡ through t e
unfolding translate
translate_at page_dir vaddr t e s at entry =
    ap (λ k. through k (s.entries k (vmm_pte_index vaddr))) at ∙ ap (through t) entry

abbrev pub table_at : ℕ → ℕ → Vm → ℕ
table_at page_dir index s = cast_p2v_or_null (frame (s.entries page_dir index))

-- The directory has each table in one place, and is no table of its own.
pub record IsTree (page_dir : ℕ) (s : Vm) : Type 0 where
  pub own : (i : ℕ) → i < 1024 → table_at page_dir i s ≢ 0 → table_at page_dir i s ≢ page_dir
  pub once :
      (i j : ℕ)
      → i < 1024
      → j < 1024
      → table_at page_dir i s ≢ 0
      → table_at page_dir i s ≡ table_at page_dir j s
      → i ≡ j

-- Two addresses of different pages differ in an index.
pub other_page :
    (v w : ℕ)
    → v < 2 ^ 32
    → w < 2 ^ 32
    → w / 4096 ≢ v / 4096
    → vmm_pde_index w ≡ vmm_pde_index v
    → vmm_pte_index w ≢ vmm_pte_index v
other_page v w hv hw ne e = λ same. ne (omega arith)

-- What a write leaves.
pub write_entry-table :
    (tab index entry t : ℕ) (s : Vm)
    → tab ≢ t
    → (write_entry tab index entry s).entries t ≡ s.entries t
unfolding write_entry
write_entry-table tab index entry t s ne = update_ne s.entries tab t _ ne

pub write_entry-entry :
    (tab index entry t i : ℕ) (s : Vm)
    → (tab ≡ t → index ≢ i)
    → (write_entry tab index entry s).entries t i ≡ s.entries t i
unfolding write_entry
write_entry-entry tab index entry t i s miss = elim (ℕ_discrete tab t) [
  | yes e ↦
      ap (λ k. update s.entries tab (update (s.entries tab) index entry) k i) (sym e)
      ∙ ap (λ f. f i) (update_self s.entries tab _)
      ∙ update_ne (s.entries tab) index i entry (miss e)
      ∙ ap (λ k. s.entries k i) e
  | no ne ↦ ap (λ f. f i) (update_ne s.entries tab t _ ne)
]

pub write_entry_self :
    (tab index entry : ℕ) (s : Vm) → (write_entry tab index entry s).entries tab index ≡ entry
unfolding write_entry
write_entry_self tab index entry s =
    ap (λ f. f index) (update_self s.entries tab _) ∙ update_self (s.entries tab) index entry

-- An entry of another table, or another entry, may be written.
pub translate-other :
    (page_dir w tab index entry : ℕ) (s : Vm)
    → tab ≢ page_dir
    → (tab ≡ get_page_table page_dir w s → index ≢ vmm_pte_index w)
    → translate page_dir w (write_entry tab index entry s) ≡ translate page_dir w s
unfolding translate get_page_table
translate-other page_dir w tab index entry s ne miss =
    translate_at page_dir w (get_page_table page_dir w s) _ (write_entry tab index entry s)
      (ap (λ f. cast_p2v_or_null (frame (f (vmm_pde_index w))))
        (write_entry-table tab index entry page_dir s ne))
      (write_entry-entry tab index entry (get_page_table page_dir w s) (vmm_pte_index w) s miss)
