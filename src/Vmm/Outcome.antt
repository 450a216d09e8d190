-- ===== src/Vmm/Outcome.antt =====
-- The ways in which `vmm_map` ends.
use airix.Prelude.{ℕ, ◌*◌, ◌^◌, ◌<◌, ◌≡◌, ◌≢◌, ◌⊎◌, none, some, ◌==◌, if◌then◌else◌}
use airix.Pmm.{Pmm, pmm_alloc_pages}
use airix.Vmm.{Vm, get_page_table, cast_p2v_or_null, vmm_map}
use airix.Vmm.Walk.{translate, table_at}
use airix.Vmm.Map.{Mapped}

-- A page for a table lies in the first 4 GB, and is neither the directory nor one of its tables.
abbrev pub IsFreshPage : ℕ → Vm → Type 0
IsFreshPage page_dir s =
    (b : ℕ) (m : Pmm)
    → pmm_alloc_pages 0 s.pmm ≡ some (b, m)
    → (b < 2 ^ 20)
      × (cast_p2v_or_null (b * 4096) ≢ 0
          → (cast_p2v_or_null (b * 4096) ≢ page_dir)
            × ((i : ℕ) → i < 1024 → table_at page_dir i s ≢ cast_p2v_or_null (b * 4096)))

abbrev pub Outcome : ℕ → ℕ → ℕ → ℕ → Vm → Type 0
Outcome page_dir vaddr page flag s =
    ((vmm_map page_dir vaddr (page * 4096) flag s ≡ none)
      × ((translate page_dir vaddr s ≢ none) ⊎ (pmm_alloc_pages 0 s.pmm ≡ none)))
    ⊎ (((s' : Vm) × (vmm_map page_dir vaddr (page * 4096) flag s ≡ some (none, s'))
          × (get_page_table page_dir vaddr s ≡ 0)
          × (s'.entries ≡ s.entries))
        ⊎ ((s' : Vm) × (vmm_map page_dir vaddr (page * 4096) flag s
              ≡ some (some (if get_page_table page_dir vaddr s == 0 then 1 else 0), s'))
            × Mapped page_dir vaddr page flag s s'))
