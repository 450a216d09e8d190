-- ===== src/Paging/Tests.antt =====
-- The theorems on paging for 8 MB of memory with the tables from the page 512 on.
use airix.Prelude.{ℕ, ◌^◌, ◌≤◌, ◌<◌, ◌≡◌, [], arith, ◌==◌, if◌then◌else◌}
use airix.Slab.{kernel_base}
use airix.Pmm.{Pmm}
use airix.Vmm.Walk.{translate}
use airix.Paging.{Paging, pg_copy_kernel_space}
use airix.Paging.Copy.{pg_copy_kernel_space_lem}

abbrev no_memory : Pmm
no_memory = record {
  flags = λ p. 1;
  order = λ p. 0;
  total_pages = 0;
  num_pages = 0;
  num_blocks = λ o. 0;
  areas = λ o. [];
}

abbrev unset : Paging
unset = record { vm = record { pmm = no_memory; entries = λ t i. 0 }; pg_dir = 0; cr3 = 0 }

-- A directory with one table.
abbrev one_table : Paging
one_table = record unset {
  vm = record { pmm = no_memory; entries = λ t i. if t == 0xC0001000 then 0x5003 else 0x7003 };
  pg_dir = 0xC0001000;
}

pg_copy_kernel_space_lem_example :
    ((w : ℕ)
      → kernel_base ≤ w
      → w < 2 ^ 32
      → translate 0xC0002000 w (pg_copy_kernel_space 0xC0002000 one_table).vm
        ≡ translate 0xC0001000 w one_table.vm)
    × ((i : ℕ)
        → i < 768
        → (pg_copy_kernel_space 0xC0002000 one_table).vm.entries 0xC0002000 i
          ≡ one_table.vm.entries 0xC0002000 i)
pg_copy_kernel_space_lem_example =
    pg_copy_kernel_space_lem 0xC0002000 one_table (λ i lo hi e. absurd (omega (arith, e)))
