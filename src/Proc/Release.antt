-- ===== src/Proc/Release.antt =====
-- kernel/process.c: the pages that `proc_free` gives back, against those that the address space has.
use airix.Prelude.{
  ℕ, zero, suc, ◌+◌, ◌/◌, ◌≤◌, ◌<◌, ◌≡◌, refl, sym, ap, ◌∙◌, ◌≢◌, inl, inr, true, false, List, [],
  ◌∷◌, ◌++◌, arith, ◌==◌, if◌then◌else◌, Bool-cases, length,
}
use airix.Pmm.{Pmm, pmm_free_pages}
use airix.Slab.{v2p}
use airix.Vmm.{
  Vm, frame, cast_p2v_or_null, write_entry, absent_entry, vmm_unmap_page_index, vmm_free_page_table,
  vmm_unmap_page_table_index, vmm_free_vaddr_space,
}
use airix.Vmm.Walk.{write_entry-table, write_entry-entry, IsTree, table_at}
use airix.Proc.{free_entries, dec32, free_table, free_tables, free_space}

-- The pages that a table maps from an entry on, those of a directory's tables with the tables, and
-- those of a space.
unfoldable pub entry_pages : ℕ → (ℕ → ℕ) → ℕ → List ℕ
entry_pages zero tab pte = []
entry_pages (suc n) tab pte =
    let rest = entry_pages n tab (pte + 1) in
    if frame (tab pte) == 0 then rest else frame (tab pte) / 4096 ∷ rest

unfoldable pub table_pages : ℕ → (ℕ → ℕ → ℕ) → ℕ → ℕ → List ℕ
table_pages zero entries page_dir pde = []
table_pages (suc n) entries page_dir pde =
    let tab = cast_p2v_or_null (frame (entries page_dir pde)) in
    let rest = table_pages n entries page_dir (pde + 1) in
    if tab == 0 then rest else entry_pages 1024 (entries tab) 0 ++ (v2p tab / 4096 ∷ rest)

unfoldable pub space_pages : (ℕ → ℕ → ℕ) → ℕ → List ℕ
space_pages entries page_dir = table_pages 768 entries page_dir 0 ++ (v2p page_dir / 4096 ∷ [])

-- Pages given back one after the other, and a counter of 32 bits that goes down with each.
pub give_back : List ℕ → Pmm → Pmm
give_back [] pmm = pmm
give_back (b ∷ bs) pmm = give_back bs (pmm_free_pages b 0 pmm)

unfoldable pub minus32 : ℕ → ℕ → ℕ
minus32 n zero = n
minus32 n (suc k) = minus32 (dec32 n) k

give_back-append :
    (xs ys : List ℕ) (pmm : Pmm) → give_back (xs ++ ys) pmm ≡ give_back ys (give_back xs pmm)
unfolding give_back
give_back-append [] ys pmm = refl
give_back-append (x ∷ xs) ys pmm = give_back-append xs ys (pmm_free_pages x 0 pmm)

minus32-append :
    (xs ys : List ℕ) (n : ℕ)
    → minus32 n (length (xs ++ ys)) ≡ minus32 (minus32 n (length xs)) (length ys)
unfolding minus32
minus32-append [] ys n = refl
minus32-append (x ∷ xs) ys n = minus32-append xs ys (dec32 n)

-- What a loop gives back, and the tables it leaves as they were.
pub record Gives (pages : List ℕ) (before after : Vm × ℕ) : Type 0 where
  pub pmm : after.0.pmm ≡ give_back pages before.0.pmm
  pub count : after.1 ≡ minus32 before.1 (length pages)

-- One entry fewer.
later_same :
    (page_tab pte entry : ℕ) (tab : ℕ → ℕ) (vm : Vm)
    → ((i : ℕ) → pte ≤ i → vm.entries page_tab i ≡ tab i)
    → (i : ℕ) → pte + 1 ≤ i
    → (write_entry page_tab pte entry vm).entries page_tab i ≡ tab i
later_same page_tab pte entry tab vm same i h =
    write_entry-entry page_tab pte entry page_tab i vm (λ e p. absurd (omega arith))
    ∙ same i (omega arith)

-- What the loop over a table gives back, and the other tables.
record Emptied (page_tab : ℕ) (pages : List ℕ) (before after : Vm × ℕ) : Type 0 where
  gives : Gives pages before after
  others : (t : ℕ) → page_tab ≢ t → after.0.entries t ≡ before.0.entries t

-- The entry that the loop comes to, without a page and with one.
free_entries-empty :
    (n page_tab pte : ℕ) (vm : Vm) (mem : ℕ)
    → (frame (vm.entries page_tab pte) == 0) ≡ true
    → free_entries (suc n) page_tab pte (vm, mem)
      ≡ free_entries n page_tab (pte + 1) (write_entry page_tab pte (absent_entry 0) vm, mem)
unfolding free_entries vmm_unmap_page_index
free_entries-empty n page_tab pte vm mem e = rw e refl

abbrev given : ℕ → ℕ → Vm → Vm
given page_tab pte vm = record (write_entry page_tab pte (absent_entry 0) vm) {
  pmm =
      pmm_free_pages (frame (vm.entries page_tab pte) / 4096) 0
        (write_entry page_tab pte (absent_entry 0) vm).pmm;
}

free_entries-page :
    (n page_tab pte : ℕ) (vm : Vm) (mem : ℕ)
    → (frame (vm.entries page_tab pte) == 0) ≡ false
    → free_entries (suc n) page_tab pte (vm, mem)
      ≡ free_entries n page_tab (pte + 1) (given page_tab pte vm, dec32 mem)
unfolding free_entries vmm_unmap_page_index
free_entries-page n page_tab pte vm mem e = rw e refl

free_entries-Emptied :
    (n : ℕ) (page_tab pte : ℕ) (tab : ℕ → ℕ) (vm : Vm) (mem : ℕ)
    → ((i : ℕ) → pte ≤ i → vm.entries page_tab i ≡ tab i)
    → Emptied page_tab (entry_pages n tab pte) (vm, mem) (free_entries n page_tab pte (vm, mem))
unfolding free_entries entry_pages give_back minus32 write_entry
free_entries-Emptied zero page_tab pte tab vm mem same = record {
  gives = record { pmm = refl; count = refl };
  others = λ t ne. refl;
}
free_entries-Emptied (suc n) page_tab pte tab vm mem same =
    let here = same pte (omega arith) in
    elim (Bool-cases (frame (tab pte) == 0)) [
      | inl empty ↦
          let r =
            free_entries-Emptied n page_tab (pte + 1) tab
              (write_entry page_tab pte (absent_entry 0) vm) mem
              (later_same page_tab pte _ tab vm same) in
          rw (free_entries-empty n page_tab pte vm mem (rw here empty), empty)
            (record {
              gives = record { pmm = r.gives.pmm; count = r.gives.count };
              others = λ t ne. r.others t ne ∙ write_entry-table page_tab pte _ t vm ne;
            })
      | inr page ↦
          let r =
            free_entries-Emptied n page_tab (pte + 1) tab (given page_tab pte vm) (dec32 mem)
              (later_same page_tab pte _ tab vm same) in
          rw (free_entries-page n page_tab pte vm mem (rw here page), page, ← here)
            (record {
              gives = record { pmm = r.gives.pmm; count = r.gives.count };
              others = λ t ne. r.others t ne ∙ write_entry-table page_tab pte _ t vm ne;
            })
    ]

not_null : (p : ℕ) → (p == 0) ≡ false → p ≢ 0
not_null p h e = ground arith

Gives-append :
    {xs ys : List ℕ} {a b c : Vm × ℕ} → Gives xs a b → Gives ys b c → Gives (xs ++ ys) a c
Gives-append {xs} {ys} {a} {b} {c} first second = record {
  pmm = second.pmm ∙ ap (give_back ys) first.pmm ∙ sym (give_back-append xs ys a.0.pmm);
  count =
      second.count ∙ ap (λ n. minus32 n (length ys)) first.count ∙ sym (minus32-append xs ys a.1);
}

abbrev freed_page : ℕ → Vm × ℕ → Vm × ℕ
freed_page tab (vm, mem) = (record vm { pmm = pmm_free_pages (v2p tab / 4096) 0 vm.pmm }, dec32 mem)

freed_page-Gives : (tab : ℕ) (a : Vm × ℕ) → Gives (v2p tab / 4096 ∷ []) a (freed_page tab a)
unfolding give_back minus32
freed_page-Gives tab a = record { pmm = refl; count = refl }

free_table_lem :
    (tab : ℕ) (a : Vm × ℕ) → free_table tab a ≡ freed_page tab (free_entries 1024 tab 0 a)
unfolding free_table vmm_free_page_table
free_table_lem tab a = refl

module _ (page_dir : ℕ) (start : Vm) (tree : IsTree page_dir start) where
  -- What the loop over the directory has still to read is as it was at the start.
  record Ahead (pde : ℕ) (vm : Vm) : Type 0 where
    dir : (i : ℕ) → pde ≤ i → vm.entries page_dir i ≡ start.entries page_dir i
    tables :
        (i : ℕ)
        → pde ≤ i
        → i < 1024
        → table_at page_dir i start ≢ 0
        → vm.entries (table_at page_dir i start) ≡ start.entries (table_at page_dir i start)

  abbrev cleared : ℕ → Vm → Vm
  cleared pde vm = write_entry page_dir pde (absent_entry 0) vm

  cleared-Ahead : (pde : ℕ) (vm : Vm) → Ahead pde vm → Ahead (pde + 1) (cleared pde vm)
  cleared-Ahead pde vm ahead = record {
    dir = λ i h. later_same page_dir pde _ (start.entries page_dir) vm ahead.dir i h;
    tables = λ i h small there.
        write_entry-table page_dir pde _ (table_at page_dir i start) vm
          (λ e. tree.own i small there (sym e))
        ∙ ahead.tables i (omega arith) small there;
  }

  -- A table that is emptied and given back is none of those ahead.
  Emptied-Ahead :
      (pde : ℕ) (vm : Vm) (mem : ℕ) (r : Vm × ℕ) (pages : List ℕ)
      → pde < 1024
      → table_at page_dir pde start ≢ 0
      → Ahead (pde + 1) vm
      → Emptied (table_at page_dir pde start) pages (vm, mem) r
      → Ahead (pde + 1) (freed_page (table_at page_dir pde start) r).0
  Emptied-Ahead pde vm mem r pages small there ahead emptied = record {
    dir = λ i h. ap (λ f. f i) (emptied.others page_dir (tree.own pde small there)) ∙ ahead.dir i h;
    tables = λ i h small' there'.
        emptied.others (table_at page_dir i start)
          (λ e. absurd (apart pde i h (tree.once pde i small small' there e)))
        ∙ ahead.tables i h small' there';
  }
    where
      apart : (pde i : ℕ) → pde + 1 ≤ i → pde ≢ i
      apart pde i h e = absurd (omega arith)

  -- The entry that the loop comes to, without a table and with one.
  free_tables-absent :
      (n pde : ℕ) (vm : Vm) (mem : ℕ)
      → (table_at page_dir pde vm == 0) ≡ true
      → free_tables (suc n) page_dir pde (vm, mem)
        ≡ free_tables n page_dir (pde + 1) (cleared pde vm, mem)
  unfolding free_tables vmm_unmap_page_table_index
  free_tables-absent n pde vm mem e = rw e refl

  free_tables-there :
      (n pde : ℕ) (vm : Vm) (mem : ℕ)
      → (table_at page_dir pde vm == 0) ≡ false
      → free_tables (suc n) page_dir pde (vm, mem)
        ≡ free_tables n page_dir
            (pde + 1)
            (free_table (table_at page_dir pde vm) (cleared pde vm, mem))
  unfolding free_tables vmm_unmap_page_table_index
  free_tables-there n pde vm mem e = rw e refl

  -- The table that the loop comes to is as it was at the start.
  same_table :
      (pde : ℕ) (vm : Vm)
      → pde < 1024
      → table_at page_dir pde start ≢ 0
      → Ahead pde vm
      → (cleared pde vm).entries (table_at page_dir pde start)
        ≡ start.entries (table_at page_dir pde start)
  same_table pde vm small there ahead =
      write_entry-table page_dir pde _ (table_at page_dir pde start) vm
        (λ e. tree.own pde small there (sym e))
      ∙ ahead.tables pde (omega arith) small there

  free_tables-Gives :
      (n pde : ℕ) (vm : Vm) (mem : ℕ)
      → n + pde ≤ 1024
      → Ahead pde vm
      → Gives
          (table_pages n start.entries page_dir pde)
          (vm, mem)
          (free_tables n page_dir pde (vm, mem))
  unfolding free_tables table_pages vmm_unmap_page_table_index give_back minus32 write_entry
  free_tables-Gives zero pde vm mem fits ahead = record { pmm = refl; count = refl }
  free_tables-Gives (suc n) pde vm mem fits ahead =
      let here = ahead.dir pde (omega arith) in
      let tab : ℕ = table_at page_dir pde start in
      elim (Bool-cases (tab == 0)) [
        | inl absent ↦
            let r =
              free_tables-Gives n (pde + 1) (cleared pde vm) mem (omega arith)
                (cleared-Ahead pde vm ahead) in
            rw (free_tables-absent n pde vm mem (rw here absent), absent)
              (record { pmm = r.pmm; count = r.count })
        | inr there ↦
            let some_tab = not_null tab there in
            let vm' : Vm = cleared pde vm in
            let ahead' = cleared-Ahead pde vm ahead in
            let emptied =
              free_entries-Emptied 1024 tab 0 (start.entries tab) vm' mem
                (λ i h. ap (λ f. f i) (same_table pde vm (omega arith) some_tab ahead)) in
            let r = free_entries 1024 tab 0 (vm', mem) in
            let after = freed_page tab r in
            let rest =
              free_tables-Gives n (pde + 1) after.0 after.1 (omega arith)
                (Emptied-Ahead pde vm' mem r _ (omega arith) some_tab ahead' emptied) in
            let all = Gives-append emptied.gives (Gives-append (freed_page-Gives tab r) rest) in
            rw
              (
                free_tables-there n pde vm mem (rw here there),
                here,
                there,
                free_table_lem tab (vm', mem),
              )
              (record { pmm = all.pmm; count = all.count })
      ]

  pub free_space-Gives :
      (mem : ℕ)
      → Gives (space_pages start.entries page_dir) (start, mem) (free_space page_dir (start, mem))
  unfolding free_space space_pages vmm_free_vaddr_space vmm_free_page_table
  free_space-Gives mem =
      let now : Ahead 0 start = record { dir = λ i h. refl; tables = λ i h small there. refl } in
      let r = free_tables 768 page_dir 0 (start, mem) in
      Gives-append (free_tables-Gives 768 0 start mem (omega arith) now)
        (freed_page-Gives page_dir r)
