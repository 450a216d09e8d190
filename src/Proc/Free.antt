-- ===== src/Proc/Free.antt =====
-- kernel/process.c: `proc_free`, its accounting of pages and its panic.
use airix.Prelude.{
  ℕ, zero, suc, ◌+◌, ◌*◌, ◌/◌, ◌^◌, ◌≤◌, ◌<◌, ◌≡◌, refl, sym, ap, ◌∙◌, ◌≢◌, ◌↔◌, ◌⊎◌, inl, inr,
  false, none, some, List, [], ◌∷◌, arith, ℕ_discrete, ◌==◌, Bool-cases, length, length-append,
  ◌>>=◌,
}
use airix.Slab.{slab_free, v2p}
use airix.Vmm.{cast_p2v_or_null, frame}
use airix.Vmm.Walk.{IsTree}
use airix.Proc.{Procs, proc_free, free_space, vm_of, with_vm, with_proc, release_pid, dec32}
use airix.Proc.Release.{entry_pages, table_pages, space_pages, give_back, minus32, free_space-Gives}

null_ne : (p : ℕ) → p ≢ 0 → (p == 0) ≡ false
null_ne p h = ground arith

dec32_small : (n : ℕ) → n < 2 ^ 32 → dec32 n < 2 ^ 32
dec32_small n h = omega arith

-- A counter goes down to 0 by k steps exactly from k.
minus32_zero : (n k : ℕ) → n < 2 ^ 32 → k < 2 ^ 32 → (minus32 n k ≡ 0) ↔ (n ≡ k)
unfolding minus32
minus32_zero n zero hn hk = (λ e. e, λ e. e)
minus32_zero n (suc k) hn hk =
    let (to, from) = minus32_zero (dec32 n) k (dec32_small n hn) (omega arith) in
    (λ e. omega (arith, to e), λ e. from (omega arith))

length-entry_pages : (n : ℕ) (tab : ℕ → ℕ) (pte : ℕ) → length (entry_pages n tab pte) ≤ n
unfolding entry_pages
length-entry_pages zero tab pte = omega arith
length-entry_pages (suc n) tab pte = elim (Bool-cases (frame (tab pte) == 0)) [
  | inl empty ↦ rw empty (omega (arith, length-entry_pages n tab (pte + 1)))
  | inr page ↦ rw page (omega (arith, length-entry_pages n tab (pte + 1)))
]

length-table_pages :
    (n : ℕ) (entries : ℕ → ℕ → ℕ) (page_dir pde : ℕ)
    → length (table_pages n entries page_dir pde) ≤ n * 1025
unfolding table_pages
length-table_pages zero entries page_dir pde = omega arith
length-table_pages (suc n) entries page_dir pde =
    let tab : ℕ = cast_p2v_or_null (frame (entries page_dir pde)) in
    let fewer = length-table_pages n entries page_dir (pde + 1) in
    elim (Bool-cases (tab == 0)) [
      | inl empty ↦ rw empty (omega (arith, fewer))
      | inr page ↦ rw page (
          omega (
            arith,
            fewer,
            length-entry_pages 1024 (entries tab) 0,
            length-append (entry_pages 1024 (entries tab) 0)
                (v2p tab / 4096 ∷ table_pages n entries page_dir (pde + 1)),
          ))
    ]

space_small : (entries : ℕ → ℕ → ℕ) (page_dir : ℕ) → length (space_pages entries page_dir) < 2 ^ 32
unfolding space_pages
space_small entries page_dir = omega (
  arith,
  length-append (table_pages 768 entries page_dir 0) (v2p page_dir / 4096 ∷ []),
  length-table_pages 768 entries page_dir 0,
)

-- The state in which the object of the process is given back.
abbrev pub Emptied : ℕ → List ℕ → Procs → Procs → Type 0
Emptied p pages s s' =
    (s'.slabs ≡ record s.slabs { pmm = give_back pages s.slabs.pmm })
    × (proc_free p s ≡ (
        slab_free s.proc_cache p s'.slabs >>= λ slabs.
        some (record s' { slabs = slabs; pids = release_pid (s.proc p).pid s.pids })))

-- For a process whose directory has each table once, and a count of pages of 32 bits, proc_free panics
-- where the count is not the number of the pages that its tables below KERNEL_BASE map, with the
-- tables and the directory. Otherwise it gives back exactly these pages, one after the other, then the
-- object of the process, and the pid, if there is one.
pub proc_free_lem :
    (p : ℕ) (s : Procs)
    → (s.proc p).page_dir ≢ 0
    → IsTree (s.proc p).page_dir (vm_of s)
    → (s.proc p).mem_pages < 2 ^ 32
    → (((s.proc p).mem_pages ≢ length (space_pages s.entries (s.proc p).page_dir))
        × (proc_free p s ≡ none))
      ⊎ (((s.proc p).mem_pages ≡ length (space_pages s.entries (s.proc p).page_dir))
          × ((s' : Procs) × Emptied p (space_pages s.entries (s.proc p).page_dir) s s'))
unfolding proc_free
proc_free_lem p s some_dir tree small =
    let proc = s.proc p in
    let pages = space_pages s.entries proc.page_dir in
    let r = free_space proc.page_dir (vm_of s, proc.mem_pages) in
    let gives = free_space-Gives proc.page_dir (vm_of s) tree proc.mem_pages in
    let (to, from) =
      minus32_zero proc.mem_pages (length pages) small (space_small s.entries proc.page_dir) in
    elim (ℕ_discrete proc.mem_pages (length pages)) [
      | yes all ↦
          let zero_left : r.1 ≡ 0 = gives.count ∙ from all in
          inr (
            all,
            (
              with_proc p (record proc { mem_pages = r.1 }) (with_vm r.0 s),
              (
                ap (λ m. record s.slabs { pmm = m }) gives.pmm,
                rw (null_ne proc.page_dir some_dir, zero_left) refl,
              ),
            ),
          )
      | no leak ↦ inl (
        leak,
        rw (null_ne proc.page_dir some_dir, null_ne r.1 (λ z. leak (to (sym gives.count ∙ z))))
            refl,
      )
    ]
