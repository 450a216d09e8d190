-- ===== src/Pid/Alloc.antt =====
-- What `alloc_pid` gives, and what `free_pid` takes back.
use airix.Prelude.{
  ℕ, zero, suc, ◌+◌, ◌-◌, ◌/◌, ◌%◌, ◌<◌, ◌≡◌, refl, sym, ap, ◌∙◌, ◌≢◌, ◌⊎◌, inl, inr, Bool, true,
  false, not, Option, none, some, arith, ℕ_discrete, if◌then◌else◌, test_bit, set_bit, update,
  update_self, update_ne,
}
use airix.Pid.{Pids, is_used, alloc_rounds, alloc_pid, free_pid, shift_one, proc_max_num}
use airix.Pid.Bytes.{set_at, set_other, clear_at, clear_other}

-- Only the id p is different afterwards, and its bit is b.
abbrev pub Turns : ℕ → Bool → Pids → Pids → Type 0
Turns p b s s' = (is_used p s' ≡ b) × ((q : ℕ) → p ≢ q → is_used q s' ≡ is_used q s)

-- The byte of p is changed to w.
turned :
    (p w gen : ℕ) (b : Bool) (s : Pids)
    → test_bit w (shift_one (p % 8)) ≡ b
    → ((j : ℕ) → p % 8 ≢ j → test_bit w (shift_one j) ≡ test_bit (s.pid_map (p / 8)) (shift_one j))
    → Turns p b s (record { pid_map = update s.pid_map (p / 8) w; pid_gen = gen })
unfolding is_used
turned p w gen b s at others = (
  ap (λ v. test_bit v (shift_one (p % 8))) (update_self s.pid_map (p / 8) w) ∙ at,
  λ q ne. elim (ℕ_discrete (p / 8) (q / 8)) [
    | no far ↦ ap (λ v. test_bit v (shift_one (q % 8))) (update_ne s.pid_map (p / 8) (q / 8) w far)
    | yes near ↦
        let apart : p % 8 ≢ q % 8 = λ e. ne (omega arith) in
        ap (λ k. test_bit (update s.pid_map (p / 8) w k) (shift_one (q % 8))) (sym near)
        ∙ ap (λ v. test_bit v (shift_one (q % 8))) (update_self s.pid_map (p / 8) w)
        ∙ others (q % 8) apart
        ∙ ap (λ k. test_bit (s.pid_map k) (shift_one (q % 8))) near
  ],
)

-- `free_pid` makes exactly the id free.
pub free_pid-Turns : (p : ℕ) (s : Pids) → Turns p false s (free_pid p s)
unfolding free_pid
free_pid-Turns p s =
    turned p _ s.pid_gen false s (clear_at (s.pid_map (p / 8)) (p % 8))
      (λ j ne. clear_other (s.pid_map (p / 8)) (p % 8) j ne)

-- How `alloc_pid` ends: no id is free and the map stays; or an id that was free is in use, and is the
-- first free one from the generator on, which stands behind it.
abbrev pub Given : ℕ → Pids → Option ℕ × Pids → Type 0
Given n s (none, s') =
    ((i : ℕ) → i < n → is_used ((s.pid_gen + i) % proc_max_num) s ≡ true) × (s'.pid_map ≡ s.pid_map)
Given n s (some p, s') =
    (p < proc_max_num)
    × (is_used p s ≡ false)
    × Turns p true s s'
    × (s'.pid_gen ≡ (p + 1) % proc_max_num)

-- A round that meets an id in use.
pass :
    (n : ℕ) (s : Pids) (r : Option ℕ × Pids)
    → s.pid_gen < proc_max_num
    → is_used s.pid_gen s ≡ true
    → Given n (record s { pid_gen = (s.pid_gen + 1) % proc_max_num }) r
    → Given (suc n) s r
unfolding is_used
pass n s (some p, s') h used given = given
pass n s (none, s') h used (all, kept) = (go, kept)
  where
    go : (i : ℕ) → i < suc n → is_used ((s.pid_gen + i) % proc_max_num) s ≡ true
    go zero lt =
        ap (λ q. is_used q s) {x = (s.pid_gen + 0) % 1024} {y = s.pid_gen} (omega arith) ∙ used
    go (suc i) lt =
        ap (λ q. is_used q s) {x = (s.pid_gen + suc i) % 1024}
          {y = ((s.pid_gen + 1) % 1024 + i) % 1024} (omega arith)
        ∙ all i (omega arith)

alloc_rounds-Given : (n : ℕ) (s : Pids) → s.pid_gen < proc_max_num → Given n s (alloc_rounds n s)
unfolding alloc_rounds is_used
alloc_rounds-Given zero s h = ((λ i lt. absurd (omega arith)), refl)
alloc_rounds-Given (suc n) s h =
    branch (is_used s.pid_gen s)
      (
        some s.pid_gen,
        record {
          pid_map =
              update s.pid_map (s.pid_gen / 8)
                (set_bit (s.pid_map (s.pid_gen / 8)) (shift_one (s.pid_gen % 8)));
          pid_gen = (s.pid_gen + 1) % proc_max_num;
        },
      )
      (alloc_rounds n (record s { pid_gen = (s.pid_gen + 1) % proc_max_num }))
      (λ used. pass n s _ h used (
        alloc_rounds-Given n (record s { pid_gen = (s.pid_gen + 1) % proc_max_num }) (omega arith)))
      (λ unused. (
        h,
        unused,
        turned s.pid_gen _ ((s.pid_gen + 1) % proc_max_num) true s
            (set_at (s.pid_map (s.pid_gen / 8)) (s.pid_gen % 8))
            (λ j ne. set_other (s.pid_map (s.pid_gen / 8)) (s.pid_gen % 8) j ne),
        refl,
      ))
  where
    branch :
        (b : Bool) (taken rest : Option ℕ × Pids)
        → (b ≡ true → Given (suc n) s rest)
        → (b ≡ false → Given (suc n) s taken)
        → Given (suc n) s (if not b then taken else rest)
    branch true taken rest p q = p refl
    branch false taken rest p q = q refl

-- With the generator below 1024, `alloc_pid` either fails, with every id below 1024 in use and the map
-- as it was, or gives an id below 1024 that was free; exactly that id is in use afterwards that was not
-- before, and the generator stands behind it.
pub alloc_pid_lem :
    (s : Pids)
    → s.pid_gen < 1024
    → (((alloc_pid s).0 ≡ none)
        × ((p : ℕ) → p < 1024 → is_used p s ≡ true)
        × ((alloc_pid s).1.pid_map ≡ s.pid_map))
      ⊎ ((p : ℕ) × ((alloc_pid s).0 ≡ some p)
          × (p < 1024)
          × (is_used p s ≡ false)
          × Turns p true s (alloc_pid s).1
          × ((alloc_pid s).1.pid_gen ≡ (p + 1) % 1024))
unfolding alloc_pid
alloc_pid_lem s h = read (alloc_rounds 1024 s) (alloc_rounds-Given 1024 s h)
  where
    read :
        (r : Option ℕ × Pids)
        → Given 1024 s r
        → ((r.0 ≡ none) × ((p : ℕ) → p < 1024 → is_used p s ≡ true) × (r.1.pid_map ≡ s.pid_map))
          ⊎ ((p : ℕ) × (r.0 ≡ some p)
              × (p < 1024)
              × (is_used p s ≡ false)
              × Turns p true s r.1
              × (r.1.pid_gen ≡ (p + 1) % 1024))
    read (some p, s') (below, unused, turns, gen) = inr (p, refl, below, unused, turns, gen)
    read (none, s') (all, kept) = inl (
      refl,
      (λ p lt.
          ap (λ q. is_used q s) {x = p} {y = (s.pid_gen + (p + 1024 - s.pid_gen) % 1024) % 1024}
            (omega arith)
          ∙ all ((p + 1024 - s.pid_gen) % 1024) (omega arith)),
      kept,
    )
