-- ===== src/Sched/Round.antt =====
-- A round of scheduler of kernel/scheduler.c.
use airix.Prelude.{
  ℕ, zero, suc, ◌+◌, ◌*◌, ◌≤◌, ◌<◌, ◌≡◌, refl, sym, ap, subst, ◌∙◌, ◌⊎◌, inl, inr, true, none, some,
  List, [], ◌∷◌, ◌++◌, arith, ℕ_discrete, Option-cases, length, length-append,
}
use airix.Pmm.Cover.{memb}
use airix.Bio.{proc_state_running}
use airix.Sched.{Sched, first, find_runnable, sched_remove, scheduler, next_node}
use airix.Sched.Pick.{
  Distinct, Left, Left-refl, Left-trans, ProcState-cases, reaped, reaped-Left, Found, find_ahead,
  append_step, front_memb, io_next, running_dead,
}

-- The search goes round the ring once at most.
find_around :
    (back front : List ℕ) (fuel r : ℕ) (s : Sched)
    → s.procs ≡ front ++ back
    → Distinct s.procs
    → memb r s.procs ≡ true
    → s.state r ≡ proc_state_running
    → length back + (length front + length back) + 1 ≤ fuel
    → Found fuel (first back) s
unfolding find_runnable first sched_remove
find_around back front zero r s e d m run h = absurd (omega arith)
find_around [] front (suc fuel) r s e d m run h =
    find_ahead s.procs [] fuel r s refl d m run (omega (arith, ap length e, length-append front []))
find_around (x ∷ back) front (suc fuel) r s e d m run h = elim (ProcState-cases (s.state x)) [
  | inl running ↦
      (x, s, rw (running, find_runnable) refl, running, front_memb x front back s e, Left-refl s d)
  | inr (inl io) ↦
      let (q, s', found, ok, here, left) =
        find_around back (front ++ (x ∷ [])) fuel r s (e ∙ append_step x front back) d m run
          (omega (arith, length-append front (x ∷ []))) in
      (q, s', rw (io, find_runnable) (rw (io_next x front back s e d) found), ok, here, left)
  | inr (inr dead) ↦
      let (shorter, next, step) = reaped-Left x front back s e d dead in
      let still : memb r (reaped x s).procs ≡ true = elim (step.stays r m) [
        | inl here ↦ here
        | inr (gone, f) ↦ absurd (running_dead (sym run ∙ gone))
      ] in
      let (q, s', found, ok, here, left) =
        find_around back front fuel r (reaped x s) shorter step.distinct still run (omega arith) in
      (
        q,
        s',
        rw (dead, find_runnable) (rw next found),
        ok,
        here,
        Left-trans s (reaped x s) s' step left,
      )
]

-- The ring before and after a process.
split_at :
    (c : ℕ) (xs : List ℕ)
    → memb c xs ≡ true
    → (front : List ℕ) × (back : List ℕ) × (xs ≡ front ++ (c ∷ back))
unfolding memb
split_at c [] m = cc
split_at c (x ∷ xs) m = elim (ℕ_discrete x c) [
  | yes e ↦ ([], xs, ap (λ z. z ∷ xs) e)
  | no ne ↦
      let (front, back, e) = split_at c xs (ground arith) in (x ∷ front, back, ap (λ l. x ∷ l) e)
]

-- In a ring without repetition, with the current process, if there is one, in it and some process
-- that may run, a round of the scheduler ends, on fuel above twice the length of the ring. It
-- switches to a process of the ring that may run; a process that has left the ring was dead and is
-- freed, one that has been freed was dead, and no state has changed.
pub scheduler_lem :
    (fuel r : ℕ) (s : Sched)
    → Distinct s.procs
    → ((c : ℕ) → s.current_proc ≡ some c → memb c s.procs ≡ true)
    → memb r s.procs ≡ true
    → s.state r ≡ proc_state_running
    → 2 * length s.procs < fuel
    → (q : ℕ) × (s' : Sched) × (scheduler fuel s ≡ some (q, s'))
      × (s'.current_proc ≡ some q)
      × (s.state q ≡ proc_state_running)
      × (memb q s'.procs ≡ true)
      × Left s s'
unfolding scheduler
scheduler_lem fuel r s d inside m run h =
    let (q, s', found, ok, here, left) = start (Option-cases s.current_proc) in
    (
      q,
      record s' { current_proc = some q },
      rw found refl,
      refl,
      ok,
      here,
      record {
        same = left.same;
        old = left.old;
        stays = left.stays;
        gone = left.gone;
        kept = left.kept;
        distinct = left.distinct;
      },
    )
  where
    start :
        (s.current_proc ≡ none) ⊎ ((c : ℕ) × (s.current_proc ≡ some c))
        → Found fuel (next_node s.current_proc s.procs) s
    start (inl e) =
        subst (λ at. Found fuel at s) (sym (ap (λ c. next_node c s.procs) e))
          (find_around s.procs [] fuel r s refl d m run (omega arith))
    start (inr (c, e)) =
        let (front, back, split) = split_at c s.procs (inside c e) in
        subst (λ at. Found fuel at s)
          (sym (ap (λ k. next_node k s.procs) e ∙ io_next c front back s split d))
          (find_around back (front ++ (c ∷ [])) fuel r s (split ∙ append_step c front back) d m run
            (omega (
              arith,
              length-append front (c ∷ []),
              ap length split,
              length-append front (c ∷ back),
            )))
