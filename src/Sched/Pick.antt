-- ===== src/Sched/Pick.antt =====
-- find_runnable of kernel/scheduler.c, from the pointer to the end of the ring.
use airix.Prelude.{
  ℕ, zero, suc, ◌≤◌, ◌≡◌, refl, sym, ap, ◌∙◌, ◌⊎◌, inl, inr, true, ◌||◌, Option, some, List, [],
  ◌∷◌, ◌++◌, arith, ℕ_discrete, ◌==◌, length,
}
use airix.Pmm.Cover.{memb}
use airix.Slab.{unlink}
use airix.Bio.{ProcState, proc_state_running, proc_state_io, proc_state_dead}
use airix.Sched.{Sched, first, after, find_runnable, sched_remove}
use airix.Sched.Ring.{count, count-append, count_self, unlink_middle, after_middle, memb-append}

abbrev pub Distinct : List ℕ → Type 0
Distinct xs = (y : ℕ) → count y xs ≤ 1

-- Processes have left the ring only if they were dead, and have then been freed; no other has been
-- freed, none has come, and no state has changed.
pub record Left (s s' : Sched) : Type 0 where
  pub same : s'.state ≡ s.state
  pub old : (y : ℕ) → memb y s'.procs ≡ true → memb y s.procs ≡ true
  pub stays :
      (y : ℕ)
      → memb y s.procs ≡ true
      → (memb y s'.procs ≡ true) ⊎ ((s.state y ≡ proc_state_dead) × (memb y s'.freed ≡ true))
  pub gone :
      (y : ℕ) → memb y s'.freed ≡ true → (memb y s.freed ≡ true) ⊎ (s.state y ≡ proc_state_dead)
  pub kept : (y : ℕ) → memb y s.freed ≡ true → memb y s'.freed ≡ true
  pub distinct : Distinct s'.procs

pub Left-refl : (s : Sched) → Distinct s.procs → Left s s
Left-refl s d = record {
  same = refl;
  old = λ y m. m;
  stays = λ y m. inl m;
  gone = λ y m. inl m;
  kept = λ y m. m;
  distinct = d;
}

pub Left-trans : (s t u : Sched) → Left s t → Left t u → Left s u
Left-trans s t u a b = record {
  same = b.same ∙ a.same;
  old = λ y m. a.old y (b.old y m);
  stays = λ y m. elim (a.stays y m) [
    | inl here ↦ elim (b.stays y here) [
      | inl still ↦ inl still
      | inr (dead, f) ↦ inr (sym (ap (λ g. g y) a.same) ∙ dead, f)
    ]
    | inr (dead, f) ↦ inr (dead, b.kept y f)
  ];
  gone = λ y m. elim (b.gone y m) [
    | inl f ↦ a.gone y f
    | inr dead ↦ inr (sym (ap (λ g. g y) a.same) ∙ dead)
  ];
  kept = λ y m. b.kept y (a.kept y m);
  distinct = b.distinct;
}

pub ProcState-cases :
    (p : ProcState) → (p ≡ proc_state_running) ⊎ ((p ≡ proc_state_io) ⊎ (p ≡ proc_state_dead))
ProcState-cases proc_state_running = inl refl
ProcState-cases proc_state_io = inr (inl refl)
ProcState-cases proc_state_dead = inr (inr refl)

abbrev pub reaped : ℕ → Sched → Sched
reaped x s = record (sched_remove x s) { freed = x ∷ s.freed }

-- A dead process is taken out of the ring.
pub reaped-Left :
    (x : ℕ) (front back : List ℕ) (s : Sched)
    → s.procs ≡ front ++ (x ∷ back)
    → Distinct s.procs
    → s.state x ≡ proc_state_dead
    → ((reaped x s).procs ≡ front ++ back) × (after x s.procs ≡ first back) × Left s (reaped x s)
unfolding sched_remove memb
reaped-Left x front back s e d dead = (
  shorter,
  ap (after x) e ∙ after_middle x front back alone.0,
  record {
    same = refl;
    old = λ y m. let (a, b) = parts y in ground (arith, a, b);
    stays = λ y m. elim (ℕ_discrete x y) [
      | yes xy ↦ inr (ap s.state (sym xy) ∙ dead, ground arith)
      | no ne ↦ let (a, b) = parts y in inl (ground (arith, a, b))
    ];
    gone = λ y m. elim (ℕ_discrete x y) [
      | yes xy ↦ inr (ap s.state (sym xy) ∙ dead)
      | no ne ↦ inl (ground arith)
    ];
    kept = λ y m. ground arith;
    distinct = λ y. omega (
      arith,
      d y,
      ap (count y) e,
      ap (count y) shorter,
      count-append y front (x ∷ back),
      count-append y front back,
    );
  },
)
  where
    alone : (count x front ≡ 0) × (count x back ≡ 0)
    alone = omega (arith, d x, ap (count x) e, count-append x front (x ∷ back), count_self x back)

    shorter : unlink x s.procs ≡ front ++ back
    shorter = ap (unlink x) e ∙ unlink_middle x front back alone.0 alone.1

    parts :
        (y : ℕ)
        → (memb y s.procs ≡ memb y front || ((x == y) || memb y back))
          × (memb y (unlink x s.procs) ≡ memb y front || memb y back)
    parts y = (
      ap (memb y) e ∙ memb-append y front (x ∷ back),
      ap (memb y) shorter ∙ memb-append y front back,
    )

-- A process is found among those from the pointer to the end of the ring, if one of them may run.
abbrev pub Found : ℕ → Option ℕ → Sched → Type 0
Found fuel at s =
    (q : ℕ) × (s' : Sched) × (find_runnable fuel at s ≡ some (q, s'))
    × (s.state q ≡ proc_state_running)
    × (memb q s'.procs ≡ true)
    × Left s s'

pub running_io : proc_state_running ≡ proc_state_io → ⊥
running_io e = cc

pub running_dead : proc_state_running ≡ proc_state_dead → ⊥
running_dead e = cc

pub append_step : (x : ℕ) (xs ys : List ℕ) → xs ++ (x ∷ ys) ≡ (xs ++ (x ∷ [])) ++ ys
append_step x [] ys = refl
append_step x (z ∷ xs) ys = ap (λ l. z ∷ l) (append_step x xs ys)

pub front_memb :
    (x : ℕ) (front back : List ℕ) (s : Sched)
    → s.procs ≡ front ++ (x ∷ back)
    → memb x s.procs ≡ true
unfolding memb
front_memb x front back s e =
    let a = ap (memb x) e ∙ memb-append x front (x ∷ back) in ground (arith, a)

rest_memb :
    (x r : ℕ) (back : List ℕ) (s : Sched)
    → memb r (x ∷ back) ≡ true
    → (x ≡ r → ⊥)
    → memb r back ≡ true
unfolding memb
rest_memb x r back s m ne = ground arith

pub io_next :
    (x : ℕ) (front back : List ℕ) (s : Sched)
    → s.procs ≡ front ++ (x ∷ back)
    → Distinct s.procs
    → after x s.procs ≡ first back
io_next x front back s e d =
    ap (after x) e
    ∙ after_middle x front back
        (omega (arith, d x, ap (count x) e, count-append x front (x ∷ back), count_self x back))

pub find_ahead :
    (back front : List ℕ) (fuel r : ℕ) (s : Sched)
    → s.procs ≡ front ++ back
    → Distinct s.procs
    → memb r back ≡ true
    → s.state r ≡ proc_state_running
    → length back ≤ fuel
    → Found fuel (first back) s
unfolding find_runnable memb first sched_remove
find_ahead [] front fuel r s e d m run h = cc
find_ahead (x ∷ back) front zero r s e d m run h = absurd (omega arith)
find_ahead (x ∷ back) front (suc fuel) r s e d m run h = elim (ProcState-cases (s.state x)) [
  | inl running ↦
      (x, s, rw (running, find_runnable) refl, running, front_memb x front back s e, Left-refl s d)
  | inr (inl io) ↦
      let (q, s', found, ok, here, left) =
        find_ahead back (front ++ (x ∷ [])) fuel r s (e ∙ append_step x front back) d
          (rest_memb x r back s m (λ xr. running_io (sym run ∙ ap s.state (sym xr) ∙ io))) run
          (omega arith) in
      (q, s', rw (io, find_runnable) (rw (io_next x front back s e d) found), ok, here, left)
  | inr (inr dead) ↦
      let (shorter, next, step) = reaped-Left x front back s e d dead in
      let (q, s', found, ok, here, left) =
        find_ahead back front fuel r (reaped x s) shorter step.distinct
          (rest_memb x r back s m (λ xr. running_dead (sym run ∙ ap s.state (sym xr) ∙ dead))) run
          (omega arith) in
      (
        q,
        s',
        rw (dead, find_runnable) (rw next found),
        ok,
        here,
        Left-trans s (reaped x s) s' step left,
      )
]
