-- ===== src/Ktask.antt =====
-- kernel/ktask.c: the ring of kernel tasks. A task is known by its address; `task_head`, the address of
-- the static head, is an argument, and 0 is a null pointer. The process that runs the tasks is in Exec.
pub mod Chain
pub mod Ring
pub mod Round
pub mod Tests
use airix.Prelude.{
  ℕ, zero, suc, ◌+◌, ◌-◌, ◌*◌, ◌/◌, ◌%◌, ◌^◌, ◌≤◌, ◌<◌, min, ◌≡◌, refl, sym, ap, subst, ◌∙◌,
  fun_ext, ◌≢◌, ◌↔◌, ◌⊎◌, inl, inr, Bool, true, false, not, ◌&&◌, ◌||◌, Option, none, some, List,
  [], ◌∷◌, ◌++◌, map, reverse, arith, dec_lt, dec_le, ℕ_discrete, ltb, leb, ◌==◌, if◌then◌else◌,
  ltb→lt, lt→ltb, leb→le, le→leb, nle→leb, ==_iff, Bool-cases, Option-cases, tests, all_below,
  all_below_sound, length, get_elem?, get_or, set, take, drop, replicate, length-append, length-set,
  get_or-set_self, get_or-set_ne, length-take, length-replicate, test_bit, set_bit, clear_bit,
  update, update_self, update_ne, ◌>>=◌, >>=-eq-some, subst_some, nil_of_length, List-cases, Holds,
  Holds-some, Holds-bind, Holds-if, le16, le32, le64, zero_add, add_zero, add_suc, suc_add,
}

-- The fields of the tasks by address.
pub record Ktasks : Type 0 where
  pub task_func : ℕ → ℕ
  pub task_data : ℕ → ℕ
  pub prev : ℕ → ℕ
  pub next : ℕ → ℕ

-- The static value of `task_head`.
pub link_head : ℕ → Ktasks → Ktasks
link_head task_head s = record s {
  prev = update s.prev task_head task_head;
  next = update s.next task_head task_head;
}

pub ktask_register : ℕ → ℕ → Ktasks → Ktasks
ktask_register task_head task s =
    let prev = update s.prev task (s.prev task_head) in
    let next = update (update s.next task task_head) (prev task_head) task in
    record s { prev = update prev task_head task; next = next }

pub ktask_unregister : ℕ → Ktasks → Ktasks
ktask_unregister task s =
    let next = update s.next (s.prev task) (s.next task) in
    let prev = update s.prev (next task) (s.prev task) in
    record s { prev = update prev task 0; next = update next task 0 }

-- The inner loop of `ktask_main`, on fuel; `call` is the call of a task's function, which may change the
-- ring as well as the rest of the system.
pub run_tasks {ℓ} :
    {A : Type ℓ} → (ℕ → ℕ → Ktasks × A → Ktasks × A) → ℕ → ℕ → ℕ → Ktasks × A → Option (Ktasks × A)
run_tasks call task_head zero task s = none
run_tasks call task_head (suc fuel) task s =
    let s' = call (s.0.task_func task) (s.0.task_data task) s in
    let rest = run_tasks call task_head fuel (s'.0.next task) s' in
    if task == task_head then some s else rest

-- A round of `ktask_main` up to the call of the scheduler.
pub ktask_main_round {ℓ} :
    {A : Type ℓ} → (ℕ → ℕ → Ktasks × A → Ktasks × A) → ℕ → ℕ → Ktasks × A → Option (Ktasks × A)
ktask_main_round call task_head fuel s = run_tasks call task_head fuel (s.0.next task_head) s
