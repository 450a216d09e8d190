-- ===== src/Pid.antt =====
-- kernel/process.c: the process ids. A byte of `pid_map` is a number below 256.
pub mod Bytes
pub mod Alloc
pub mod Tests
use airix.Prelude.{
  ℕ, zero, suc, ◌+◌, ◌-◌, ◌*◌, ◌/◌, ◌%◌, ◌^◌, ◌≤◌, ◌<◌, min, ◌≡◌, refl, sym, ap, subst, ◌∙◌,
  fun_ext, ◌≢◌, ◌↔◌, ◌⊎◌, inl, inr, Bool, true, false, not, ◌&&◌, ◌||◌, Option, none, some, List,
  [], ◌∷◌, ◌++◌, map, reverse, arith, dec_lt, dec_le, ℕ_discrete, ltb, leb, ◌==◌, if◌then◌else◌,
  ltb→lt, lt→ltb, leb→le, le→leb, nle→leb, ==_iff, Bool-cases, Option-cases, tests, all_below,
  all_below_sound, length, get_elem?, get_or, set, take, drop, replicate, length-append, length-set,
  get_or-set_self, get_or-set_ne, length-take, length-replicate, test_bit, set_bit, clear_bit,
  update, update_self, update_ne, ◌>>=◌, >>=-eq-some, subst_some, nil_of_length, List-cases, Holds,
  Holds-some, Holds-bind, Holds-if,
}

abbrev pub proc_max_num : ℕ
proc_max_num = 1024

-- `1 << k`.
abbrev pub shift_one : ℕ → ℕ
shift_one zero = 1
shift_one (suc k) = 2 * shift_one k

-- `pid_map` and `pid_gen`.
pub record Pids : Type 0 where
  pub pid_map : ℕ → ℕ
  pub pid_gen : ℕ

-- `pid_map[pid / 8] & (1 << (pid % 8))`.
pub is_used : ℕ → Pids → Bool
is_used pid s = test_bit (s.pid_map (pid / 8)) (shift_one (pid % 8))

-- The `for` of `alloc_pid`, on the number of rounds left; `none` is -1.
pub alloc_rounds : ℕ → Pids → Option ℕ × Pids
alloc_rounds zero s = (none, s)
alloc_rounds (suc n) s =
    let pid = s.pid_gen in
    let s' = record s { pid_gen = (pid + 1) % proc_max_num } in
    let rest = alloc_rounds n s' in
    if not (is_used pid s')
    then (
      some pid,
      record s' {
        pid_map = update s.pid_map (pid / 8) (set_bit (s.pid_map (pid / 8)) (shift_one (pid % 8)));
      },
    )
    else rest

pub alloc_pid : Pids → Option ℕ × Pids
alloc_pid s = alloc_rounds proc_max_num s

pub free_pid : ℕ → Pids → Pids
free_pid pid s = record s {
  pid_map = update s.pid_map (pid / 8) (clear_bit (s.pid_map (pid / 8)) (shift_one (pid % 8)));
}
