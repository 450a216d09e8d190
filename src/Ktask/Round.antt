-- ===== src/Ktask/Round.antt =====
-- kernel/ktask.c: what a round of `ktask_main` calls.
use airix.Prelude.{
  ℕ, zero, suc, ◌≤◌, ◌<◌, ◌≡◌, refl, sym, ap, subst, ◌∙◌, true, false, some, List, [], ◌∷◌, ◌++◌,
  arith, ℕ_discrete, ◌==◌, ==_iff, length, update_self,
}
use airix.Slab.{unlink}
use airix.Sched.Ring.{count, count-append, count_self, unlink_middle}
use airix.Ktask.{Ktasks, link_head, ktask_register, ktask_unregister, run_tasks, ktask_main_round}
use airix.Ktask.Chain.{Chain}
use airix.Ktask.Ring.{IsRing, ktask_register-IsRing, ktask_unregister-IsRing}

-- The states that registrations and removals lead to, with the tasks that are registered: no task is
-- registered twice or at the head's address, and only a task that is registered is removed.
pub data Reached (head : ℕ) : List ℕ → Ktasks → Type 0 where
  start : (s : Ktasks) → Reached head [] (link_head head s)
  registered :
      (t : ℕ) (xs : List ℕ) (s : Ktasks)
      → Reached head xs s
      → count t (head ∷ xs) ≡ 0
      → Reached head (xs ++ (t ∷ [])) (ktask_register head t s)
  unregistered :
      (t : ℕ) (xs : List ℕ) (s : Ktasks)
      → Reached head xs s
      → 1 ≤ count t xs
      → Reached head (unlink t xs) (ktask_unregister t s)

-- A task in a list, with what stands before it and behind it.
found :
    (t : ℕ) (xs : List ℕ) → 1 ≤ count t xs → (us : List ℕ) × (vs : List ℕ) × (xs ≡ us ++ (t ∷ vs))
found t [] h = absurd (omega arith)
found t (x ∷ xs) h = elim (ℕ_discrete x t) [
  | yes e ↦ ([], xs, ap (λ k. k ∷ xs) e)
  | no ne ↦ let (us, vs, e) = found t xs (ground arith) in (x ∷ us, vs, ap (λ k. x ∷ k) e)
]

removed :
    (head t : ℕ) (xs : List ℕ) (s : Ktasks)
    → IsRing head xs s
    → 1 ≤ count t xs
    → IsRing head (unlink t xs) (ktask_unregister t s)
removed head t xs s ring here =
    let (us, vs, e) = found t xs here in
    let ring' = subst (λ k. IsRing head k s) e ring in
    let once = ring'.1 t in
    let parts = count-append t us (t ∷ vs) in
    let gone : unlink t xs ≡ us ++ vs =
      ap (unlink t) e ∙ unlink_middle t us vs (ground arith) (ground arith) in
    subst (λ k. IsRing head k (ktask_unregister t s)) (sym gone)
      (ktask_unregister-IsRing head t us vs s ring')

pub Reached-IsRing : (head : ℕ) (xs : List ℕ) (s : Ktasks) → Reached head xs s → IsRing head xs s
unfolding link_head
Reached-IsRing head xs s (start s') =
    ((update_self s'.next head head, update_self s'.prev head head), λ y. ground arith)
Reached-IsRing head xs s (registered t ys s' before new) =
    ktask_register-IsRing head t ys s' new (Reached-IsRing head ys s' before)
Reached-IsRing head xs s (unregistered t ys s' before here) =
    removed head t ys s' (Reached-IsRing head ys s' before) here

module _ {ℓ} {A : Type ℓ} (call : ℕ → ℕ → Ktasks × A → Ktasks × A) where
  -- The functions of the tasks, called one after the other with their data.
  unfoldable pub call_all : List ℕ → Ktasks × A → Ktasks × A
  call_all [] s = s
  call_all (x ∷ xs) s = call_all xs (call (s.0.task_func x) (s.0.task_data x) s)

  run-Chain :
      ((f d : ℕ) (s : Ktasks × A) → (call f d s).0 ≡ s.0)
      → (head a fuel : ℕ) (xs : List ℕ) (s : Ktasks × A) → Chain s.0.prev s.0.next a xs head
      → count head xs ≡ 0
      → length xs < fuel
      → run_tasks call head fuel (s.0.next a) s ≡ some (call_all xs s)
  unfolding run_tasks call_all
  run-Chain quiet head a zero xs s chain off enough = absurd (omega arith)
  run-Chain quiet head a (suc fuel) [] s (n, p) off enough =
      let stop : (s.0.next a == head) ≡ true = (==_iff (s.0.next a) head).1 n in rw stop refl
  run-Chain quiet head a (suc fuel) (x ∷ xs) s (n, p, rest) off enough =
      let s' = call (s.0.task_func x) (s.0.task_data x) s in
      let on : (x == head) ≡ false = ground arith in
      rw (n, on)
        (run-Chain quiet head x fuel xs s'
          (subst (λ k. Chain k.prev k.next x xs head) (sym (quiet _ _ s)) rest) (ground arith)
          (ground arith))

  -- After registrations and removals, with functions of the tasks that leave the ring as it is, a round
  -- of `ktask_main` ends on a fuel above the number of tasks, and has called the functions of the tasks
  -- that are registered and of no others, once each and in the order of their registration.
  pub ktask_main_round_lem :
      ((f d : ℕ) (s : Ktasks × A) → (call f d s).0 ≡ s.0)
      → (head fuel : ℕ) (xs : List ℕ) (s : Ktasks × A) → Reached head xs s.0
      → length xs < fuel
      → ktask_main_round call head fuel s ≡ some (call_all xs s)
  unfolding ktask_main_round
  ktask_main_round_lem quiet head fuel xs s reached enough =
      let ring = Reached-IsRing head xs s.0 reached in
      run-Chain quiet head head fuel xs s ring.0 (omega (arith, ring.1 head, count_self head xs))
        enough
