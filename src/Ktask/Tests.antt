-- ===== src/Ktask/Tests.antt =====
-- The theorem on rounds, at a ring of three tasks of which one is removed again.
use airix.Prelude.{ℕ, ◌+◌, ◌≡◌, refl, some, List, [], ◌∷◌, arith}
use airix.Slab.{unlink}
use airix.Ktask.{Ktasks, link_head, ktask_register, ktask_unregister, ktask_main_round}
use airix.Ktask.Round.{Reached, start, registered, unregistered, call_all, ktask_main_round_lem}

-- The tasks have their address as function and data; 1 is the head.
abbrev unlinked : Ktasks
unlinked = record { task_func = λ t. t; task_data = λ t. t + 100; prev = λ t. 0; next = λ t. 0 }

abbrev two_tasks : Ktasks
two_tasks =
    ktask_unregister 20
      (ktask_register 1 30 (ktask_register 1 20 (ktask_register 1 10 (link_head 1 unlinked))))

two_tasks-Reached : Reached 1 (10 ∷ (30 ∷ [])) two_tasks
unfolding unlink
two_tasks-Reached =
    unregistered 20 (10 ∷ (20 ∷ (30 ∷ []))) _
      (registered 30 (10 ∷ (20 ∷ [])) _
        (registered 20 (10 ∷ []) _ (registered 10 [] _ (start unlinked) refl) refl) refl)
      (omega arith)

-- A call is written down.
abbrev log_call : ℕ → ℕ → Ktasks × List ℕ → Ktasks × List ℕ
log_call f d s = (s.0, d ∷ s.1)

ktask_main_round_lem_example :
    ktask_main_round log_call 1 3 (two_tasks, []) ≡ some (two_tasks, 130 ∷ (110 ∷ []))
unfolding call_all ktask_unregister ktask_register link_head
ktask_main_round_lem_example =
    ktask_main_round_lem log_call (λ f d s. refl) 1 3 (10 ∷ (30 ∷ [])) (two_tasks, [])
      two_tasks-Reached (omega arith)
