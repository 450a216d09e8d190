-- ===== src/Ktask/Ring.antt =====
-- kernel/ktask.c: the ring of kernel tasks as a list.
use airix.Prelude.{
  ℕ, ◌≤◌, ◌≡◌, sym, ap, subst, ◌∙◌, ◌≢◌, List, [], ◌∷◌, ◌++◌, arith, ℕ_discrete, update,
  update_self, update_ne,
}
use airix.Sched.Ring.{count, count-append}
use airix.Ktask.{Ktasks, ktask_register, ktask_unregister}
use airix.Ktask.Chain.{
  Chain, IsDistinct, ne_of, IsDistinct-tail, Chain-split, Chain-join, end_in, start_in, Chain-kept,
}

-- The ring of the head and the tasks xs.
abbrev pub IsRing : ℕ → List ℕ → Ktasks → Type 0
IsRing head xs s = Chain s.prev s.next head xs head × IsDistinct (head ∷ xs)

-- The end of a chain is moved to a node that is not in it: `prev'` and `next'` are the fields afterwards.
retarget :
    (prev next prev' next' : ℕ → ℕ) (a b t : ℕ) (xs : List ℕ)
    → IsDistinct (a ∷ xs)
    → next' (prev b) ≡ t
    → prev' t ≡ prev b
    → ((y : ℕ) → 1 ≤ count y (a ∷ xs) → prev b ≢ y → next' y ≡ next y)
    → ((y : ℕ) → 1 ≤ count y xs → prev' y ≡ prev y)
    → Chain prev next a xs b
    → Chain prev' next' a xs t
retarget prev next prev' next' a b t [] d last back same_n same_p (n, p) =
    (ap next' (sym p) ∙ last, back ∙ p)
retarget prev next prev' next' a b t (x ∷ xs) d last back same_n same_p (n, p, rest) =
    let within = end_in prev next x b xs rest in
    let apart = ne_of a (prev b) (x ∷ xs) d within in
    (
      same_n a (ground arith) (λ e. apart (sym e)) ∙ n,
      same_p x (ground arith) ∙ p,
      retarget prev next prev' next' x b t xs (IsDistinct-tail a (x ∷ xs) d) last back
          (λ y h ne. same_n y (ground arith) ne) (λ y h. same_p y (ground arith)) rest,
    )

register-IsDistinct :
    (head t : ℕ) (xs : List ℕ)
    → IsDistinct (head ∷ xs)
    → count t (head ∷ xs) ≡ 0
    → IsDistinct (head ∷ (xs ++ (t ∷ [])))
register-IsDistinct head t xs d new y =
    let e = count-append y xs (t ∷ []) in
    let once = d y in
    elim (ℕ_discrete t y) [
      | yes same ↦
          let zero_count : count y (head ∷ xs) ≡ 0 =
            subst (λ k. count k (head ∷ xs) ≡ 0) same new in
          ground (arith, e, zero_count)
      | no other ↦ ground (arith, e, once)
    ]

absent_ne : (t y : ℕ) (zs : List ℕ) → count t zs ≡ 0 → 1 ≤ count y zs → t ≢ y
absent_ne t y zs none_here here e =
    let both : count y zs ≡ 0 = subst (λ k. count k zs ≡ 0) e none_here in omega arith

-- A task that is registered stands at the end of the ring.
pub ktask_register-IsRing :
    (head t : ℕ) (xs : List ℕ) (s : Ktasks)
    → count t (head ∷ xs) ≡ 0
    → IsRing head xs s
    → IsRing head (xs ++ (t ∷ [])) (ktask_register head t s)
unfolding ktask_register
ktask_register-IsRing head t xs s new (chain, d) =
    let off : t ≢ head = absent_ne t head (head ∷ xs) new (ground arith) in
    let last = s.prev head in
    let within : 1 ≤ count last (head ∷ xs) = end_in s.prev s.next head head xs chain in
    let apart : t ≢ last = absent_ne t last (head ∷ xs) new within in
    let prev1 = update s.prev t last in
    let prev2 = update prev1 head t in
    let next1 = update s.next t head in
    let next2 = update next1 (prev1 head) t in
    let same : prev1 head ≡ last = update_ne s.prev t head last off in
    (
      Chain-join prev2 next2 head t head xs []
          (retarget s.prev s.next prev2 next2 head head t xs d
            (ap next2 (sym same) ∙ update_self next1 (prev1 head) t)
            (update_ne prev1 head t t (λ e. off (sym e)) ∙ update_self s.prev t last)
            (λ y h ne.
              update_ne next1 (prev1 head) y t (λ e. ne (sym same ∙ e))
              ∙ update_ne s.next t y head (absent_ne t y (head ∷ xs) new h))
            (λ y h.
              update_ne prev1 head y t (ne_of head y xs d h)
              ∙ update_ne s.prev t y last (absent_ne t y (head ∷ xs) new (ground arith)))
            chain)
          (
            update_ne next1 (prev1 head) t t (λ e. apart (sym e ∙ same))
                ∙ update_self s.next t head,
            update_self prev1 head t,
          ),
      register-IsDistinct head t xs d new,
    )

in_middle : (t : ℕ) (xs ys : List ℕ) → 1 ≤ count t (xs ++ (t ∷ ys))
in_middle t xs ys = ground (arith, count-append t xs (t ∷ ys))

-- A node between a and b is taken out: `prev'` and `next'` are the fields afterwards.
unlink-Chain :
    (prev next prev' next' : ℕ → ℕ) (a t b : ℕ) (xs ys : List ℕ)
    → IsDistinct (a ∷ (xs ++ (t ∷ ys)))
    → IsDistinct (xs ++ (t ∷ (ys ++ (b ∷ []))))
    → next' (prev t) ≡ next t
    → prev' (next t) ≡ prev t
    → ((y : ℕ) → t ≢ y → prev t ≢ y → next' y ≡ next y)
    → ((y : ℕ) → t ≢ y → next t ≢ y → prev' y ≡ prev y)
    → Chain prev next a xs t
    → Chain prev next t ys b
    → Chain prev' next' a (xs ++ ys) b
unlink-Chain prev next prev' next' a t b [] [] d d' over back same_n same_p (n, p) (n', p') =
    (ap next' (sym p) ∙ over ∙ n', ap prev' (sym n') ∙ back ∙ p)
unlink-Chain prev next prev' next' a t b [] (y ∷ ys) d d' over back same_n same_p (n, p)
      (n', p', rest) =
    let d2 = IsDistinct-tail t (y ∷ (ys ++ (b ∷ []))) d' in
    (
      ap next' (sym p) ∙ over ∙ n',
      ap prev' (sym n') ∙ back ∙ p,
      Chain-kept prev next prev' next' y b ys
          (λ k h.
            same_n k (ne_of t k (y ∷ ys) (IsDistinct-tail a (t ∷ (y ∷ ys)) d) h)
              (λ e. ne_of a k (t ∷ (y ∷ ys)) d (ground arith) (sym p ∙ e)))
          (λ k h.
            same_p k (ne_of t k (y ∷ (ys ++ (b ∷ []))) d' (ground arith))
              (λ e. ne_of y k (ys ++ (b ∷ [])) d2 h (sym n' ∙ e)))
          rest,
    )
unlink-Chain prev next prev' next' a t b (x ∷ xs) ys d d' over back same_n same_p (n, p, front)
      rest =
    let before = end_in prev next x t xs front in
    let behind = start_in prev next t b ys rest in
    let end = t ∷ (ys ++ (b ∷ [])) in
    (
      same_n a (λ e. ne_of a t (x ∷ (xs ++ (t ∷ ys))) d (in_middle t (x ∷ xs) ys) (sym e))
            (λ e.
              ne_of a (prev t) (x ∷ (xs ++ (t ∷ ys))) d
                (omega (arith, count-append (prev t) (x ∷ xs) (t ∷ ys))) (sym e))
          ∙ n,
      same_p x (λ e. ne_of x t (xs ++ end) d' (in_middle t xs (ys ++ (b ∷ []))) (sym e))
            (λ e.
              ne_of x (next t) (xs ++ end) d' (ground (arith, behind, count-append (next t) xs end))
                (sym e))
          ∙ p,
      unlink-Chain prev next prev' next' x t b xs ys (IsDistinct-tail a (x ∷ (xs ++ (t ∷ ys))) d)
          (IsDistinct-tail x (xs ++ end) d') over back same_n same_p front rest,
    )

-- What is in two parts of a list of different nodes is different.
parts_ne :
    (c e : ℕ) (us vs : List ℕ) → IsDistinct (us ++ vs) → 1 ≤ count c us → 1 ≤ count e vs → c ≢ e
parts_ne c e us vs d left right same =
    let both : 1 ≤ count c vs = subst (λ k. 1 ≤ count k vs) (sym same) right in
    omega (arith, d c, count-append c us vs)

rotated :
    (head t : ℕ) (xs ys : List ℕ)
    → IsDistinct (head ∷ (xs ++ (t ∷ ys)))
    → IsDistinct (xs ++ (t ∷ (ys ++ (head ∷ []))))
rotated head t xs ys d y =
    let front = count-append y xs (t ∷ ys) in
    let whole = count-append y xs (t ∷ (ys ++ (head ∷ []))) in
    let back = count-append y ys (head ∷ []) in ground (arith, d y, front, whole, back)

unregister-IsDistinct :
    (head t : ℕ) (xs ys : List ℕ)
    → IsDistinct (head ∷ (xs ++ (t ∷ ys)))
    → IsDistinct (head ∷ (xs ++ ys))
unregister-IsDistinct head t xs ys d y =
    let front = count-append y xs (t ∷ ys) in
    let whole = count-append y xs ys in ground (arith, d y, front, whole)

-- A task that is unregistered is out of the ring.
pub ktask_unregister-IsRing :
    (head t : ℕ) (xs ys : List ℕ) (s : Ktasks)
    → IsRing head (xs ++ (t ∷ ys)) s
    → IsRing head (xs ++ ys) (ktask_unregister t s)
unfolding ktask_unregister
ktask_unregister-IsRing head t xs ys s (chain, d) =
    let (front, rest) = Chain-split s.prev s.next head t head xs ys chain in
    let d' = rotated head t xs ys d in
    let off_prev : s.prev t ≢ t =
      parts_ne (s.prev t) t (head ∷ xs) (t ∷ ys) d (end_in s.prev s.next head t xs front)
        (ground arith) in
    let off_next : s.next t ≢ t = λ e.
      let twice : 1 ≤ count t (ys ++ (head ∷ [])) =
        subst (λ k. 1 ≤ count k (ys ++ (head ∷ []))) e (start_in s.prev s.next t head ys rest) in
      ground (arith, d' t, count-append t xs (t ∷ (ys ++ (head ∷ []))), twice) in
    let next1 = update s.next (s.prev t) (s.next t) in
    let prev1 = update s.prev (next1 t) (s.prev t) in
    let same : next1 t ≡ s.next t = update_ne s.next (s.prev t) t (s.next t) off_prev in
    (
      unlink-Chain s.prev s.next (update prev1 t 0) (update next1 t 0) head t head xs ys d d'
          (update_ne next1 t (s.prev t) 0 (λ e. off_prev (sym e))
            ∙ update_self s.next (s.prev t) (s.next t))
          (update_ne prev1 t (s.next t) 0 (λ e. off_next (sym e))
            ∙ ap prev1 (sym same)
            ∙ update_self s.prev (next1 t) (s.prev t))
          (λ y ne ne'. update_ne next1 t y 0 ne ∙ update_ne s.next (s.prev t) y (s.next t) ne')
          (λ y ne ne'.
            update_ne prev1 t y 0 ne
            ∙ update_ne s.prev (next1 t) y (s.prev t) (λ e. ne' (sym same ∙ e)))
          front rest,
      unregister-IsDistinct head t xs ys d,
    )
