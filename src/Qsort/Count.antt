-- ===== src/Qsort/Count.antt =====
-- lib/qsort.c: the elements of a part of an array, counted by what they satisfy.
use airix.Prelude.{
  ℕ, zero, suc, ◌+◌, ◌≤◌, ◌<◌, ◌≡◌, refl, sym, ap, ◌∙◌, inl, inr, Bool, true, arith, ℕ_discrete,
  if◌then◌else◌, Bool-cases, update, update_self, update_ne, zero_add, add_zero, add_suc, suc_add,
}
use airix.Qsort.{swap}

abbrev pub bit : Bool → ℕ
bit b = if b then 1 else 0

module _ {ℓ} {A : Type ℓ} where
  -- How many of the n elements from a place on satisfy a test.
  unfoldable pub count : (A → Bool) → (ℕ → A) → ℕ → ℕ → ℕ
  count q f from zero = 0
  count q f from (suc n) = bit (q (f from)) + count q f (from + 1) n

  pub count-append :
      (q : A → Bool) (f : ℕ → A) (from n m : ℕ)
      → count q f from (n + m) ≡ count q f from n + count q f (from + n) m
  unfolding count
  count-append q f from zero m = rw (zero_add m, add_zero from, zero_add (count q f from m)) refl
  count-append q f from (suc n) m =
      rw (suc_add n m, add_suc from n) (omega (arith, count-append q f (from + 1) n m))

  pub count-same :
      (q : A → Bool) (f g : ℕ → A) (from n : ℕ)
      → ((k : ℕ) → from ≤ k → k < from + n → f k ≡ g k)
      → count q f from n ≡ count q g from n
  unfolding count
  count-same q f g from zero same = refl
  count-same q f g from (suc n) same = omega (
    arith,
    ap (λ x. bit (q x)) (same from (omega arith) (omega arith)),
    count-same q f g (from + 1) n (λ k lo hi. same k (omega arith) (omega arith)),
  )

  -- A write trades the old element for the new one.
  pub count-update :
      (q : A → Bool) (f : ℕ → A) (from n i : ℕ) (v : A)
      → from ≤ i
      → i < from + n
      → count q (update f i v) from n + bit (q (f i)) ≡ count q f from n + bit (q v)
  unfolding count
  count-update q f from zero i v lo hi = absurd (omega arith)
  count-update q f from (suc n) i v lo hi = elim (ℕ_discrete i from) [
    | yes e ↦ omega (
      arith,
      ap (λ x. bit (q x)) (ap (update f i v) (sym e) ∙ update_self f i v),
      ap (λ j. bit (q (f j))) e,
      count-same q (update f i v) f (from + 1) n
          (λ k lo' hi'. update_ne f i k v (λ same. absurd (omega arith))),
    )
    | no ne ↦ omega (
      arith,
      ap (λ x. bit (q x)) (update_ne f i from v ne),
      count-update q f (from + 1) n i v (omega arith) (omega arith),
    )
  ]

  -- A swap of two of the elements keeps the count.
  pub count-swap :
      (q : A → Bool) (f : ℕ → A) (from n i j : ℕ)
      → from ≤ i
      → i < from + n
      → from ≤ j
      → j < from + n
      → count q (swap i j f) from n ≡ count q f from n
  unfolding swap
  count-swap q f from n i j lo hi lo' hi' = omega (
    arith,
    count-update q f from n i (f j) lo hi,
    count-update q (update f i (f j)) from n j (f i) lo' hi',
    ap (λ x. bit (q x)) (at_j i j f),
  )
    where
      at_j : (i j : ℕ) (f : ℕ → A) → update f i (f j) j ≡ f j
      at_j i j f = elim (ℕ_discrete i j) [
        | yes e ↦ ap (update f i (f j)) (sym e) ∙ update_self f i (f j)
        | no ne ↦ update_ne f i j (f j) ne
      ]

  -- All of the elements satisfy a test exactly if as many as there are do.
  pub count_all :
      (q : A → Bool) (f : ℕ → A) (from n : ℕ)
      → ((k : ℕ) → from ≤ k → k < from + n → q (f k) ≡ true)
      → count q f from n ≡ n
  unfolding count
  count_all q f from zero all = refl
  count_all q f from (suc n) all = omega (
    arith,
    ap bit (all from (omega arith) (omega arith)),
    count_all q f (from + 1) n (λ k lo hi. all k (omega arith) (omega arith)),
  )

  pub count_le : (q : A → Bool) (f : ℕ → A) (from n : ℕ) → count q f from n ≤ n
  unfolding count
  count_le q f from zero = omega arith
  count_le q f from (suc n) = elim (Bool-cases (q (f from))) [
    | inl e ↦ rw e (omega (arith, count_le q f (from + 1) n))
    | inr e ↦ rw e (omega (arith, count_le q f (from + 1) n))
  ]

  pub all_counted :
      (q : A → Bool) (f : ℕ → A) (from n : ℕ)
      → count q f from n ≡ n
      → (k : ℕ) → from ≤ k
      → k < from + n
      → q (f k) ≡ true
  unfolding count
  all_counted q f from zero e k lo hi = absurd (omega arith)
  all_counted q f from (suc n) e k lo hi = elim (Bool-cases (q (f from))) [
    | inr no_hit ↦ absurd (omega (arith, count_le q f (from + 1) n, ap bit no_hit))
    | inl hit ↦ elim (ℕ_discrete k from) [
      | yes here ↦ ap (λ j. q (f j)) here ∙ hit
      | no later ↦
          all_counted q f (from + 1) n (omega (arith, ap bit hit)) k (omega arith) (omega arith)
    ]
  ]
