-- ===== src/Qsort/Sort.antt =====
-- lib/qsort.c: `qsort` sorts and keeps the elements.
use Prim.Native.Nat.{Ordering}
use airix.Prelude.{
  ℕ, zero, suc, ◌+◌, ◌-◌, ◌*◌, ◌≤◌, ◌<◌, ◌≡◌, refl, sym, ap, ◌∙◌, inl, inr, Bool, true, false, some,
  arith, dec_lt, dec_le, leb, Bool-cases, add_zero,
}
use airix.Qsort.{is_less, qsort, insert_sort}
use airix.Qsort.Count.{count, count-append, count-same, count_all, all_counted}
use airix.Qsort.Insert.{
  is_more, Le, IsOrder, Sorted, Keeps, Keeps-trans, insert_sort-Sorted, less_more,
}
use airix.Qsort.Partition.{Parts, Parted, partition-Parted}

module _ {ℓ} {A : Type ℓ} where
  -- What is kept in a part is kept in the whole.
  Keeps-part :
      (base n a m : ℕ) (f g : ℕ → A) → a + m ≤ n → Keeps (base + a) m f g → Keeps base n f g
  Keeps-part base n a m f g fits keeps = record {
    counts = λ q. whole q g ∙ sums q ∙ sym (whole q f);
    outside = λ k away.
        keeps.outside k
          (elim away [ inl below ↦ inl (omega arith) | inr above ↦ inr (omega arith) ]);
  }
    where
      rest : ℕ
      rest = n - (a + m)

      cut : a + (m + rest) ≡ n
      cut = omega arith

      whole :
          (q : A → Bool) (h : ℕ → A)
          → count q h base n
            ≡ count q h base a + (count q h (base + a) m + count q h (base + a + m) rest)
      whole q h =
          ap (count q h base) (sym cut)
          ∙ count-append q h base a (m + rest)
          ∙ ap (λ c. count q h base a + c) (count-append q h (base + a) m rest)

      sums :
          (q : A → Bool)
          → count q g base a + (count q g (base + a) m + count q g (base + a + m) rest)
            ≡ count q f base a + (count q f (base + a) m + count q f (base + a + m) rest)
      sums q =
          rw
            (
              keeps.counts q,
              count-same q g f base a (λ k lo hi. keeps.outside k (inl (omega arith))),
              count-same q g f (base + a + m) rest (λ k lo hi. keeps.outside k (inr (omega arith))),
            )
            refl

  -- What all elements of a part satisfy they satisfy where the elements are kept.
  Keeps-all :
      (q : A → Bool) (from n : ℕ) (f g : ℕ → A)
      → Keeps from n f g
      → ((k : ℕ) → from ≤ k → k < from + n → q (f k) ≡ true)
      → (k : ℕ) → from ≤ k
      → k < from + n
      → q (g k) ≡ true
  Keeps-all q from n f g keeps all =
      all_counted q g from n (keeps.counts q ∙ count_all q f from n all)

less_lt : is_less Ordering.lt ≡ true
unfolding is_less
less_lt = refl

more_gt : is_more Ordering.gt ≡ true
unfolding is_more
more_gt = refl

eq_less : is_less Ordering.eq ≡ false
unfolding is_less
eq_less = refl

eq_more : is_more Ordering.eq ≡ false
unfolding is_more
eq_more = refl

more_less : (o : Ordering) → is_more o ≡ true → is_less o ≡ false
unfolding is_less is_more
more_less Ordering.lt e = cc
more_less Ordering.eq e = refl
more_less Ordering.gt e = refl

module _ {ℓ} {A : Type ℓ} (compare : A → A → Ordering) (order : IsOrder compare) where
  -- The parts of the array about a pivot, and what stands in each.
  module _ (pivot : A) (base n l g : ℕ) (f f₁ f₂ : ℕ → A)
      (parted : Parted compare pivot base n l g f) (low : Keeps base l f f₁)
      (high : Keeps (base + g) (n - g) f₁ f₂) where
    at_place : (h : ℕ → A) (k : ℕ) → base ≤ k → h (base + (k - base)) ≡ h k
    at_place h k lo = ap h (omega arith)

    in_low : (k : ℕ) → base ≤ k → k < base + l → f₂ k ≡ f₁ k
    in_low k lo hi = high.outside k (inl (omega (arith, parted.left)))

    low_less : (k : ℕ) → base ≤ k → k < base + l → is_less (compare (f₁ k) pivot) ≡ true
    low_less =
        Keeps-all (λ x. is_less (compare x pivot)) base l f f₁ low
          (λ k lo hi.
            ap is_less (
              ap (λ x. compare x pivot) (sym (at_place f k lo))
              ∙ parted.less (k - base) (omega arith))
            ∙ less_lt)

    high_more :
        (k : ℕ) → base + g ≤ k → k < base + g + (n - g) → is_more (compare (f₂ k) pivot) ≡ true
    high_more =
        Keeps-all (λ x. is_more (compare x pivot)) (base + g) (n - g) f₁ f₂ high
          (λ k lo hi.
            ap is_more (
              ap (λ x. compare x pivot)
                (low.outside k (inr (omega (arith, parted.left)))
                  ∙ sym (at_place f k (omega arith)))
              ∙ parted.more (k - base) (omega arith) (omega (arith, parted.right)))
            ∙ more_gt)

    middle : (k : ℕ) → base + l ≤ k → k < base + g → compare (f₂ k) pivot ≡ Ordering.eq
    middle k lo hi =
        ap (λ x. compare x pivot)
          (high.outside k (inl hi) ∙ low.outside k (inr lo) ∙ sym (at_place f k (omega arith)))
        ∙ parted.equal (k - base) (omega arith) (omega arith)

    up_to_pivot : (k : ℕ) → base ≤ k → k < base + g → Le compare (f₂ k) pivot
    up_to_pivot k lo hi = order.below (f₂ k) pivot (elim (dec_lt k (base + l)) [
      | yes inside ↦
          less_more _
            (ap (λ x. is_less (compare x pivot)) (in_low k lo inside) ∙ low_less k lo inside)
      | no outside ↦ ap is_more (middle k (omega arith) hi) ∙ eq_more
    ])

    from_pivot : (k : ℕ) → base + l ≤ k → k < base + n → Le compare pivot (f₂ k)
    from_pivot k lo hi = elim (dec_lt k (base + g)) [
      | yes inside ↦ ap is_less (middle k lo inside) ∙ eq_less
      | no outside ↦ more_less _ (high_more k (omega arith) (omega (arith, parted.right)))
    ]

    parts-Sorted :
        Sorted compare order base l f₁
        → Sorted compare order (base + g) (n - g) f₂
        → Sorted compare order base n f₂
    parts-Sorted below above k m lo lt hi = elim (dec_lt m (base + l)) [
      | yes left ↦
          rw (in_low k lo (omega arith), in_low m (omega arith) left) (below k m lo lt left)
      | no off ↦ elim (dec_le (base + g) k) [
        | yes right ↦ above k m right lt (omega (arith, parted.right))
        | no across ↦
            order.through (f₂ k) pivot (f₂ m) (up_to_pivot k lo (omega arith))
              (from_pivot m (omega arith) hi)
      ]
    ]

  start-Parts : (base n : ℕ) (f : ℕ → A) → 10 < n → Parts compare (f base) base n 1 0 1 f
  start-Parts base n f large = record {
    left = omega arith;
    right = omega arith;
    upto = omega arith;
    some_equal = inl (omega arith);
    less = λ k h. absurd (omega arith);
    equal = λ k lo hi. ap (λ x. compare x (f base)) (ap f (omega arith)) ∙ order.same (f base);
    more = λ k lo hi. absurd (omega arith);
  }

  -- On fuel above the number of the elements, and for a comparison that orders them, qsort ends with the
  -- elements in order, the same ones as before, by any test as many, and all else as it was.
  pub qsort-Sorted :
      (fuel base n : ℕ) (f : ℕ → A)
      → n < fuel
      → (f' : ℕ → A) × (qsort compare fuel base n f ≡ some f')
        × Sorted compare order base n f'
        × Keeps base n f f'
  unfolding qsort
  qsort-Sorted zero base n f enough = absurd (omega arith)
  qsort-Sorted (suc fuel) base n f enough = elim (Bool-cases (leb n 10)) [
    | inl small ↦
        let (sorted, keeps) = insert_sort-Sorted compare order base n f in
        (insert_sort compare base n f, rw small refl, sorted, keeps)
    | inr large ↦
        let (l, g, f₁, e, parted, keeps) =
          partition-Parted compare (f base) base n (2 * n) 1 0 1 f (ground arith)
            (start-Parts base n f (ground arith)) in
        let (f₂, e₂, below, low) =
          qsort-Sorted fuel base l f₁ (omega (arith, parted.left, parted.right)) in
        let (f₃, e₃, above, high) =
          qsort-Sorted fuel (base + g) (n - g) f₂ (omega (arith, parted.left)) in
        (
          f₃,
          rw (large, e, e₂) e₃,
          parts-Sorted (f base) base n l g f₁ f₂ f₃ parted low high below above,
          Keeps-trans keeps (
              Keeps-trans
                (Keeps-part base n 0 l f₁ f₂ (omega (arith, parted.left, parted.right))
                  (rw (add_zero base) low))
                (Keeps-part base n g (n - g) f₂ f₃ (omega (arith, parted.right)) high)),
        )
  ]
