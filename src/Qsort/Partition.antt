-- ===== src/Qsort/Partition.antt =====
-- lib/qsort.c: the loop of `qsort` parts the elements by the pivot.
use Prim.Native.Nat.{Ordering}
use airix.Prelude.{
  ℕ, zero, suc, ◌+◌, ◌-◌, ◌≤◌, ◌<◌, ◌≡◌, refl, sym, ap, ◌∙◌, ◌≢◌, ◌⊎◌, inl, inr, some, arith,
  dec_lt, ℕ_discrete, ltb, ltb→lt, Bool-cases,
}
use airix.Qsort.{swap, partition}
use airix.Qsort.Insert.{
  Keeps, Keeps-refl, Keeps-trans, swap-Keeps, swap_left, swap_right, swap_other,
}

Ordering-cases : (o : Ordering) → (o ≡ Ordering.lt) ⊎ ((o ≡ Ordering.eq) ⊎ (o ≡ Ordering.gt))
Ordering-cases Ordering.lt = inl refl
Ordering-cases Ordering.eq = inr (inl refl)
Ordering-cases Ordering.gt = inr (inr refl)

lt_eq : Ordering.lt ≡ Ordering.eq → ⊥
lt_eq e = cc

eq_gt : Ordering.eq ≡ Ordering.gt → ⊥
eq_gt e = cc

module _ {ℓ} {A : Type ℓ} (compare : A → A → Ordering) (pivot : A) (base n : ℕ) where
  -- [0, l) is less than the pivot, [l, g) equal to it and [g, i) more; where [l, g) is empty, the
  -- element at i is equal to it.
  pub record Parts (i l g : ℕ) (f : ℕ → A) : Type ℓ where
    pub left : l ≤ g
    pub right : g ≤ i
    pub upto : i ≤ n
    pub some_equal : (l < g) ⊎ ((i < n) × (compare (f (base + i)) pivot ≡ Ordering.eq))
    pub less : (k : ℕ) → k < l → compare (f (base + k)) pivot ≡ Ordering.lt
    pub equal : (k : ℕ) → l ≤ k → k < g → compare (f (base + k)) pivot ≡ Ordering.eq
    pub more : (k : ℕ) → g ≤ k → k < i → compare (f (base + k)) pivot ≡ Ordering.gt

  -- The parts at the end.
  pub record Parted (l g : ℕ) (f : ℕ → A) : Type ℓ where
    pub left : l < g
    pub right : g ≤ n
    pub less : (k : ℕ) → k < l → compare (f (base + k)) pivot ≡ Ordering.lt
    pub equal : (k : ℕ) → l ≤ k → k < g → compare (f (base + k)) pivot ≡ Ordering.eq
    pub more : (k : ℕ) → g ≤ k → k < n → compare (f (base + k)) pivot ≡ Ordering.gt

  abbrev at : (ℕ → A) → ℕ → Ordering
  at f k = compare (f (base + k)) pivot

  -- What a swap of two places does to the comparisons.
  at-swap_right : (i j : ℕ) (f : ℕ → A) → at (swap (base + i) (base + j) f) j ≡ at f i
  at-swap_right i j f = ap (λ x. compare x pivot) (swap_right (base + i) (base + j) f)

  at-swap_left : (i j : ℕ) (f : ℕ → A) → i ≢ j → at (swap (base + i) (base + j) f) i ≡ at f j
  at-swap_left i j f ne =
      ap (λ x. compare x pivot) (swap_left (base + i) (base + j) f (λ e. ne (omega arith)))

  at-swap_other :
      (i j k : ℕ) (f : ℕ → A) → i ≢ k → j ≢ k → at (swap (base + i) (base + j) f) k ≡ at f k
  at-swap_other i j k f ne ne' =
      ap (λ x. compare x pivot)
        (swap_other (base + i) (base + j) (base + k) f (λ e. ne (omega arith))
          (λ e. ne' (omega arith)))

  -- An element less than the pivot changes places with the first that is equal to it.
  less-Parts :
      (i l g : ℕ) (f : ℕ → A)
      → i < n
      → Parts i l g f
      → at f i ≡ Ordering.lt
      → Parts i (l + 1) g (swap (base + l) (base + i) f)
  less-Parts i l g f inside parts is = record {
    left = omega (arith, l<g);
    right = parts.right;
    upto = parts.upto;
    some_equal = elim (dec_lt (l + 1) g) [
      | yes more' ↦ inl more'
      | no last ↦ inr (inside, at-swap_right l i f ∙ parts.equal l (omega arith) l<g)
    ];
    less = λ k h. elim (ℕ_discrete l k) [
      | yes here ↦
          ap (at (swap (base + l) (base + i) f)) (sym here)
          ∙ at-swap_left l i f (λ e. absurd (omega (arith, l<g, parts.right)))
          ∙ is
      | no off ↦
          at-swap_other l i k f off (λ e. absurd (omega (arith, l<g, parts.right)))
          ∙ parts.less k (omega arith)
    ];
    equal = λ k lo hi.
        at-swap_other l i k f (λ e. absurd (omega arith)) (λ e. absurd (omega (arith, parts.right)))
        ∙ parts.equal k (omega arith) hi;
    more = λ k lo hi.
        at-swap_other l i k f (λ e. absurd (omega (arith, l<g))) (λ e. absurd (omega arith))
        ∙ parts.more k lo hi;
  }
    where
      l<g : l < g
      l<g = elim parts.some_equal [ inl h ↦ h | inr (h, e) ↦ absurd (lt_eq (sym is ∙ e)) ]

  equal-Parts :
      (i l g : ℕ) (f : ℕ → A)
      → i < n
      → Parts i l g f
      → at f i ≡ Ordering.eq
      → Parts (i + 1) l (g + 1) (swap (base + g) (base + i) f)
  equal-Parts i l g f inside parts is = record {
    left = omega (arith, parts.left);
    right = omega (arith, parts.right);
    upto = omega arith;
    some_equal = inl (omega (arith, parts.left));
    less = λ k h.
        at-swap_other g i k f (λ e. absurd (omega (arith, parts.left)))
          (λ e. absurd (omega (arith, parts.left, parts.right)))
        ∙ parts.less k h;
    equal = λ k lo hi. elim (ℕ_discrete g k) [
      | no off ↦
          at-swap_other g i k f off (λ e. absurd (omega (arith, parts.right)))
          ∙ parts.equal k lo (omega arith)
      | yes here ↦ ap (at (swap (base + g) (base + i) f)) (sym here) ∙ at_place (ℕ_discrete g i)
    ];
    more = λ k lo hi. elim (ℕ_discrete i k) [
      | yes here ↦
          ap (at (swap (base + g) (base + i) f)) (sym here)
          ∙ at-swap_right g i f
          ∙ parts.more g (omega arith) (omega arith)
      | no off ↦
          at-swap_other g i k f (λ e. absurd (omega arith)) off
          ∙ parts.more k (omega arith) (omega arith)
    ];
  }
    where
      at_place : Dec (g ≡ i) → at (swap (base + g) (base + i) f) g ≡ Ordering.eq
      at_place (yes e) =
          ap (at (swap (base + g) (base + i) f)) e ∙ at-swap_right g i f ∙ ap (at f) e ∙ is
      at_place (no ne) = at-swap_left g i f ne ∙ is

  more-Parts :
      (i l g : ℕ) (f : ℕ → A) → i < n → Parts i l g f → at f i ≡ Ordering.gt → Parts (i + 1) l g f
  more-Parts i l g f inside parts is = record {
    left = parts.left;
    right = omega (arith, parts.right);
    upto = omega arith;
    some_equal = elim parts.some_equal [ inl h ↦ inl h | inr (h, e) ↦ absurd (eq_gt (sym e ∙ is)) ];
    less = parts.less;
    equal = parts.equal;
    more = λ k lo hi. elim (ℕ_discrete i k) [
      | yes here ↦ ap (at f) (sym here) ∙ is
      | no off ↦ parts.more k lo (omega arith)
    ];
  }

  ended : (i l g : ℕ) (f : ℕ → A) → Parts i l g f → n ≤ i → Parted l g f
  ended i l g f parts over = record {
    left = elim parts.some_equal [ inl h ↦ h | inr (h, e) ↦ absurd (omega arith) ];
    right = omega (arith, parts.right, parts.upto);
    less = parts.less;
    equal = parts.equal;
    more = λ k lo hi. parts.more k lo (omega arith);
  }

  -- Enough fuel for the loop, and what it gives.
  pub partition-Parted :
      (fuel i l g : ℕ) (f : ℕ → A)
      → n - i + (n - l) < fuel
      → Parts i l g f
      → (l' g' : ℕ) × (f' : ℕ → A) × (partition compare fuel pivot base n i l g f
          ≡ some (l', g', f'))
        × Parted l' g' f'
        × Keeps base n f f'
  unfolding partition
  partition-Parted zero i l g f enough parts = absurd (omega arith)
  partition-Parted (suc fuel) i l g f enough parts = elim (Bool-cases (ltb i n)) [
    | inr over ↦ (l, g, f, rw over refl, ended i l g f parts (ground arith), Keeps-refl base n f)
    | inl more' ↦
        let inside = ltb→lt i n more' in
        elim (Ordering-cases (at f i)) [
          | inl is ↦
              let parts' = less-Parts i l g f inside parts is in
              let (l', g', f', e, parted, keeps) =
                partition-Parted fuel i (l + 1) g (swap (base + l) (base + i) f)
                  (omega (arith, parts'.left, parts.right)) parts' in
              (
                l',
                g',
                f',
                rw (more', is) e,
                parted,
                Keeps-trans
                    (swap-Keeps base n (base + l) (base + i) f (omega arith)
                      (omega (arith, parts.left, parts.right)) (omega arith) (omega arith))
                    keeps,
              )
          | inr (inl is) ↦
              let (l', g', f', e, parted, keeps) =
                partition-Parted fuel (i + 1) l (g + 1) (swap (base + g) (base + i) f) (omega arith)
                  (equal-Parts i l g f inside parts is) in
              (
                l',
                g',
                f',
                rw (more', is) e,
                parted,
                Keeps-trans
                    (swap-Keeps base n (base + g) (base + i) f (omega arith)
                      (omega (arith, parts.right)) (omega arith) (omega arith))
                    keeps,
              )
          | inr (inr is) ↦
              let (l', g', f', e, parted, keeps) =
                partition-Parted fuel (i + 1) l g f (omega arith)
                  (more-Parts i l g f inside parts is) in
              (l', g', f', rw (more', is) e, parted, keeps)
        ]
  ]
