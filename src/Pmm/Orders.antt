-- ===== src/Pmm/Orders.antt =====
-- The sizes of blocks, their alignment, and how aligned blocks can meet.
use native.Mathlib.Nat.{
  div-add-mod', mul-mod_left, le_of_mul-le-mul_right, lt_of_mul-lt-mul_right, mul-le-mul_right,
}
use airix.Prelude.{
  ℕ, zero, suc, ◌+◌, ◌-◌, ◌*◌, ◌/◌, ◌%◌, ◌≤◌, ◌<◌, ◌≡◌, refl, sym, ap, ◌∙◌, ◌≢◌, ◌⊎◌, arith,
  ℕ_discrete, ltb, ◌==◌, ltb→lt, ==_iff, all_below_sound,
}
use airix.Pmm.{order_pages}

pub order_pages_double : (o : ℕ) → o + 1 < 11 → order_pages (o + 1) ≡ 2 * order_pages o
unfolding order_pages
order_pages_double o h =
    (==_iff _ _).0
      (all_below_sound 10 (λ k. order_pages (k + 1) == 2 * order_pages k) o refl (omega arith))

pub order_pages_pos : (o : ℕ) → o < 11 → 0 < order_pages o
unfolding order_pages
order_pages_pos o h = ltb→lt 0 _ (all_below_sound 11 (λ k. ltb 0 (order_pages k)) o refl h)

abbrev pub Aligned : ℕ → ℕ → Type 0
Aligned b o = (q : ℕ) × (b ≡ q * order_pages o)

-- A larger size is a multiple of a smaller one.
pub order_pages_multiple :
    (o k o' : ℕ) → o + k ≡ o' → o' < 11 → (m : ℕ) × (order_pages o' ≡ m * order_pages o)
order_pages_multiple o zero o' e h = (1, let same : o ≡ o' = omega arith in rw same (omega arith))
order_pages_multiple o (suc k) o' e h =
    let (m, p) = order_pages_multiple o k (o' - 1) (omega arith) (omega arith) in
    let same : o' - 1 + 1 ≡ o' = omega arith in
    let twice = order_pages_double (o' - 1) (omega arith) in
    (2 * m, rw same at twice ∙ omega (arith, p))

pub Aligned-down : (x o o' : ℕ) → o ≤ o' → o' < 11 → Aligned x o' → Aligned x o
Aligned-down x o o' le h (q, e) =
    let (m, p) = order_pages_multiple o (o' - o) o' (omega arith) h in
    (q * m, e ∙ ap (λ (t : ℕ). q * t) p ∙ omega arith)

-- An aligned page in an aligned block of no larger size is its first.
multiple_in_block : (j k P : ℕ) → j * P ≤ k * P → k * P < j * P + P → k ≡ j
multiple_in_block j k P h l =
    let up = lt_of_mul-lt-mul_right P {m = k} {n = j + 1} (omega arith) in
    let pos : 0 < P = omega arith in
    omega (arith, le_of_mul-le-mul_right {m = j} {n = k} {k = P} h pos)

pub first_of_block :
    (x y o o' : ℕ)
    → o' ≤ o
    → o < 11
    → Aligned x o
    → Aligned y o'
    → y ≤ x
    → x < y + order_pages o'
    → x ≡ y
first_of_block x y o o' le h ax (j, ey) lo hi =
    let (k, ex) = Aligned-down x o' o le h ax in
    let same = multiple_in_block j k (order_pages o') (omega arith) (omega arith) in
    ex ∙ ap (λ (t : ℕ). t * order_pages o') same ∙ sym ey

-- Two buddies of order o make up one aligned block of the next order.
abbrev pub Pair : ℕ → ℕ → ℕ → ℕ → Type 0
Pair low b x o =
    Aligned low (o + 1)
    × ((b ≡ low) × (x ≡ low + order_pages o) ⊎ (x ≡ low) × (b ≡ low + order_pages o))

-- A larger aligned block that holds one of two buddies holds the other.
pub holds_buddy :
    (low b x y o o' : ℕ)
    → o < o'
    → o' < 11
    → Pair low b x o
    → Aligned y o'
    → y ≤ x
    → x < y + order_pages o'
    → (y ≤ b) × (b < y + order_pages o')
holds_buddy low b x y o o' lt h ((q, el), two) (j, ey) lo hi =
    let (m, em) = order_pages_multiple (o + 1) (o' - (o + 1)) o' (omega arith) h in
    let P = order_pages (o + 1) in
    let double = order_pages_double o (omega arith) in
    let pos = order_pages_pos o (omega arith) in
    let ey' : y ≡ j * m * P = ey ∙ ap (λ (t : ℕ). j * t) em ∙ omega arith in
    let from = lt_of_mul-lt-mul_right P {m = j * m} {n = q + 1} (omega arith) in
    let upto = lt_of_mul-lt-mul_right P {m = q} {n = j * m + m} (omega arith) in
    let below = mul-le-mul_right {m = j * m} {n = q} P (omega arith) in
    let above = mul-le-mul_right {m = q + 1} {n = j * m + m} P (omega arith) in omega arith

-- The two cases of `get_buddy`.
pub Aligned_even : (b o : ℕ) → b % order_pages (o + 1) ≡ 0 → Aligned b (o + 1)
Aligned_even b o e = (b / order_pages (o + 1), omega (arith, div-add-mod' b (order_pages (o + 1))))

pub Aligned_odd :
    (b o : ℕ)
    → o + 1 < 11
    → Aligned b o
    → b % order_pages (o + 1) ≢ 0
    → (low : ℕ) × Aligned low (o + 1) × (b ≡ low + order_pages o)
Aligned_odd b o h (k, e) ne =
    let P = order_pages o in
    let double = order_pages_double o h in
    elim (ℕ_discrete (k % 2) 0) [
      | yes even ↦
          let e' : b ≡ k / 2 * order_pages (o + 1) =
            e
            ∙ ap (λ (t : ℕ). t * P) {x = k} {y = k / 2 * 2} (omega arith)
            ∙ rw double (omega arith) in
          absurd (ne (rw e' (mul-mod_left (k / 2) (order_pages (o + 1)))))
      | no odd ↦ (
        k / 2 * order_pages (o + 1),
        (k / 2, refl),
        e
            ∙ ap (λ (t : ℕ). t * P) {x = k} {y = k / 2 * 2 + 1} (omega arith)
            ∙ rw double (omega arith),
      )
    ]
