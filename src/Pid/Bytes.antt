-- ===== src/Pid/Bytes.antt =====
-- One bit of a word, by its number.
use native.Mathlib.Nat.{div-div-eq-div-mul}
use airix.Prelude.{
  ℕ, zero, suc, ◌+◌, ◌-◌, ◌*◌, ◌/◌, ◌%◌, ◌≤◌, ◌<◌, ◌≡◌, refl, sym, ap, ◌∙◌, ◌≢◌, inl, inr, true,
  false, arith, ◌==◌, Bool-cases, test_bit, set_bit, clear_bit,
}
use airix.Pid.{shift_one}

-- The bit k, from the lowest.
abbrev bit : ℕ → ℕ → ℕ
bit zero w = w % 2
bit (suc k) w = bit k (w / 2)

bit_small : (k w : ℕ) → bit k w < 2
bit_small zero w = omega arith
bit_small (suc k) w = bit_small k (w / 2)

shift_one_pos : (k : ℕ) → 0 < shift_one k
shift_one_pos zero = omega arith
shift_one_pos (suc k) = omega (arith, shift_one_pos k)

bit_of_div : (k w : ℕ) → w / shift_one k % 2 ≡ bit k w
bit_of_div zero w = omega arith
bit_of_div (suc k) w =
    ap (λ q. q % 2) (sym (div-div-eq-div-mul w 2 (shift_one k))) ∙ bit_of_div k (w / 2)

bit_add_other : (i j w : ℕ) → i ≢ j → bit i w ≡ 0 → bit j (w + shift_one i) ≡ bit j w
bit_add_other zero zero w ne clear = absurd (ne refl)
bit_add_other zero (suc j) w ne clear = ap (bit j) (omega arith)
bit_add_other (suc i) zero w ne clear = omega arith
bit_add_other (suc i) (suc j) w ne clear =
    ap (bit j) {x = (w + 2 * shift_one i) / 2} {y = w / 2 + shift_one i} (omega arith)
    ∙ bit_add_other i j (w / 2) (λ e. ne (ap suc e)) clear

bit_add_self : (i w : ℕ) → bit i w ≡ 0 → bit i (w + shift_one i) ≡ 1
bit_add_self zero w clear = omega arith
bit_add_self (suc i) w clear =
    ap (bit i) {x = (w + 2 * shift_one i) / 2} {y = w / 2 + shift_one i} (omega arith)
    ∙ bit_add_self i (w / 2) clear

shift_one-le : (i w : ℕ) → bit i w ≡ 1 → shift_one i ≤ w
shift_one-le zero w h = omega arith
shift_one-le (suc i) w h = omega (arith, shift_one-le i (w / 2) h)

bit_sub_other : (i j w : ℕ) → i ≢ j → bit i w ≡ 1 → bit j (w - shift_one i) ≡ bit j w
bit_sub_other zero zero w ne h = absurd (ne refl)
bit_sub_other zero (suc j) w ne h = ap (bit j) (omega arith)
bit_sub_other (suc i) zero w ne h = omega (arith, shift_one-le i (w / 2) h)
bit_sub_other (suc i) (suc j) w ne h =
    ap (bit j) {x = (w - 2 * shift_one i) / 2} {y = w / 2 - shift_one i}
      (omega (arith, shift_one-le i (w / 2) h))
    ∙ bit_sub_other i j (w / 2) (λ e. ne (ap suc e)) h

bit_sub_self : (i w : ℕ) → bit i w ≡ 1 → bit i (w - shift_one i) ≡ 0
bit_sub_self zero w h = omega arith
bit_sub_self (suc i) w h =
    ap (bit i) {x = (w - 2 * shift_one i) / 2} {y = w / 2 - shift_one i}
      (omega (arith, shift_one-le i (w / 2) h))
    ∙ bit_sub_self i (w / 2) h

tested : (i w : ℕ) → test_bit w (shift_one i) ≡ (bit i w == 1)
tested i w = ap (λ b. b == 1) (bit_of_div i w)

is_one : (i w : ℕ) → test_bit w (shift_one i) ≡ true → bit i w ≡ 1
is_one i w h = let e = tested i w in ground (arith, e)

is_zero : (i w : ℕ) → test_bit w (shift_one i) ≡ false → bit i w ≡ 0
is_zero i w h = let e = tested i w in ground (arith, e, bit_small i w)

pub set_at : (w i : ℕ) → test_bit (set_bit w (shift_one i)) (shift_one i) ≡ true
set_at w i = elim (Bool-cases (test_bit w (shift_one i))) [
  | inl on ↦ rw on on
  | inr off ↦
      rw off (tested i (w + shift_one i) ∙ ap (λ b. b == 1) (bit_add_self i w (is_zero i w off)))
]

pub set_other :
    (w i j : ℕ)
    → i ≢ j
    → test_bit (set_bit w (shift_one i)) (shift_one j) ≡ test_bit w (shift_one j)
set_other w i j ne = elim (Bool-cases (test_bit w (shift_one i))) [
  | inl on ↦ rw on refl
  | inr off ↦ rw off (
      tested j (w + shift_one i)
      ∙ ap (λ b. b == 1) (bit_add_other i j w ne (is_zero i w off))
      ∙ sym (tested j w))
]

pub clear_at : (w i : ℕ) → test_bit (clear_bit w (shift_one i)) (shift_one i) ≡ false
clear_at w i = elim (Bool-cases (test_bit w (shift_one i))) [
  | inr off ↦ rw off off
  | inl on ↦
      rw on (tested i (w - shift_one i) ∙ ap (λ b. b == 1) (bit_sub_self i w (is_one i w on)))
]

pub clear_other :
    (w i j : ℕ)
    → i ≢ j
    → test_bit (clear_bit w (shift_one i)) (shift_one j) ≡ test_bit w (shift_one j)
clear_other w i j ne = elim (Bool-cases (test_bit w (shift_one i))) [
  | inr off ↦ rw off refl
  | inl on ↦ rw on (
      tested j (w - shift_one i)
      ∙ ap (λ b. b == 1) (bit_sub_other i j w ne (is_one i w on))
      ∙ sym (tested j w))
]
