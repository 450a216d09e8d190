-- ===== src/Vmm/Words.antt =====
-- The words that are written as entries.
use airix.Prelude.{
  ℕ, zero, suc, ◌+◌, ◌*◌, ◌/◌, ◌%◌, ◌^◌, ◌<◌, ◌≡◌, sym, ap, subst, ◌∙◌, true, arith, ◌==◌,
  if◌then◌else◌, test_bit, set_bit,
}
use airix.Vmm.{lor, present_entry, frame, vmm_present}

-- q with k zero bits below.
abbrev pub shift : ℕ → ℕ → ℕ
shift zero q = q
shift (suc k) q = 2 * shift k q

lor-zero : (n a : ℕ) → a < shift n 1 → lor n a 0 ≡ a
unfolding lor
lor-zero zero a h = omega arith
lor-zero (suc n) a h = ground (arith, lor-zero n (a / 2))

-- k bits more than m.
abbrev more_bits : ℕ → ℕ → ℕ
more_bits zero m = m
more_bits (suc k) m = suc (more_bits k m)

-- Where the bits do not meet, `|` adds.
lor-shift :
    (k m q b : ℕ)
    → b < shift k 1
    → q < shift m 1
    → lor (more_bits k m) (shift k q) b ≡ shift k q + b
unfolding lor
lor-shift zero m q b hb hq =
    let none_left : b ≡ 0 = omega arith in
    subst (λ c. lor m q c ≡ q + c) (sym none_left) (lor-zero m q hq ∙ omega arith)
lor-shift (suc k) m q b hb hq =
    let half : 2 * shift k q / 2 ≡ shift k q = omega arith in
    let even : 2 * shift k q % 2 ≡ 0 = omega arith in
    rw (even, half) (omega (arith, lor-shift k m q (b / 2) (omega arith) hq))

lor-one : (n a : ℕ) → a / 2 < shift n 1 → lor (suc n) a 1 ≡ (if a % 2 == 0 then a + 1 else a)
unfolding lor
lor-one n a h = ground (arith, lor-zero n (a / 2))

-- The entry for a page: its address, the flags, and bit 0 set.
pub present_entry-eq :
    (page flag : ℕ)
    → page < 2 ^ 20
    → flag < 4096
    → present_entry (page * 4096) flag ≡ set_bit (page * 4096 + flag) vmm_present
unfolding present_entry
present_entry-eq page flag hp hf =
    ap (λ w. lor 32 w vmm_present)
      (ap (λ a. lor 32 a flag) {x = page * 4096} {y = shift 12 page} (omega arith)
        ∙ (lor-shift 12 20 page flag (omega arith) (omega arith) ∙ omega arith))
    ∙ lor-one 31 (page * 4096 + flag) (omega arith)
    ∙ ground arith

pub present_entry-reads :
    (page flag : ℕ)
    → page < 2 ^ 20
    → flag < 4096
    → (frame (present_entry (page * 4096) flag) ≡ page * 4096)
      × (test_bit (present_entry (page * 4096) flag) vmm_present ≡ true)
      × (present_entry (page * 4096) flag % 4096 ≡ set_bit flag vmm_present)
present_entry-reads page flag hp hf =
    rw (present_entry-eq page flag hp hf) (ground arith, ground arith, ground arith)
