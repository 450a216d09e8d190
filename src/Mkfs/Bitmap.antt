-- ===== src/Mkfs/Bitmap.antt =====
-- tools/mkfs.c: the bitmaps of a block group, as which of their bits are set.
use airix.Prelude.{
  ℕ, zero, suc, ◌+◌, ◌-◌, ◌*◌, ◌/◌, ◌%◌, ◌≤◌, ◌<◌, ◌≡◌, refl, ap, ◌∙◌, inl, inr, Bool, true, false,
  Option, none, some, arith, dec_lt, ℕ_discrete, ◌==◌, Bool-cases, Option-cases, all_below_sound,
  test_bit,
}
use airix.Pid.{shift_one}
use airix.Mkfs.{find_bit, find_byte}

-- The bit that stands for the number m; the high bit of a byte comes first.
abbrev pub is_marked : ℕ → (ℕ → ℕ) → Bool
is_marked m bitmap = test_bit (bitmap (m / 8)) (shift_one (7 - m % 8))

-- The first clear bit of a byte from b on.
abbrev FirstBit : ℕ → ℕ → ℕ → Option ℕ → Type 0
FirstBit n b bits none = (c : ℕ) → b ≤ c → c < b + n → test_bit bits (shift_one (7 - c)) ≡ true
FirstBit n b bits (some c) =
    (b ≤ c)
    × (c < b + n)
    × (test_bit bits (shift_one (7 - c)) ≡ false)
    × ((e : ℕ) → b ≤ e → e < c → test_bit bits (shift_one (7 - e)) ≡ true)

find_bit-FirstBit : (n b bits : ℕ) → FirstBit n b bits (find_bit n b bits)
unfolding find_bit
find_bit-FirstBit zero b bits = λ c lo hi. absurd (omega arith)
find_bit-FirstBit (suc n) b bits = elim (Bool-cases (test_bit bits (shift_one (7 - b)))) [
  | inr clear ↦ rw clear (omega arith, omega arith, clear, λ e lo hi. absurd (omega arith))
  | inl taken ↦
      rw taken (later n b bits taken (find_bit n (b + 1) bits) (find_bit-FirstBit n (b + 1) bits))
]
  where
    at :
        (b c bits : ℕ)
        → c ≡ b
        → test_bit bits (shift_one (7 - b)) ≡ true
        → test_bit bits (shift_one (7 - c)) ≡ true
    at b c bits e taken = ap (λ k. test_bit bits (shift_one (7 - k))) e ∙ taken

    later :
        (n b bits : ℕ)
        → test_bit bits (shift_one (7 - b)) ≡ true
        → (r : Option ℕ) → FirstBit n (b + 1) bits r
        → FirstBit (suc n) b bits r
    later n b bits taken none rest = λ c lo hi. elim (ℕ_discrete c b) [
      | yes e ↦ at b c bits e taken
      | no off ↦ rest c (omega arith) (omega arith)
    ]
    later n b bits taken (some c) (lo, hi, clear, before) = (
      omega arith,
      omega arith,
      clear,
      λ k lo' hi'. elim (ℕ_discrete k b) [
        | yes e ↦ at b k bits e taken
        | no off ↦ before k (omega arith) hi'
      ],
    )

same_of : (a b : ℕ) → (a == b) ≡ true → a ≡ b
same_of a b h = ground arith

all_ones : (k : ℕ) → k < 8 → test_bit 0xFF (shift_one (7 - k)) ≡ true
all_ones k h = all_below_sound 8 (λ k. test_bit 0xFF (shift_one (7 - k))) k refl h

-- The first clear bit of n bytes from the byte i on.
abbrev pub FirstMark : ℕ → ℕ → (ℕ → ℕ) → Option ℕ → Type 0
FirstMark n i bitmap none = (m : ℕ) → i * 8 ≤ m → m < (i + n) * 8 → is_marked m bitmap ≡ true
FirstMark n i bitmap (some c) =
    (i * 8 ≤ c)
    × (c < (i + n) * 8)
    × (is_marked c bitmap ≡ false)
    × ((m : ℕ) → i * 8 ≤ m → m < c → is_marked m bitmap ≡ true)

-- A number in a byte by the bits of the byte.
in_byte :
    (i m : ℕ) (b : Bool) (bitmap : ℕ → ℕ)
    → i * 8 ≤ m
    → m < i * 8 + 8
    → test_bit (bitmap i) (shift_one (7 - (m - i * 8))) ≡ b
    → is_marked m bitmap ≡ b
in_byte i m b bitmap lo hi e =
    ap (λ k. test_bit (bitmap k) (shift_one (7 - m % 8))) (omega arith)
    ∙ ap (λ k. test_bit (bitmap i) (shift_one (7 - k))) (omega arith)
    ∙ e

-- A byte whose bits are all set.
pass :
    (n i : ℕ) (bitmap : ℕ → ℕ)
    → ((c : ℕ) → c < 8 → test_bit (bitmap i) (shift_one (7 - c)) ≡ true)
    → (r : Option ℕ) → FirstMark n (i + 1) bitmap r
    → FirstMark (suc n) i bitmap r
pass n i bitmap full none rest = λ m lo hi. elim (dec_lt m (i * 8 + 8)) [
  | yes here ↦ in_byte i m true bitmap lo here (full (m - i * 8) (omega arith))
  | no later ↦ rest m (omega arith) (omega arith)
]
pass n i bitmap full (some c) (lo, hi, clear, before) = (
  omega arith,
  omega arith,
  clear,
  λ m lo' hi'. elim (dec_lt m (i * 8 + 8)) [
    | yes here ↦ in_byte i m true bitmap lo' here (full (m - i * 8) (omega arith))
    | no later ↦ before m (omega arith) hi'
  ],
)

stop :
    (n i c : ℕ) (bitmap : ℕ → ℕ)
    → FirstBit 8 0 (bitmap i) (some c)
    → FirstMark (suc n) i bitmap (some (c + i * 8))
stop n i c bitmap (lo, hi, clear, before) = (
  omega arith,
  omega arith,
  in_byte i (c + i * 8) false bitmap (omega arith) (omega arith)
      (ap (λ k. test_bit (bitmap i) (shift_one (7 - k))) (omega arith) ∙ clear),
  λ m lo' hi'.
      in_byte i m true bitmap lo' (omega arith) (before (m - i * 8) (omega arith) (omega arith)),
)

pub find_byte-FirstMark : (n i : ℕ) (bitmap : ℕ → ℕ) → FirstMark n i bitmap (find_byte n i bitmap)
unfolding find_byte
find_byte-FirstMark zero i bitmap = λ m lo hi. absurd (omega arith)
find_byte-FirstMark (suc n) i bitmap =
    let rest = find_byte-FirstMark n (i + 1) bitmap in
    let bits = find_bit-FirstBit 8 0 (bitmap i) in
    elim (Bool-cases (bitmap i == 0xFF)) [
      | inl full ↦ rw full (pass n i bitmap (ones i bitmap full) _ rest)
      | inr other ↦ elim (Option-cases (find_bit 8 0 (bitmap i))) [
        | inl all ↦
            rw (other, all)
              (pass n i bitmap (λ c h. (rw all at bits) c (omega arith) (omega arith)) _ rest)
        | inr (c, found) ↦ rw (other, found) (stop n i c bitmap (rw found at bits))
      ]
    ]
  where
    ones :
        (i : ℕ) (bitmap : ℕ → ℕ)
        → (bitmap i == 0xFF) ≡ true
        → (c : ℕ) → c < 8
        → test_bit (bitmap i) (shift_one (7 - c)) ≡ true
    ones i bitmap full c h =
        ap (λ w. test_bit w (shift_one (7 - c))) (same_of (bitmap i) 0xFF full) ∙ all_ones c h
