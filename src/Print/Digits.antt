-- ===== src/Print/Digits.antt =====
-- The digits of utoa_s and the reversal, of lib/vsnprintf.c.
use mathlib.Core.Path.{ap₂}
use mathlib.Core.List.{reverse-cons}
use native.Mathlib.Nat.{div-mul-le_self, mul-le-mul_left, div-add-mod, mod-lt, pow-succ'}
use airix.Prelude.{
  ℕ, zero, suc, ◌+◌, ◌-◌, ◌*◌, ◌/◌, ◌%◌, ◌^◌, ◌≤◌, ◌<◌, ◌≡◌, refl, sym, ap, ◌∙◌, true, ◌&&◌, List,
  [], ◌∷◌, ◌++◌, reverse, arith, dec_lt, ℕ_discrete, ltb, leb, ◌==◌, if◌then◌else◌, lt→ltb, length,
  get_or, set, length-append, length-set, get_or-set_self, get_or-set_ne,
}
use airix.Print.{reverse_swap, reverse_buf, digit, digits_of, utoa_s}

-- One exchange.
swapped_get :
    (l h i : ℕ) (buf : List ℕ)
    → l < h
    → h < length buf
    → get_or (set (set buf l (get_or buf h 0)) h (get_or buf l 0)) i 0
      ≡ (if i == h then get_or buf l 0 else if i == l then get_or buf h 0 else get_or buf i 0)
swapped_get l h i buf lt b =
    let b' : h < length (set buf l (get_or buf h 0)) = rw (length-set buf l (get_or buf h 0)) b in
    elim (ℕ_discrete i h) [
      | yes e ↦
          rw e (get_or-set_self (set buf l (get_or buf h 0)) h (get_or buf l 0) 0 b' ∙ ground arith)
      | no ne ↦
          get_or-set_ne (set buf l (get_or buf h 0)) h i (get_or buf l 0) 0 (λ e. ne (sym e))
          ∙ elim (ℕ_discrete i l) [
            | yes e ↦ rw e (get_or-set_self buf l (get_or buf h 0) 0 (omega arith) ∙ ground arith)
            | no ne' ↦ get_or-set_ne buf l i (get_or buf h 0) 0 (λ e. ne' (sym e)) ∙ ground arith
          ]
    ]

-- An exchange of the ends and a reversal between them is a reversal.
mirror_step :
    (g g' : ℕ → ℕ) (l h i : ℕ)
    → l < h
    → ((k : ℕ) → g' k ≡ (if k == h then g l else if k == l then g h else g k))
    → (if leb (l + 1) i && leb i (h - 1) then g' (l + 1 + (h - 1) - i) else g' i)
      ≡ (if leb l i && leb i h then g (l + h - i) else g i)
mirror_step g g' l h i lt swap =
    let same : l + 1 + (h - 1) - i ≡ l + h - i = omega arith in
    let at_l : i ≡ l → g (l + h - i) ≡ g h = λ e. ap g (omega arith) in
    let at_h : i ≡ h → g (l + h - i) ≡ g l = λ e. ap g (omega arith) in
    rw same (ground (arith, swap i, swap (l + h - i), at_l, at_h))

-- What the in-place reversal makes of each place.
reverse_swap_get :
    (fuel l h i : ℕ) (buf : List ℕ)
    → h < length buf
    → h < l + fuel
    → get_or (reverse_swap fuel l h buf) i 0
      ≡ (if leb l i && leb i h then get_or buf (l + h - i) 0 else get_or buf i 0)
unfolding reverse_swap
reverse_swap_get zero l h i buf b f = ground arith
reverse_swap_get (suc fuel) l h i buf b f = elim (dec_lt l h) [
  | no ge ↦
      let same : leb l i && leb i h ≡ true → get_or buf (l + h - i) 0 ≡ get_or buf i 0 =
        λ p. ap (λ k. get_or buf k 0) (ground arith) in
      ground (arith, same)
  | yes lt ↦
      let buf' = set (set buf l (get_or buf h 0)) h (get_or buf l 0) in
      let len : length buf' ≡ length buf =
        length-set (set buf l (get_or buf h 0)) h (get_or buf l 0)
        ∙ length-set buf l (get_or buf h 0) in
      let ih = reverse_swap_get fuel (l + 1) (h - 1) i buf' (omega arith) (omega arith) in
      rw (lt→ltb l h lt) (
        ih
        ∙ mirror_step (λ k. get_or buf k 0) (λ k. get_or buf' k 0) l h i lt
            (λ k. swapped_get l h k buf lt b))
]

length-reverse_swap :
    (fuel l h : ℕ) (buf : List ℕ) → length (reverse_swap fuel l h buf) ≡ length buf
unfolding reverse_swap
length-reverse_swap zero l h buf = refl
length-reverse_swap (suc fuel) l h buf = ground (
  arith,
  length-reverse_swap fuel (l + 1) (h - 1) (set (set buf l (get_or buf h 0)) h (get_or buf l 0)),
  length-set buf l (get_or buf h 0),
  length-set (set buf l (get_or buf h 0)) h (get_or buf l 0),
)

-- A list is known by its length and its elements.
list_ext :
    (xs ys : List ℕ) → length xs ≡ length ys → ((i : ℕ) → get_or xs i 0 ≡ get_or ys i 0) → xs ≡ ys
list_ext [] [] e h = refl
list_ext [] (y ∷ ys) e h = absurd (omega arith)
list_ext (x ∷ xs) [] e h = absurd (omega arith)
list_ext (x ∷ xs) (y ∷ ys) e h = ap₂ ◌∷◌ (h 0) (list_ext xs ys (omega arith) (λ i. h (suc i)))

get_or-append :
    (xs ys : List ℕ) (i : ℕ)
    → get_or (xs ++ ys) i 0
      ≡ (if ltb i (length xs) then get_or xs i 0 else get_or ys (i - length xs) 0)
get_or-append [] ys i = ap (λ k. get_or ys k 0) {x = i} {y = i - 0} (omega arith) ∙ ground arith
get_or-append (x ∷ xs) ys zero = ground arith
get_or-append (x ∷ xs) ys (suc i) = get_or-append xs ys i ∙ ground arith

length-reverse : (xs : List ℕ) → length (reverse xs) ≡ length xs
length-reverse [] = refl
length-reverse (x ∷ xs) =
    rw (reverse-cons x xs) (omega (arith, length-append (reverse xs) (x ∷ []), length-reverse xs))

get_or-reverse :
    (xs : List ℕ) (i : ℕ)
    → get_or (reverse xs) i 0 ≡ (if ltb i (length xs) then get_or xs (length xs - 1 - i) 0 else 0)
get_or-reverse [] i = ground arith
get_or-reverse (x ∷ xs) i =
    let last = get_or-append (reverse xs) (x ∷ []) i in
    ap (λ ys. get_or ys i 0) (reverse-cons x xs) ∙ last ∙ elim (dec_lt i (length xs)) [
      | yes inside ↦
          let next : suc (length xs) - 1 - i ≡ suc (length xs - 1 - i) = omega arith in
          rw (length-reverse xs, next) (ground (arith, get_or-reverse xs i))
      | no past ↦ elim (ℕ_discrete i (length xs)) [
        | yes e ↦
            let first : suc (length xs) - 1 - length xs ≡ 0 = omega arith in
            let zero_left : length xs - length xs ≡ 0 = omega arith in
            rw (length-reverse xs, e, first, zero_left) (ground arith)
        | no ne ↦
            let over : i - length xs ≡ suc (i - length xs - 1) = omega arith in
            rw (length-reverse xs, over) (ground arith)
      ]
    ]

get_or_out : (xs : List ℕ) (i : ℕ) → length xs ≤ i → get_or xs i 0 ≡ 0
get_or_out [] i h = refl
get_or_out (x ∷ xs) zero h = absurd (omega arith)
get_or_out (x ∷ xs) (suc i) h = get_or_out xs i (omega arith)

-- The in-place reversal reverses.
pub reverse_buf-eq : (xs : List ℕ) → reverse_buf (length xs) xs ≡ reverse xs
unfolding reverse_buf reverse_swap
reverse_buf-eq [] = refl
reverse_buf-eq (x ∷ xs) =
    let buf = x ∷ xs in
    let n = length buf in
    list_ext (reverse_buf n buf) (reverse buf)
      (length-reverse_swap n 0 (n - 1) buf ∙ sym (length-reverse buf))
      λ i.
        let same : 0 + (n - 1) - i ≡ n - 1 - i = omega arith in
        reverse_swap_get n 0 (n - 1) i buf (omega arith) (omega arith)
        ∙ rw same (ground (arith, get_or_out buf i))
        ∙ sym (get_or-reverse buf i)

-- The digit that a character stands for.
pub digit_value : ℕ → ℕ
digit_value c = if leb c b'9' then c - b'0' else c - b'A' + 10

-- The number that a list of digits stands for, the lowest digit first.
pub value_low : ℕ → List ℕ → ℕ
value_low base [] = 0
value_low base (c ∷ cs) = digit_value c + base * value_low base cs

-- The number that a text of digits stands for, as it is read.
pub value_from : ℕ → ℕ → List ℕ → ℕ
value_from base acc [] = acc
value_from base acc (c ∷ cs) = value_from base (acc * base + digit_value c) cs

value_from-append :
    (base acc : ℕ) (xs ys : List ℕ)
    → value_from base acc (xs ++ ys) ≡ value_from base (value_from base acc xs) ys
unfolding value_from
value_from-append base acc [] ys = refl
value_from-append base acc (x ∷ xs) ys = value_from-append base (acc * base + digit_value x) xs ys

value_from-reverse : (base : ℕ) (xs : List ℕ) → value_from base 0 (reverse xs) ≡ value_low base xs
unfolding value_from value_low
value_from-reverse base [] = refl
value_from-reverse base (x ∷ xs) = rw (reverse-cons x xs) (
    value_from-append base 0 (reverse xs) (x ∷ [])
    ∙ ap (λ (k : ℕ). k * base + digit_value x) (value_from-reverse base xs)
    ∙ omega arith)

digit_value-digit : (r : ℕ) → r < 16 → digit_value (digit r) ≡ r
unfolding digit_value
digit_value-digit r h = ground arith

quotient_falls : (v base k : ℕ) → 2 ≤ base → v < 2 * k → v / base < k
quotient_falls v base k h l = omega (arith, div-mul-le_self v base, mul-le-mul_left (v / base) h)

digits_of_value :
    (fuel v base : ℕ)
    → 2 ≤ base
    → base ≤ 16
    → v < 2 ^ fuel
    → value_low base (digits_of fuel v base) ≡ v
unfolding digits_of value_low
digits_of_value zero v base lo hi h = omega (arith, h)
digits_of_value (suc fuel) v base lo hi h =
    let double : 2 ^ suc fuel ≡ 2 * 2 ^ fuel = pow-succ' 2 fuel in
    ground (
      arith,
      digit_value-digit (v % base) (omega (arith, mod-lt v {m = base} (omega arith))),
      div-add-mod v base,
      digits_of_value fuel (v / base) base lo hi
          (quotient_falls v base (2 ^ fuel) lo (omega arith)),
    )

length-digits_of : (fuel v base : ℕ) → length (digits_of fuel v base) ≤ fuel
unfolding digits_of
length-digits_of zero v base = omega arith
length-digits_of (suc fuel) v base = ground (arith, length-digits_of fuel (v / base) base)

-- `utoa_s` prints every 32-bit number in every base from 2 to 16 so that reading the text in that
-- base gives the number back, in at most 32 characters, if the buffer has 33 bytes.
pub utoa_s_reads_back :
    (v base len : ℕ)
    → 2 ≤ base
    → base ≤ 16
    → v < 2 ^ 32
    → 33 ≤ len
    → (value_from base 0 (utoa_s v base len) ≡ v) × (length (utoa_s v base len) ≤ 32)
unfolding utoa_s
utoa_s_reads_back v base len lo hi h l =
    let low = digits_of 32 v base in
    let fits = length-digits_of 32 v base in
    let written : utoa_s v base len ≡ reverse low = ground (arith, reverse_buf-eq low) in
    (
      rw written (value_from-reverse base low ∙ digits_of_value 32 v base lo hi h),
      rw (written, length-reverse low) fits,
    )
