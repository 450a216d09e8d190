-- ===== src/Print.antt =====
-- lib/vsnprintf.c. A buffer that is written through a moving pointer is the list of the characters
-- written so far; what is left of its size is carried along. Characters are their codes.

pub mod Bounds
pub mod Digits
pub mod Tests
use airix.Prelude.{
  ℕ, zero, suc, ◌+◌, ◌-◌, ◌*◌, ◌/◌, ◌%◌, ◌^◌, ◌≤◌, ◌<◌, min, ◌≡◌, refl, sym, ap, subst, ◌∙◌,
  fun_ext, ◌≢◌, ◌↔◌, ◌⊎◌, inl, inr, Bool, true, false, not, ◌&&◌, ◌||◌, Option, none, some, List,
  [], ◌∷◌, ◌++◌, map, reverse, arith, dec_lt, dec_le, ℕ_discrete, ltb, leb, ◌==◌, if◌then◌else◌,
  ltb→lt, lt→ltb, leb→le, le→leb, nle→leb, ==_iff, Bool-cases, Option-cases, tests, all_below,
  all_below_sound, length, get_elem?, get_or, set, take, drop, replicate, length-append, length-set,
  get_or-set_self, get_or-set_ne, length-take, length-replicate, test_bit, set_bit, clear_bit,
  update, update_self, update_ne, ◌>>=◌, >>=-eq-some, subst_some, nil_of_length,
}

-- `reverse` of the first `len` characters, by two indices that meet: on the rounds left.
pub reverse_swap : ℕ → ℕ → ℕ → List ℕ → List ℕ
reverse_swap zero l h buf = buf
reverse_swap (suc fuel) l h buf =
    let rest =
      reverse_swap fuel (l + 1) (h - 1) (set (set buf l (get_or buf h 0)) h (get_or buf l 0)) in
    if ltb l h then rest else buf

pub reverse_buf : ℕ → List ℕ → List ℕ
reverse_buf len buf = reverse_swap len 0 (len - 1) buf

abbrev pub digit : ℕ → ℕ
digit r = if ltb r 10 then b'0' + r else b'A' + r - 10

-- The `do … while` of `utoa_s`: the digits, lowest first. A number below 2 ^ fuel has at most
-- `fuel` digits.
pub digits_of : ℕ → ℕ → ℕ → List ℕ
digits_of zero v base = []
digits_of (suc fuel) v base =
    let rest = digits_of fuel (v / base) base in
    digit (v % base) ∷ (if v / base == 0 then [] else rest)

-- `utoa_s`: the characters written to `buf`, none for the result 0.
pub utoa_s : ℕ → ℕ → ℕ → List ℕ
utoa_s v base len =
    if ltb 16 base || ltb base 2
    then []
    else (let low = digits_of 32 v base in
        if ltb len (length low + 1) then [] else reverse_buf (length low) low)

-- `itoa_s`; i is the bit pattern of an `int`, and `-i` wraps.
pub itoa_s : ℕ → ℕ → ℕ → List ℕ
itoa_s i base len =
    if (base == 10) && leb (2 ^ 31) i
    then (if ltb len 1
        then []
        else (let s = utoa_s ((2 ^ 32 - i) % 2 ^ 32) base (len - 1) in
            if length s == 0 then [] else b'-' ∷ s))
    else utoa_s i base len

-- `copy_str`: at most n characters, up to the terminator, which ends the list.
pub copy_str : ℕ → List ℕ → List ℕ
copy_str n src = take n src

-- `fill_padding`.
pub fill_padding : ℕ → ℕ → ℕ → List ℕ
fill_padding size padding padding_len = replicate (min size padding_len) padding

-- `copy_with_padding`; the length 0 stands for that of the whole string.
pub copy_with_padding : ℕ → List ℕ → ℕ → Bool → ℕ → ℕ → List ℕ
copy_with_padding size str len left padding width =
    let len' = if len == 0 then length str else len in
    let padding_len = if ltb len' width then width - len' else 0 in
    let before = if not left then fill_padding size padding padding_len else [] in
    let copied = copy_str (size - length before) str in
    let after =
      if left
      then fill_padding (size - length before - length copied) padding padding_len
      else [] in
    before ++ (copied ++ after)

pub snprint_int : ℕ → ℕ → ℕ → Bool → ℕ → ℕ → List ℕ
snprint_int size i base left padding width =
    let str = itoa_s i base 33 in
    if length str == 0 then [] else copy_with_padding size str (length str) left padding width

pub snprint_uint : ℕ → ℕ → ℕ → Bool → ℕ → ℕ → List ℕ
snprint_uint size i base left padding width =
    let str = utoa_s i base 33 in
    if length str == 0 then [] else copy_with_padding size str (length str) left padding width

pub snprint_pointer : ℕ → ℕ → Bool → ℕ → ℕ → List ℕ
snprint_pointer size ptr left padding width =
    let str = utoa_s ptr 16 33 in
    if length str == 0
    then []
    else copy_with_padding size (b'0' ∷ b'x' ∷ str) (length str + 2) left padding width

-- The arguments of a call, in order.
pub data Arg : Type 0 where
  int_arg : ℕ → Arg
  str_arg : List ℕ → Arg

-- `va_arg(ap, int)` and the like; past the last argument, or at one of another kind, the source
-- reads what it finds, here 0 and the empty string.
abbrev pub next_int : List Arg → ℕ × List Arg
next_int [] = (0, [])
next_int (int_arg n ∷ ap) = (n, ap)
next_int (str_arg s ∷ ap) = (0, ap)

abbrev pub next_str : List Arg → List ℕ × List Arg
next_str [] = ([], [])
next_str (str_arg s ∷ ap) = (s, ap)
next_str (int_arg n ∷ ap) = ([], ap)

-- The flags of a conversion, then its width, with the format that is left.
pub record Spec : Type 0 where
  pub left : Bool
  pub padding : ℕ
  pub width : ℕ
  pub fmt : List ℕ

-- `while (c == '-' || c == ' ' || c == '0')`.
pub scan_flags : Bool → ℕ → List ℕ → Spec
scan_flags left padding [] = record { left = left; padding = padding; width = 0; fmt = [] }
scan_flags left padding (c ∷ fmt) =
    let rest =
      scan_flags (left || (c == b'-'))
        (if c == b' ' then b' ' else if c == b'0' then b'0' else padding) fmt in
    if (c == b'-') || (c == b' ') || (c == b'0')
    then rest
    else record { left = left; padding = padding; width = 0; fmt = c ∷ fmt }

-- `while (c >= '0' && c <= '9')`; the width is a `size_t` of 32 bits.
pub scan_width : ℕ → List ℕ → ℕ × List ℕ
scan_width width [] = (width, [])
scan_width width (c ∷ fmt) =
    let rest = scan_width ((width * 10 + c - b'0') % 2 ^ 32) fmt in
    if leb b'0' c && leb c b'9' then rest else (width, c ∷ fmt)

-- What a conversion writes, with the format and the arguments that are left.
pub record Conv : Type 0 where
  pub text : List ℕ
  pub fmt : List ℕ
  pub ap : List Arg

-- The last `switch`; an unknown character is not skipped, and is copied by the next round.
pub convert : ℕ → Bool → ℕ → ℕ → List ℕ → List Arg → Conv
convert size left padding width [] ap = record { text = []; fmt = []; ap = ap }
convert size left padding width (c ∷ fmt) ap =
    if c == b'c'
    then record { text = (next_int ap).0 % 256 ∷ []; fmt = fmt; ap = (next_int ap).1 }
    else if c == b's'
    then record {
      text = copy_with_padding size (next_str ap).0 0 left padding width;
      fmt = fmt;
      ap = (next_str ap).1;
    }
    else if c == b'd'
    then record {
      text = snprint_int size (next_int ap).0 10 left padding width;
      fmt = fmt;
      ap = (next_int ap).1;
    }
    else if c == b'p'
    then record {
      text = snprint_pointer size (next_int ap).0 left padding width;
      fmt = fmt;
      ap = (next_int ap).1;
    }
    else if c == b'x'
    then record {
      text = snprint_uint size (next_int ap).0 16 left padding width;
      fmt = fmt;
      ap = (next_int ap).1;
    }
    else if c == b'u'
    then record {
      text = snprint_uint size (next_int ap).0 10 left padding width;
      fmt = fmt;
      ap = (next_int ap).1;
    }
    else if c == b'%'
    then record { text = b'%' ∷ []; fmt = fmt; ap = ap }
    else record { text = []; fmt = c ∷ fmt; ap = ap }

-- A round at a `%`: flags, width and conversion.
pub conversion : ℕ → List ℕ → List Arg → Conv
conversion size fmt ap =
    let spec = scan_flags false b' ' fmt in
    let padding = if spec.left then b' ' else spec.padding in
    let w = scan_width 0 spec.fmt in convert size spec.left padding w.0 w.1 ap

-- The main loop of `vsnprintf`, on fuel, with the room that is left.
pub print_loop : ℕ → ℕ → List ℕ → List Arg → Option (List ℕ)
print_loop zero size fmt ap = none
print_loop (suc fuel) zero fmt ap = some []
print_loop (suc fuel) (suc size) [] ap = some []
print_loop (suc fuel) (suc size) (c ∷ fmt) ap = elim (c == b'%') [
  | true ↦
      let conv = conversion (suc size) fmt ap in
      print_loop fuel (suc size - length conv.text) conv.fmt conv.ap >>= λ more.
      some (conv.text ++ more)
  | false ↦ print_loop fuel size fmt ap >>= λ more. some (c ∷ more)
]

-- `vsnprintf`: the characters that are in the buffer before the terminator; their number is the
-- result. Where the buffer has been filled its last character gives way to the terminator.
pub vsnprintf : ℕ → ℕ → List ℕ → List Arg → Option (List ℕ)
vsnprintf fuel size fmt ap = print_loop fuel size fmt ap >>= λ out.
    some (if ltb (length out) size then out else take (size - 1) out)

-- `snprintf` passes its arguments on.
pub snprintf : ℕ → ℕ → List ℕ → List Arg → Option (List ℕ)
snprintf fuel size fmt args = vsnprintf fuel size fmt args
