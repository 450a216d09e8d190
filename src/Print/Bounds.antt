-- ===== src/Print/Bounds.antt =====
-- The room of the buffer and the loop of vsnprintf of lib/vsnprintf.c.
use airix.Prelude.{
  ℕ, zero, suc, ◌+◌, ◌-◌, ◌*◌, ◌%◌, ◌^◌, ◌≤◌, ◌<◌, ◌≡◌, refl, ap, inl, inr, Bool, true, false, ◌||◌,
  some, List, [], ◌∷◌, ◌++◌, arith, ltb, ◌==◌, if◌then◌else◌, Bool-cases, length, take,
  length-append, length-take, length-replicate,
}
use airix.Print.{
  Arg, Conv, next_int, next_str, copy_str, fill_padding, copy_with_padding, snprint_int,
  snprint_uint, snprint_pointer, scan_flags, scan_width, convert, conversion, print_loop, vsnprintf,
  itoa_s, utoa_s,
}

-- Padding and text together fit.
pub copy_with_padding-le :
    (size : ℕ) (str : List ℕ) (len : ℕ) (left : Bool) (padding width : ℕ)
    → length (copy_with_padding size str len left padding width) ≤ size
unfolding copy_with_padding fill_padding copy_str
copy_with_padding-le size str len true padding width =
    simp (length-append, length-replicate, length-take) (omega arith)
copy_with_padding-le size str len false padding width =
    simp (length-append, length-replicate, length-take) (omega arith)

scan_flags-le :
    (left : Bool) (padding : ℕ) (fmt : List ℕ)
    → length (scan_flags left padding fmt).fmt ≤ length fmt
unfolding scan_flags
scan_flags-le left padding [] = omega arith
scan_flags-le left padding (c ∷ fmt) = ground (
  arith,
  scan_flags-le (left || (c == b'-'))
      (if c == b' ' then b' ' else if c == b'0' then b'0' else padding) fmt,
)

scan_width-le : (width : ℕ) (fmt : List ℕ) → length (scan_width width fmt).1 ≤ length fmt
unfolding scan_width
scan_width-le width [] = omega arith
scan_width-le width (c ∷ fmt) = ground (arith, scan_width-le ((width * 10 + c - b'0') % 2 ^ 32) fmt)

-- A conversion fits into the room that is left, and does not lengthen the format.
abbrev Fits : ℕ → List ℕ → Conv → Type 0
Fits size fmt conv = (length conv.text ≤ size) × (length conv.fmt ≤ length fmt)

snprint_int-le :
    (size i base : ℕ) (left : Bool) (padding width : ℕ)
    → length (snprint_int size i base left padding width) ≤ size
unfolding snprint_int
snprint_int-le size i base left padding width = ground (
  arith,
  copy_with_padding-le size (itoa_s i base 33) (length (itoa_s i base 33)) left padding width,
)

snprint_uint-le :
    (size i base : ℕ) (left : Bool) (padding width : ℕ)
    → length (snprint_uint size i base left padding width) ≤ size
unfolding snprint_uint
snprint_uint-le size i base left padding width = ground (
  arith,
  copy_with_padding-le size (utoa_s i base 33) (length (utoa_s i base 33)) left padding width,
)

snprint_pointer-le :
    (size p : ℕ) (left : Bool) (padding width : ℕ)
    → length (snprint_pointer size p left padding width) ≤ size
unfolding snprint_pointer
snprint_pointer-le size p left padding width = ground (
  arith,
  copy_with_padding-le size (b'0' ∷ b'x' ∷ utoa_s p 16 33) (length (utoa_s p 16 33) + 2) left
      padding width,
)

convert-Fits :
    (size : ℕ) (left : Bool) (padding width : ℕ) (fmt : List ℕ) (ap : List Arg)
    → 0 < size
    → Fits size fmt (convert size left padding width fmt ap)
unfolding convert
convert-Fits size left padding width [] ap h = omega arith
convert-Fits size left padding width (c ∷ fmt) ap h = ground (
  arith,
  copy_with_padding-le size (next_str ap).0 0 left padding width,
  snprint_int-le size (next_int ap).0 10 left padding width,
  snprint_pointer-le size (next_int ap).0 left padding width,
  snprint_uint-le size (next_int ap).0 16 left padding width,
  snprint_uint-le size (next_int ap).0 10 left padding width,
)

conversion-Fits :
    (size : ℕ) (fmt : List ℕ) (ap : List Arg) → 0 < size → Fits size fmt (conversion size fmt ap)
unfolding conversion
conversion-Fits size fmt ap h =
    let spec = scan_flags false b' ' fmt in
    let padding = if spec.left then b' ' else spec.padding in
    let fits =
      convert-Fits size spec.left padding (scan_width 0 spec.fmt).0 (scan_width 0 spec.fmt).1 ap
        h in
    (fits.0, omega (arith, fits.1, scan_flags-le false b' ' fmt, scan_width-le 0 spec.fmt))

-- The loop ends for every format and every list of arguments, and what it writes fits into the room.
print_loop-le :
    (fuel size : ℕ) (fmt : List ℕ) (ap : List Arg)
    → length fmt < fuel
    → (out : List ℕ) × (print_loop fuel size fmt ap ≡ some out) × (length out ≤ size)
unfolding print_loop
print_loop-le zero size fmt ap h = absurd (omega arith)
print_loop-le (suc fuel) zero fmt ap h = ([], refl, omega arith)
print_loop-le (suc fuel) (suc size) [] ap h = ([], refl, omega arith)
print_loop-le (suc fuel) (suc size) (c ∷ fmt) ap h = elim (Bool-cases (c == b'%')) [
  | inl percent ↦
      let conv = conversion (suc size) fmt ap in
      let fits = conversion-Fits (suc size) fmt ap (omega arith) in
      let (out, e, le) =
        print_loop-le fuel (suc size - length conv.text) conv.fmt conv.ap (omega (arith, fits)) in
      (
        conv.text ++ out,
        rw (percent, print_loop) (rw e),
        omega (arith, fits, le, length-append conv.text out),
      )
  | inr other ↦
      let (out, e, le) = print_loop-le fuel size fmt ap (omega arith) in
      (c ∷ out, rw (other, print_loop) (rw e), omega (arith, le))
]

-- `vsnprintf` returns for every format, whatever the arguments; and where the buffer has room for
-- anything, what it leaves there is shorter than the buffer, so that the terminator is inside.
pub vsnprintf_fits :
    (fuel size : ℕ) (fmt : List ℕ) (args : List Arg)
    → length fmt < fuel
    → (out : List ℕ) × (vsnprintf fuel size fmt args ≡ some out)
      × (length out ≤ size)
      × (0 < size → length out < size)
unfolding vsnprintf
vsnprintf_fits fuel size fmt args h =
    let (out, e, le) = print_loop-le fuel size fmt args h in
    (
      (if ltb (length out) size then out else take (size - 1) out),
      rw e,
      ground (arith, length-take (size - 1) out),
      λ pos. ground (arith, length-take (size - 1) out),
    )
