-- ===== src/Print/Tests.antt =====
-- Runs of the printer, and its theorems at concrete formats and numbers.
use airix.Prelude.{ℕ, ◌≤◌, ◌<◌, ◌≡◌, refl, false, some, List, [], ◌∷◌, arith, length}
use airix.Print.{
  Arg, int_arg, utoa_s, itoa_s, digits_of, reverse_buf, reverse_swap, vsnprintf, snprintf,
  print_loop, conversion, convert, scan_flags, scan_width, copy_with_padding, copy_str,
  fill_padding, snprint_int, snprint_uint,
}
use airix.Print.Bounds.{vsnprintf_fits, copy_with_padding-le}
use airix.Print.Digits.{value_from, utoa_s_reads_back, reverse_buf-eq}

-- `"%-4d|%04x"`.
abbrev two_numbers : List ℕ
two_numbers = b'%' ∷ b'-' ∷ b'4' ∷ b'd' ∷ b'|' ∷ b'%' ∷ b'0' ∷ b'4' ∷ b'x' ∷ []

abbrev numbers : List Arg
numbers = int_arg 42 ∷ int_arg 255 ∷ []

-- `"42  |00FF"`.
prints :
    snprintf 10 16 two_numbers numbers
    ≡ some (b'4' ∷ b'2' ∷ b' ' ∷ b' ' ∷ b'|' ∷ b'0' ∷ b'0' ∷ b'F' ∷ b'F' ∷ [])
unfolding snprintf vsnprintf print_loop conversion convert scan_flags scan_width copy_with_padding
    copy_str fill_padding snprint_int snprint_uint itoa_s utoa_s digits_of reverse_buf reverse_swap
prints = refl

vsnprintf_fits_example :
    (out : List ℕ) × (vsnprintf 10 6 two_numbers numbers ≡ some out)
    × (length out ≤ 6)
    × (0 < 6 → length out < 6)
vsnprintf_fits_example = vsnprintf_fits 10 6 two_numbers numbers (omega arith)

copy_with_padding-le_example : length (copy_with_padding 3 (b'a' ∷ b'b' ∷ []) 0 false b' ' 9) ≤ 3
copy_with_padding-le_example = copy_with_padding-le 3 (b'a' ∷ b'b' ∷ []) 0 false b' ' 9

utoa_s_reads_back_example :
    (value_from 16 0 (utoa_s 48879 16 33) ≡ 48879) × (length (utoa_s 48879 16 33) ≤ 32)
utoa_s_reads_back_example =
    utoa_s_reads_back 48879 16 33 (omega arith) (omega arith) (omega arith) (omega arith)

reverse_buf-eq_example : reverse_buf 3 (1 ∷ 2 ∷ 3 ∷ []) ≡ 3 ∷ 2 ∷ 1 ∷ []
reverse_buf-eq_example = reverse_buf-eq (1 ∷ 2 ∷ 3 ∷ [])
