-- ===== src/Prelude/Bits.antt =====
-- Words with one-bit masks. A mask is a power of two, written as the numeral that the source uses.
-- For such a mask `w & m` is nonzero exactly when the quotient of w by m is odd, `w | m` adds m
-- where the bit is clear, and `w & ~m` takes m away where it is set.
use Prim.Native.Nat.{ℕ, ◌+◌, ◌-◌, ◌*◌, ◌/◌, ◌%◌, ◌^◌}
use mathlib.Core.Bool.{Bool}
use airix.Prelude.Tests.{◌==◌, if◌then◌else◌}

abbrev pub test_bit : ℕ → ℕ → Bool
test_bit w m = (w / m) % 2 == 1

abbrev pub set_bit : ℕ → ℕ → ℕ
set_bit w m = if test_bit w m then w else w + m

abbrev pub clear_bit : ℕ → ℕ → ℕ
clear_bit w m = if test_bit w m then w - m else w

-- Integers in memory from an offset on, the low byte first.
abbrev pub le16 : (ℕ → ℕ) → ℕ → ℕ
le16 b o = b o + 256 * b (o + 1)

abbrev pub le32 : (ℕ → ℕ) → ℕ → ℕ
le32 b o = le16 b o + 65536 * le16 b (o + 2)

abbrev pub le64 : (ℕ → ℕ) → ℕ → ℕ
le64 b o = le32 b o + 2 ^ 32 * le32 b (o + 4)
