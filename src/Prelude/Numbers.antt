-- ===== src/Prelude/Numbers.antt =====
-- The laws of native addition by which a recursion on a number is unfolded.
use Prim.Native.Nat.{ℕ, suc, ◌+◌}
use mathlib.Core.Path.{◌≡◌}
use native.Mathlib.Omega.{arith}

pub zero_add : (k : ℕ) → 0 + k ≡ k
zero_add k = omega arith

pub add_zero : (k : ℕ) → k + 0 ≡ k
add_zero k = omega arith

pub add_suc : (p m : ℕ) → p + suc m ≡ p + 1 + m
add_suc p m = omega arith

pub suc_add : (m k : ℕ) → suc m + k ≡ suc (m + k)
suc_add m k = omega arith
