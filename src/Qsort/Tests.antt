-- ===== src/Qsort/Tests.antt =====
-- The theorem on qsort, at numbers.
use Prim.Native.Nat.{compare}
use airix.Prelude.{ℕ, ◌-◌, ◌≡◌, some, arith}
use airix.Qsort.{is_less, qsort}
use airix.Qsort.Insert.{is_more, IsOrder, Sorted, Keeps}
use airix.Qsort.Sort.{qsort-Sorted}

compare-IsOrder : IsOrder compare
unfolding is_less is_more
compare-IsOrder = record {
  same = λ a. ground arith;
  below = λ a b h. ground arith;
  through = λ a b c h h'. ground arith;
}

-- Twelve numbers, from the largest on.
abbrev downwards : ℕ → ℕ
downwards k = 20 - k

qsort-Sorted_example :
    (f' : ℕ → ℕ) × (qsort compare 13 3 12 downwards ≡ some f')
    × Sorted compare compare-IsOrder 3 12 f'
    × Keeps 3 12 downwards f'
qsort-Sorted_example = qsort-Sorted compare compare-IsOrder 13 3 12 downwards (omega arith)
