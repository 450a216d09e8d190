-- ===== src/Sched/Ring.antt =====
-- A ring in which no process is twice.
use airix.Prelude.{ℕ, ◌+◌, ◌≡◌, refl, ◌||◌, List, [], ◌∷◌, ◌++◌, arith, ◌==◌, if◌then◌else◌}
use airix.Pmm.Cover.{memb}
use airix.Slab.{unlink}
use airix.Sched.{first, after}

abbrev pub count : ℕ → List ℕ → ℕ
count y [] = 0
count y (x ∷ xs) = (if x == y then 1 else 0) + count y xs

pub count-append : (y : ℕ) (xs ys : List ℕ) → count y (xs ++ ys) ≡ count y xs + count y ys
count-append y [] ys = omega arith
count-append y (x ∷ xs) ys = omega (arith, count-append y xs ys)

pub count_self : (x : ℕ) (xs : List ℕ) → count x (x ∷ xs) ≡ 1 + count x xs
count_self x xs = ground arith

pub unlink_absent : (x : ℕ) (xs : List ℕ) → count x xs ≡ 0 → unlink x xs ≡ xs
unfolding unlink
unlink_absent x [] h = refl
unlink_absent x (y ∷ ys) h = ground (arith, unlink_absent x ys)

pub unlink_middle :
    (x : ℕ) (xs ys : List ℕ)
    → count x xs ≡ 0
    → count x ys ≡ 0
    → unlink x (xs ++ (x ∷ ys)) ≡ xs ++ ys
unfolding unlink
unlink_middle x [] ys h k = ground (arith, unlink_absent x ys k)
unlink_middle x (y ∷ xs) ys h k = ground (arith, unlink_middle x xs ys)

pub after_middle : (x : ℕ) (xs ys : List ℕ) → count x xs ≡ 0 → after x (xs ++ (x ∷ ys)) ≡ first ys
unfolding after
after_middle x [] ys h = ground arith
after_middle x (y ∷ xs) ys h = ground (arith, after_middle x xs ys)

pub memb-append : (y : ℕ) (xs ys : List ℕ) → memb y (xs ++ ys) ≡ memb y xs || memb y ys
unfolding memb
memb-append y [] ys = refl
memb-append y (x ∷ xs) ys = ground (arith, memb-append y xs ys)
