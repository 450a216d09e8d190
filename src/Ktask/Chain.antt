-- ===== src/Ktask/Chain.antt =====
-- kernel/ktask.c: pieces of a doubly linked list.
use airix.Prelude.{ℕ, ◌≤◌, ◌≡◌, sym, subst, ◌∙◌, ◌≢◌, List, [], ◌∷◌, ◌++◌, arith}
use airix.Sched.Ring.{count, count_self}

-- From a, the nodes xs, and then b.
abbrev pub Chain : (ℕ → ℕ) → (ℕ → ℕ) → ℕ → List ℕ → ℕ → Type 0
Chain prev next a [] b = (next a ≡ b) × (prev b ≡ a)
Chain prev next a (x ∷ xs) b = (next a ≡ x) × (prev x ≡ a) × Chain prev next x xs b

abbrev pub IsDistinct : List ℕ → Type 0
IsDistinct xs = (y : ℕ) → count y xs ≤ 1

pub ne_of : (a c : ℕ) (zs : List ℕ) → IsDistinct (a ∷ zs) → 1 ≤ count c zs → a ≢ c
ne_of a c zs d h e =
    let once = d a in
    let twice = count_self a zs in
    let here : 1 ≤ count a zs = subst (λ k. 1 ≤ count k zs) (sym e) h in omega arith

pub IsDistinct-tail : (a : ℕ) (zs : List ℕ) → IsDistinct (a ∷ zs) → IsDistinct zs
IsDistinct-tail a zs d y = ground (arith, d y)

-- The parts of two chains.
pub Chain-split :
    (prev next : ℕ → ℕ) (a x b : ℕ) (xs ys : List ℕ)
    → Chain prev next a (xs ++ (x ∷ ys)) b
    → Chain prev next a xs x × Chain prev next x ys b
Chain-split prev next a x b [] ys (n, p, rest) = ((n, p), rest)
Chain-split prev next a x b (y ∷ xs) ys (n, p, rest) =
    let (front, back) = Chain-split prev next y x b xs ys rest in ((n, p, front), back)

pub Chain-join :
    (prev next : ℕ → ℕ) (a x b : ℕ) (xs ys : List ℕ)
    → Chain prev next a xs x
    → Chain prev next x ys b
    → Chain prev next a (xs ++ (x ∷ ys)) b
Chain-join prev next a x b [] ys (n, p) back = (n, p, back)
Chain-join prev next a x b (y ∷ xs) ys (n, p, front) back =
    (n, p, Chain-join prev next y x b xs ys front back)

-- The node before the end is the start or in the chain, and so is the node behind the start.
pub end_in :
    (prev next : ℕ → ℕ) (a b : ℕ) (xs : List ℕ)
    → Chain prev next a xs b
    → 1 ≤ count (prev b) (a ∷ xs)
end_in prev next a b [] (n, p) = ground (arith, p)
end_in prev next a b (x ∷ xs) (n, p, rest) = ground (arith, end_in prev next x b xs rest)

pub start_in :
    (prev next : ℕ → ℕ) (a b : ℕ) (xs : List ℕ)
    → Chain prev next a xs b
    → 1 ≤ count (next a) (xs ++ (b ∷ []))
start_in prev next a b [] (n, p) = ground (arith, n)
start_in prev next a b (x ∷ xs) (n, p, rest) = ground (arith, n)

-- A chain depends on the next of its nodes and of the start, and on the prev of its nodes and of the end.
pub Chain-kept :
    (prev next prev' next' : ℕ → ℕ) (a b : ℕ) (xs : List ℕ)
    → ((y : ℕ) → 1 ≤ count y (a ∷ xs) → next' y ≡ next y)
    → ((y : ℕ) → 1 ≤ count y (xs ++ (b ∷ [])) → prev' y ≡ prev y)
    → Chain prev next a xs b
    → Chain prev' next' a xs b
Chain-kept prev next prev' next' a b [] same_n same_p (n, p) =
    (same_n a (ground arith) ∙ n, same_p b (ground arith) ∙ p)
Chain-kept prev next prev' next' a b (x ∷ xs) same_n same_p (n, p, rest) = (
  same_n a (ground arith) ∙ n,
  same_p x (ground arith) ∙ p,
  Chain-kept prev next prev' next' x b xs (λ y h. same_n y (ground arith))
      (λ y h. same_p y (ground arith)) rest,
)
