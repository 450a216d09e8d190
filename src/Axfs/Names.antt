-- ===== src/Axfs/Names.antt =====
-- fs/axfs.c: a path as its names, and what the loop of `namex` cuts from it.
use airix.Prelude.{
  ℕ, suc, ◌+◌, ◌-◌, ◌≤◌, ◌<◌, ◌≡◌, refl, ap, inl, inr, List, [], ◌∷◌, ◌++◌, arith, ◌==◌,
  if◌then◌else◌, Bool-cases, length, length-append,
}
use airix.Axfs.{str_find, next_begin}

-- A path cut at its separators, and its names up to the first empty one.
unfoldable pub put_first : ℕ → List (List ℕ) → List (List ℕ)
put_first x [] = (x ∷ []) ∷ []
put_first x (c ∷ cs) = (x ∷ c) ∷ cs

unfoldable pub split : List ℕ → List (List ℕ)
split [] = [] ∷ []
split (x ∷ xs) = if x == 47 then [] ∷ split xs else put_first x (split xs)

unfoldable pub up_to_empty : List (List ℕ) → List (List ℕ)
up_to_empty [] = []
up_to_empty ([] ∷ cs) = []
up_to_empty ((x ∷ c) ∷ cs) = (x ∷ c) ∷ up_to_empty cs

abbrev pub names : List ℕ → List (List ℕ)
names path = up_to_empty (split path)

-- The bytes before the first separator.
pub head_name : List ℕ → List ℕ
head_name [] = []
head_name (x ∷ xs) = if x == 47 then [] else x ∷ head_name xs

pub head_name-str_find : (xs : List ℕ) → head_name xs ++ str_find xs 47 ≡ xs
unfolding head_name str_find
head_name-str_find [] = refl
head_name-str_find (x ∷ xs) = elim (Bool-cases (x == 47)) [
  | inl sep ↦ rw sep refl
  | inr other ↦ rw other (ap (λ ys. x ∷ ys) (head_name-str_find xs))
]

pub length-head_name : (xs : List ℕ) → length xs - length (str_find xs 47) ≡ length (head_name xs)
length-head_name xs =
    omega (arith, ap length (head_name-str_find xs), length-append (head_name xs) (str_find xs 47))

-- The rest of the names, behind a separator.
tail_names : List ℕ → List (List ℕ)
tail_names [] = []
tail_names (x ∷ xs) = split xs

split-head_name : (xs : List ℕ) → split xs ≡ head_name xs ∷ tail_names (str_find xs 47)
unfolding split put_first head_name tail_names str_find
split-head_name [] = refl
split-head_name (x ∷ xs) = elim (Bool-cases (x == 47)) [
  | inl sep ↦ rw sep refl
  | inr other ↦ rw (other, split-head_name xs) refl
]

up_to_empty-tail_names : (xs : List ℕ) → up_to_empty (tail_names xs) ≡ names (next_begin xs)
unfolding up_to_empty tail_names split
up_to_empty-tail_names [] = refl
up_to_empty-tail_names (x ∷ xs) = refl

pub names_cons :
    (xs : List ℕ) (c : ℕ) (cs : List ℕ)
    → head_name xs ≡ c ∷ cs
    → names xs ≡ head_name xs ∷ names (next_begin (str_find xs 47))
unfolding up_to_empty
names_cons xs c cs e = rw (split-head_name xs, e, up_to_empty-tail_names (str_find xs 47)) refl

pub names_none : (xs : List ℕ) → head_name xs ≡ [] → names xs ≡ []
unfolding up_to_empty
names_none xs e = rw (split-head_name xs, e) refl

length-rest : (xs : List ℕ) → length (next_begin xs) ≤ length xs
length-rest [] = omega arith
length-rest (x ∷ xs) = omega arith

pub names_step :
    (k : ℕ) (xs : List ℕ) (c : ℕ) (cs : List ℕ)
    → head_name xs ≡ c ∷ cs
    → length (names xs) + k ≡ suc (length (names (next_begin (str_find xs 47))) + k)
names_step k xs c cs e = omega (arith, ap length (names_cons xs c cs e))

-- The rest of the path is shorter than the path.
pub length-next_begin :
    (xs : List ℕ) (c : ℕ) (cs : List ℕ)
    → head_name xs ≡ c ∷ cs
    → length (next_begin (str_find xs 47)) < length xs
length-next_begin xs c cs e = omega (
  arith,
  ap length (head_name-str_find xs),
  length-append (head_name xs) (str_find xs 47),
  ap length e,
  length-rest (str_find xs 47),
)
