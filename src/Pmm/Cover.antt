-- ===== src/Pmm/Cover.antt =====
-- How often a page lies in the blocks of a list, of an area and of all areas: the view by which the
-- allocator is specified.
use airix.Prelude.{
  ℕ, zero, suc, ◌+◌, ◌≤◌, ◌<◌, ◌≡◌, refl, subst, ◌⊎◌, Bool, true, false, ◌&&◌, ◌||◌, List, [], ◌∷◌,
  arith, dec_lt, ℕ_discrete, ltb, leb, ◌==◌, if◌then◌else◌, length, update, update_self, update_ne,
}
use airix.Pmm.{Pmm, order_pages, remove}
use airix.Pmm.Orders.{order_pages_double}

-- A block is its first page and its order.
abbrev pub Block : Type 0
Block = ℕ × ℕ

-- 1 for the pages of a block, 0 elsewhere.
unfoldable pub covers : ℕ → ℕ → ℕ → ℕ
covers b o p = if leb b p && ltb p (b + order_pages o) then 1 else 0

unfoldable pub cover_blocks : List Block → ℕ → ℕ
cover_blocks [] p = 0
cover_blocks ((b, o) ∷ bs) p = covers b o p + cover_blocks bs p

unfoldable pub cover_list : ℕ → List ℕ → ℕ → ℕ
cover_list o [] p = 0
cover_list o (b ∷ bs) p = covers b o p + cover_list o bs p

-- The areas below order n.
unfoldable pub cover_areas : ℕ → (ℕ → List ℕ) → ℕ → ℕ
cover_areas zero areas p = 0
cover_areas (suc n) areas p = cover_list n (areas n) p + cover_areas n areas p

-- The free pages.
abbrev pub free_cover : Pmm → ℕ → ℕ
free_cover s p = cover_areas 11 s.areas p

unfoldable pub memb : ℕ → List ℕ → Bool
memb x [] = false
memb x (y ∷ ys) = (y == x) || memb x ys

unfoldable pub has_block : ℕ → ℕ → List Block → Bool
has_block x o [] = false
has_block x o ((y, k) ∷ bs) = ((y == x) && (k == o)) || has_block x o bs

pub covers_self : (b o : ℕ) → 0 < order_pages o → covers b o b ≡ 1
unfolding covers
covers_self b o h = ground arith

pub covers_range :
    (b o p : ℕ) → 1 ≤ covers b o p → (b ≤ p) × (p < b + order_pages o) × (covers b o p ≡ 1)
unfolding covers
covers_range b o p h = ground arith

pub covers_in : (b o p : ℕ) → b ≤ p → p < b + order_pages o → covers b o p ≡ 1
unfolding covers
covers_in b o p lo hi = ground arith

pub covers_out : (b o p : ℕ) → (p < b) ⊎ (b + order_pages o ≤ p) → covers b o p ≡ 0
unfolding covers
covers_out b o p h = ground arith

-- A block of the next order is two buddies.
pub covers_join :
    (b o p : ℕ) → o + 1 < 11 → covers b (o + 1) p ≡ covers b o p + covers (b + order_pages o) o p
unfolding covers
covers_join b o p h = ground (arith, order_pages_double o h)

pub cover_list-remove :
    (x o p : ℕ) (xs : List ℕ)
    → memb x xs ≡ true
    → cover_list o xs p ≡ covers x o p + cover_list o (remove x xs) p
unfolding cover_list memb remove
cover_list-remove x o p [] h = cc
cover_list-remove x o p (y ∷ ys) h = ground (arith, cover_list-remove x o p ys)

pub memb-remove : (x y : ℕ) (xs : List ℕ) → memb y (remove x xs) ≡ true → memb y xs ≡ true
unfolding memb remove
memb-remove x y [] h = h
memb-remove x y (z ∷ zs) h = ground (arith, memb-remove x y zs)

pub length-remove : (x : ℕ) (xs : List ℕ) → memb x xs ≡ true → length xs ≡ length (remove x xs) + 1
unfolding memb remove
length-remove x [] h = cc
length-remove x (y ∷ ys) h = ground (arith, length-remove x ys)

pub covers-le-list : (x o p : ℕ) (xs : List ℕ) → memb x xs ≡ true → covers x o p ≤ cover_list o xs p
covers-le-list x o p xs h = omega (arith, cover_list-remove x o p xs h)

-- A page that is covered lies in a block of the list.
pub list_block :
    (o p : ℕ) (xs : List ℕ)
    → 1 ≤ cover_list o xs p
    → (x : ℕ) × (memb x xs ≡ true) × (covers x o p ≡ 1)
unfolding cover_list memb
list_block o p [] h = absurd (omega arith)
list_block o p (x ∷ xs) h = elim (dec_lt 0 (covers x o p)) [
  | yes here ↦ (x, ground arith, (covers_range x o p here).2)
  | no there ↦ let (y, m, c) = list_block o p xs (omega arith) in (y, ground arith, c)
]

pub areas_block :
    (n p : ℕ) (areas : ℕ → List ℕ)
    → 1 ≤ cover_areas n areas p
    → (o : ℕ) × (x : ℕ) × (o < n) × (memb x (areas o) ≡ true) × (covers x o p ≡ 1)
unfolding cover_areas
areas_block zero p areas h = absurd (omega arith)
areas_block (suc n) p areas h = elim (dec_lt 0 (cover_list n (areas n) p)) [
  | yes here ↦ let (x, m, c) = list_block n p (areas n) here in (n, x, omega arith, m, c)
  | no there ↦
      let (o, x, l, m, c) = areas_block n p areas (omega arith) in (o, x, omega arith, m, c)
]

pub blocks_block :
    (p : ℕ) (bs : List Block)
    → 1 ≤ cover_blocks bs p
    → (x : ℕ) × (o : ℕ) × (has_block x o bs ≡ true) × (covers x o p ≡ 1)
unfolding cover_blocks has_block
blocks_block p [] h = absurd (omega arith)
blocks_block p ((x, o) ∷ bs) h = elim (dec_lt 0 (covers x o p)) [
  | yes here ↦ (x, o, ground arith, (covers_range x o p here).2)
  | no there ↦ let (y, k, m, c) = blocks_block p bs (omega arith) in (y, k, ground arith, c)
]

pub covers-le-blocks :
    (x o p : ℕ) (bs : List Block) → has_block x o bs ≡ true → covers x o p ≤ cover_blocks bs p
unfolding cover_blocks has_block
covers-le-blocks x o p [] h = cc
covers-le-blocks x o p ((y, k) ∷ bs) h = ground (arith, covers-le-blocks x o p bs)

cover_areas-update_above :
    (n o p : ℕ) (areas : ℕ → List ℕ) (xs : List ℕ)
    → n ≤ o
    → cover_areas n (update areas o xs) p ≡ cover_areas n areas p
unfolding cover_areas
cover_areas-update_above zero o p areas xs h = refl
cover_areas-update_above (suc n) o p areas xs h =
    rw (update_ne areas o n xs (omega arith), cover_areas-update_above n o p areas xs (omega arith))

-- One area changed.
pub cover_areas-update :
    (n o p : ℕ) (areas : ℕ → List ℕ) (xs : List ℕ)
    → o < n
    → cover_areas n (update areas o xs) p + cover_list o (areas o) p
      ≡ cover_areas n areas p + cover_list o xs p
unfolding cover_areas
cover_areas-update zero o p areas xs h = absurd (omega arith)
cover_areas-update (suc n) o p areas xs h = elim (ℕ_discrete o n) [
  | yes e ↦
      rw (e, update_self areas n xs)
        (omega (arith, cover_areas-update_above n n p areas xs (omega arith)))
  | no ne ↦
      rw (update_ne areas o n xs ne)
        (omega (arith, cover_areas-update n o p areas xs (omega arith)))
]

pub covers-le-areas :
    (n o x p : ℕ) (areas : ℕ → List ℕ)
    → o < n
    → memb x (areas o) ≡ true
    → covers x o p ≤ cover_areas n areas p
unfolding cover_areas
covers-le-areas zero o x p areas h m = absurd (omega arith)
covers-le-areas (suc n) o x p areas h m = elim (ℕ_discrete o n) [
  | yes e ↦
      let m' = subst (λ k. memb x (areas k) ≡ true) e m in
      rw e (omega (arith, covers-le-list x n p (areas n) m'))
  | no ne ↦ omega (arith, covers-le-areas n o x p areas (omega arith) m)
]

unfoldable pub erase_block : ℕ → ℕ → List Block → List Block
erase_block x o [] = []
erase_block x o ((y, k) ∷ bs) = if (y == x) && (k == o) then bs else (y, k) ∷ erase_block x o bs

pub cover_blocks-erase :
    (x o p : ℕ) (bs : List Block)
    → has_block x o bs ≡ true
    → cover_blocks bs p ≡ covers x o p + cover_blocks (erase_block x o bs) p
unfolding cover_blocks has_block erase_block
cover_blocks-erase x o p [] h = cc
cover_blocks-erase x o p ((y, k) ∷ bs) h = ground (arith, cover_blocks-erase x o p bs)

pub has_block-erase :
    (x o y k : ℕ) (bs : List Block)
    → has_block y k (erase_block x o bs) ≡ true
    → has_block y k bs ≡ true
unfolding has_block erase_block
has_block-erase x o y k [] h = h
has_block-erase x o y k ((z, j) ∷ bs) h = ground (arith, has_block-erase x o y k bs)
