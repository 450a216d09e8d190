-- ===== src/Pmm.antt =====
-- mm/pmm.c: the buddy allocator. A `struct page` pointer is its index in `pages`; the nodes of a
-- free block area, linked through the free pages themselves, are the list of their page numbers,
-- the sentry's `next` first. A table indexed by page or order is a function of the index.

pub mod Orders
pub mod Tests
pub mod Effect
pub mod Alloc
pub mod Free
pub mod Valid
pub mod Areas
pub mod Hand
pub mod Cover
use airix.Prelude.{
  ℕ, zero, suc, ◌+◌, ◌-◌, ◌%◌, ◌&&◌, Option, none, some, List, [], ◌∷◌, get_or, ltb, leb, ◌==◌,
  if◌then◌else◌, update,
}

abbrev pub buddy_max_order : ℕ
buddy_max_order = 11

abbrev pub page_size : ℕ
page_size = 4096

-- `enum page_flag`.
abbrev pub page_flag_used : ℕ
page_flag_used = 0x1

abbrev pub page_flag_lock : ℕ
page_flag_lock = 0x2

-- The global state: `pages` by its two fields, `free_blocks` by its four. `areas o` are the page
-- numbers of the free blocks of order o.
pub record Pmm : Type 0 where
  pub flags : ℕ → ℕ
  pub order : ℕ → ℕ
  pub total_pages : ℕ
  pub num_pages : ℕ
  pub num_blocks : ℕ → ℕ
  pub areas : ℕ → List ℕ

-- `order_pages`.
abbrev pub order_pages_table : List ℕ
order_pages_table = 1 ∷ 2 ∷ 4 ∷ 8 ∷ 16 ∷ 32 ∷ 64 ∷ 128 ∷ 256 ∷ 512 ∷ 1024 ∷ []

pub order_pages : ℕ → ℕ
order_pages o = get_or order_pages_table o 0

-- Unlinking a node; a node that is not linked is not met.
pub remove : ℕ → List ℕ → List ℕ
remove p [] = []
remove p (x ∷ xs) = if x == p then xs else x ∷ remove p xs

pub split_block_from_area : ℕ → ℕ → Pmm → Pmm
split_block_from_area block o s = record s {
  areas = update s.areas o (remove block (s.areas o));
  num_blocks = update s.num_blocks o (s.num_blocks o - 1);
}

pub insert_block_into_area : ℕ → ℕ → Pmm → Pmm
insert_block_into_area block o s = record s {
  areas = update s.areas o (block ∷ s.areas o);
  num_blocks = update s.num_blocks o (s.num_blocks o + 1);
  flags = update s.flags block 0;
  order = update s.order block o;
}

-- A buddy below the first page or past the last one does not exist.
pub get_buddy : ℕ → ℕ → Pmm → Option ℕ
get_buddy block o s =
    if leb buddy_max_order (o + 1)
    then none
    else if block % order_pages (o + 1) == 0
    then (if leb s.total_pages (block + order_pages o) then none else some (block + order_pages o))
    else if ltb block (order_pages o)
    then none
    else if leb s.total_pages (block - order_pages o)
    then none
    else some (block - order_pages o)

pub merge_buddy : ℕ → ℕ → ℕ
merge_buddy buddy1 buddy2 = if ltb buddy1 buddy2 then buddy1 else buddy2

pub split_buddy : ℕ → ℕ → ℕ
split_buddy block o = block + order_pages o

-- The first block of the area, taken out of it; `none` for an empty area.
pub alloc_block_from_area : ℕ → Pmm → Option (ℕ × Pmm)
alloc_block_from_area o s = elim (s.areas o) [
  | [] ↦ none
  | b ∷ rest ↦ some (
    b,
    record s {
      areas = update s.areas o rest;
      num_blocks = update s.num_blocks o (s.num_blocks o - 1);
    },
  )
]

-- The `while` of `alloc_block`, on the number of splits left, `free_order - order`.
pub split_down : ℕ → ℕ → ℕ → Pmm → Pmm
split_down zero block o s = s
split_down (suc n) block o s =
    split_down n block o (insert_block_into_area (split_buddy block (o + n)) (o + n) s)

-- `alloc_block`; `none` where the area is empty, which its caller rules out.
pub alloc_block : ℕ → ℕ → Pmm → Option (ℕ × Pmm)
alloc_block free_order o s = elim (alloc_block_from_area free_order s) [
  | none ↦ none
  | some (b, s₁) ↦
      let s₂ = split_down (free_order - o) b o s₁ in
      some (b, record s₂ { flags = update s₂.flags b page_flag_used; order = update s₂.order b o })
]

-- The `for` of `pmm_alloc_pages`, on the number of orders left to check.
unfoldable pub find_area : ℕ → ℕ → ℕ → Pmm → Option (ℕ × Pmm)
find_area zero check o s = some (0, s)
find_area (suc n) check o s =
    let rest = find_area n (check + 1) o s in
    if ltb 0 (s.num_blocks check)
    then elim (alloc_block check o s) [
      | none ↦ none
      | some (b, s') ↦ some (b, record s' { num_pages = s'.num_pages - order_pages o })
    ]
    else rest

-- `pmm_alloc_pages`: page number 0 is the failure.
unfoldable pub pmm_alloc_pages : ℕ → Pmm → Option (ℕ × Pmm)
pmm_alloc_pages o s = find_area (buddy_max_order - o) o o s

-- The test of a round of `pmm_free_pages`: the buddy exists and heads a free block of this order.
pub free_buddy : ℕ → ℕ → Pmm → Option ℕ
free_buddy block o s = elim (get_buddy block o s) [
  | none ↦ none
  | some buddy ↦ if (s.flags buddy == 0) && (s.order buddy == o) then some buddy else none
]

-- The `for` of `pmm_free_pages` with what follows it, on the number of orders left.
pub merge_up : ℕ → ℕ → ℕ → Pmm → Pmm
merge_up zero block o s = insert_block_into_area block (o - 1) s
merge_up (suc n) block o s = elim (free_buddy block o s) [
  | some buddy ↦ merge_up n (merge_buddy block buddy) (o + 1) (split_block_from_area buddy o s)
  | none ↦ insert_block_into_area block o s
]

pub pmm_free_pages : ℕ → ℕ → Pmm → Pmm
pmm_free_pages page_num o s =
    if page_num == 0
    then s
    else merge_up (buddy_max_order - o) page_num o
        (record s { flags = update s.flags page_num 0; num_pages = s.num_pages + order_pages o })
