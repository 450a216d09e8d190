-- ===== src/Pmm/Valid.antt =====
-- The invariant of the allocator. It is stated with two ghost lists of blocks: those handed out, and
-- those that an operation under way holds in its hands; and the moves of which the operations are
-- made keep it.
use airix.Prelude.{
  ℕ, zero, suc, ◌+◌, ◌*◌, ◌≤◌, ◌<◌, ◌≡◌, refl, ap, subst, ◌≢◌, ◌⊎◌, inl, inr, true, List, [], ◌∷◌,
  arith, ℕ_discrete, length, update, update_self, update_ne,
}
use airix.Pmm.{Pmm, order_pages}
use airix.Pmm.Orders.{Aligned}
use airix.Pmm.Cover.{Block, cover_blocks, free_cover, memb, has_block}

-- The pages of the blocks of a list.
unfoldable pub blocks_pages : List Block → ℕ
blocks_pages [] = 0
blocks_pages ((b, o) ∷ bs) = order_pages o + blocks_pages bs

-- The pages of the free blocks of the areas below order n, by their counters.
unfoldable pub area_pages : ℕ → (ℕ → ℕ) → ℕ
area_pages zero num_blocks = 0
area_pages (suc n) num_blocks = num_blocks n * order_pages n + area_pages n num_blocks

pub blocks_pages-one : (b o : ℕ) → blocks_pages ((b, o) ∷ []) ≡ order_pages o
unfolding blocks_pages
blocks_pages-one b o = omega arith

abbrev pub cover : Pmm → List Block → List Block → ℕ → ℕ
cover s used held p = free_cover s p + cover_blocks used p + cover_blocks held p

-- An entry of an area heads an aligned block, and its page says so.
pub record IsHead (s : Pmm) (o x : ℕ) : Type 0 where
  pub small : o < 11
  pub aligned : Aligned x o
  pub unused : s.flags x ≡ 0
  pub ordered : s.order x ≡ o

-- heads: the entries of the areas. counted: the counters. taken: the blocks handed out are aligned
-- and flagged. in_hand: the blocks held are aligned. disjoint: no page is in two blocks. known: a
-- page whose flags are clear is in some block. low: page 0 is in none that is free or held.
-- inside: no block reaches past the last page. paged: the count of free pages.
pub record IsValid (s : Pmm) (used held : List Block) : Type 0 where
  pub heads : (o x : ℕ) → memb x (s.areas o) ≡ true → IsHead s o x
  pub counted : (o : ℕ) → s.num_blocks o ≡ length (s.areas o)
  pub taken : (x o : ℕ) → has_block x o used ≡ true → (o < 11) × Aligned x o × (s.flags x ≢ 0)
  pub in_hand : (x o : ℕ) → has_block x o held ≡ true → (o < 11) × Aligned x o
  pub disjoint : (p : ℕ) → cover s used held p ≤ 1
  pub known : (p : ℕ) → s.flags p ≡ 0 → 1 ≤ cover s used held p
  pub low : free_cover s 0 + cover_blocks held 0 ≡ 0
  pub inside : (p : ℕ) → s.total_pages ≤ p → cover s used held p ≡ 0
  pub paged : s.num_pages ≡ area_pages 11 s.num_blocks + blocks_pages held

pub area_pages-update_above :
    (n o v : ℕ) (f : ℕ → ℕ) → n ≤ o → area_pages n (update f o v) ≡ area_pages n f
unfolding area_pages
area_pages-update_above zero o v f h = refl
area_pages-update_above (suc n) o v f h =
    rw (update_ne f o n v (omega arith), area_pages-update_above n o v f (omega arith))

pub area_pages-update :
    (n o v : ℕ) (f : ℕ → ℕ)
    → o < n
    → area_pages n (update f o v) + f o * order_pages o ≡ area_pages n f + v * order_pages o
unfolding area_pages
area_pages-update zero o v f h = absurd (omega arith)
area_pages-update (suc n) o v f h = elim (ℕ_discrete o n) [
  | yes e ↦ rw (e, update_self f n v) (omega (arith, area_pages-update_above n n v f (omega arith)))
  | no ne ↦ rw (update_ne f o n v ne) (omega (arith, area_pages-update n o v f (omega arith)))
]

pub has_block-cons :
    (y k x o : ℕ) (bs : List Block)
    → has_block y k ((x, o) ∷ bs) ≡ true
    → ((x ≡ y) × (o ≡ k)) ⊎ (has_block y k bs ≡ true)
unfolding has_block
has_block-cons y k x o bs h = ground arith

-- A block put into the hand keeps what is asked of those.
pub in_hand-cons :
    (x o : ℕ) (held : List Block)
    → (o < 11) × Aligned x o
    → ((y k : ℕ) → has_block y k held ≡ true → (k < 11) × Aligned y k)
    → (y k : ℕ) → has_block y k ((x, o) ∷ held) ≡ true
    → (k < 11) × Aligned y k
in_hand-cons x o held new old y k h = elim (has_block-cons y k x o held h) [
  | inl (ex, eo) ↦
      subst (λ z. (k < 11) × Aligned z k) ex (subst (λ j. (j < 11) × Aligned x j) eo new)
  | inr m ↦ old y k m
]

-- One counter moved by one.
pub area_pages-succ :
    (o v : ℕ) (f : ℕ → ℕ)
    → o < 11
    → area_pages 11 (update f o v) + f o * order_pages o ≡ area_pages 11 f + v * order_pages o
    → (f o ≡ v + 1 → area_pages 11 (update f o v) + order_pages o ≡ area_pages 11 f)
      × (v ≡ f o + 1 → area_pages 11 (update f o v) ≡ area_pages 11 f + order_pages o)
area_pages-succ o v f h e = (
  λ less. omega (arith, ap (λ (t : ℕ). t * order_pages o) less),
  λ more. omega (arith, ap (λ (t : ℕ). t * order_pages o) more),
)
