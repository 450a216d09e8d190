-- ===== src/Pmm/Alloc.antt =====
-- pmm_alloc_pages of mm/pmm.c: the search of the areas and the splitting of a block.
use airix.Prelude.{
  ℕ, zero, suc, ◌+◌, ◌-◌, ◌≤◌, ◌<◌, ◌≡◌, refl, sym, ap, subst, ◌∙◌, ◌≢◌, ◌⊎◌, inl, inr, true, false,
  some, List, [], ◌∷◌, arith, dec_lt, ℕ_discrete, ltb, lt→ltb, length, update, nil_of_length,
}
use airix.Pmm.{
  Pmm, order_pages, remove, alloc_block_from_area, split_down, split_buddy, alloc_block, find_area,
  pmm_alloc_pages, split_block_from_area, insert_block_into_area,
}
use airix.Pmm.Cover.{Block, covers, cover_blocks, free_cover, memb, covers_self, covers_join}
use airix.Pmm.Orders.{order_pages_pos}
use airix.Pmm.Valid.{blocks_pages-one, IsValid}
use airix.Pmm.Areas.{take_out, put_in}
use airix.Pmm.Hand.{halved, seize, seized}
use airix.Pmm.Effect.{insert_gives, split_gives, num_pages-insert, num_pages-split}

-- The head of an area is taken out of it as any member is.
first_of_area :
    (o b : ℕ) (s : Pmm) (rest : List ℕ)
    → s.areas o ≡ b ∷ rest
    → (alloc_block_from_area o s ≡ some (b, split_block_from_area b o s))
      × (memb b (s.areas o) ≡ true)
unfolding alloc_block_from_area split_block_from_area memb remove
first_of_area o b s rest e =
    let head : remove b (b ∷ rest) ≡ rest = ground arith in
    (rw (e, alloc_block_from_area) (rw head), rw e (ground arith))

-- Halving a block in the hand puts the upper halves into their areas, and keeps the lower.
split_down_lem :
    (n b o : ℕ) (s : Pmm) (used : List Block)
    → o + n < 11
    → IsValid s used ((b, o + n) ∷ [])
    → IsValid (split_down n b o s) used ((b, o) ∷ [])
      × ((p : ℕ)
          → free_cover (split_down n b o s) p + covers b o p ≡ free_cover s p + covers b (o + n) p)
      × ((split_down n b o s).num_pages ≡ s.num_pages)
unfolding split_down split_buddy
split_down_lem zero b o s used h v =
    let same : o + 0 ≡ o = omega arith in
    (
      subst (λ k. IsValid s used ((b, k) ∷ [])) same v,
      (λ p. ap (λ k. free_cover s p + covers b k p) (sym same)),
      refl,
    )
split_down_lem (suc n) b o s used h v =
    let same : o + suc n ≡ o + n + 1 = omega arith in
    let s' = insert_block_into_area (b + order_pages (o + n)) (o + n) s in
    let v' = put_in s used ((b, o + n) ∷ []) (b + order_pages (o + n)) (o + n) (
      halved s used [] b (o + n) (omega arith)
        (subst (λ k. IsValid s used ((b, k) ∷ [])) same v)) in
    let (valid, shift, count) = split_down_lem n b o s' used (omega arith) v' in
    (
      valid,
      (λ p. omega (
        arith,
        shift p,
        insert_gives (b + order_pages (o + n)) (o + n) s (omega arith) p,
        covers_join b (o + n) p (omega arith),
        ap (λ k. covers b k p) same,
      )),
      count ∙ num_pages-insert (b + order_pages (o + n)) (o + n) s,
    )

-- The result of an allocation of order o: page 0, and nothing has changed, where every area from
-- `check` on is empty; or a block that was free and now is handed out.
abbrev pub Allocates : ℕ → ℕ → Pmm → List Block → ℕ → Pmm → Type 0
Allocates check o s used b s' =
    ((b ≡ 0) × (s' ≡ s) × ((k : ℕ) → check ≤ k → k < 11 → s.areas k ≡ []))
    ⊎ ((b ≢ 0)
        × IsValid s' ((b, o) ∷ used) []
        × ((p : ℕ) → free_cover s' p + covers b o p ≡ free_cover s p)
        × (s'.num_pages + order_pages o ≡ s.num_pages))

-- An area with a counter above 0 has a first block.
first_block :
    (o : ℕ) (s : Pmm) (xs : List ℕ)
    → s.areas o ≡ xs
    → 0 < length (s.areas o)
    → (b : ℕ) × (rest : List ℕ) × (s.areas o ≡ b ∷ rest)
first_block o s [] e h = absurd (omega (arith, ap length e))
first_block o s (b ∷ rest) e h = (b, rest, e)

-- What `alloc_block` makes of an area with a block, and what the caller then does.
alloc_found :
    (check o b : ℕ) (s : Pmm) (used : List Block) (rest : List ℕ)
    → o ≤ check
    → check < 11
    → s.areas check ≡ b ∷ rest
    → IsValid s used []
    → let s₂ = split_down (check - o) b o (split_block_from_area b check s) in
      (alloc_block check o s
        ≡ some (b, record s₂ { flags = update s₂.flags b 1; order = update s₂.order b o }))
      × Allocates check o s used b (seize b o s₂)
unfolding alloc_block cover_blocks
alloc_found check o b s used rest le small e v =
    let (pops, m) = first_of_area check b s rest e in
    let s₁ = split_block_from_area b check s in
    let up : check ≡ o + (check - o) = omega arith in
    let held = take_out s used [] b check m v in
    let (valid, shift, count) =
      split_down_lem (check - o) b o s₁ used (omega arith)
        (subst (λ k. IsValid s₁ used ((b, k) ∷ [])) up held) in
    let fits = valid.paged in
    let nonzero : b ≢ 0 = λ z. omega (
      arith,
      held.low,
      covers_self b check (order_pages_pos check small),
      ap (λ q. covers b check q) z,
    ) in
    (
      rw (pops, alloc_block),
      inr (
        nonzero,
        seized _ used [] b o valid,
        (λ p. omega (arith, shift p, split_gives b check s m small p, ap (λ k. covers b k p) up)),
        omega (arith, count, num_pages-split b check s, blocks_pages-one b o),
      ),
    )

-- One more empty area.
weaken :
    (check o : ℕ) (s : Pmm) (used : List Block) (b : ℕ) (s' : Pmm)
    → length (s.areas check) ≡ 0
    → Allocates (check + 1) o s used b s'
    → Allocates check o s used b s'
weaken check o s used b s' empty (inr r) = inr r
weaken check o s used b s' empty (inl (z, same, rest)) = inl (
  z,
  same,
  λ k from upto. elim (ℕ_discrete check k) [
    | yes e ↦ subst (λ j. s.areas j ≡ []) e (nil_of_length (s.areas check) empty)
    | no ne ↦ rest k (omega arith) upto
  ],
)

find_area_lem :
    (n check o : ℕ) (s : Pmm) (used : List Block)
    → check + n ≡ 11
    → o ≤ check
    → IsValid s used []
    → (b : ℕ) × (s' : Pmm) × (find_area n check o s ≡ some (b, s')) × Allocates check o s used b s'
unfolding find_area
find_area_lem zero check o s used e le v =
    (0, s, refl, inl (refl, refl, λ k from upto. absurd (omega arith)))
find_area_lem (suc n) check o s used e le v = elim (dec_lt 0 (s.num_blocks check)) [
  | yes some_block ↦
      let (b, rest, first) =
        first_block check s (s.areas check) refl (omega (arith, v.counted check)) in
      let (made, allocates) = alloc_found check o b s used rest le (omega arith) first v in
      (b, _, rw (lt→ltb 0 _ some_block, made), allocates)
  | no empty ↦
      let (b, s', made, allocates) =
        find_area_lem n (check + 1) o s used (omega arith) (omega arith) v in
      let skip : ltb 0 (s.num_blocks check) ≡ false = ground arith in
      (b, s', rw skip made, weaken check o s used b s' (omega (arith, v.counted check)) allocates)
]

-- An allocation of order o below 11 always returns. It returns page 0 and changes nothing only
-- where every area from that order on is empty; otherwise it returns the first page of an aligned
-- block that was free, the invariant holds with the block on the list of those handed out, exactly
-- its pages have left the free ones, and the count of free pages has fallen by its size.
pub pmm_alloc_pages_lem :
    (o : ℕ) (s : Pmm) (used : List Block)
    → o < 11
    → IsValid s used []
    → (b : ℕ) × (s' : Pmm) × (pmm_alloc_pages o s ≡ some (b, s')) × Allocates o o s used b s'
unfolding pmm_alloc_pages
pmm_alloc_pages_lem o s used h v = find_area_lem (11 - o) o o s used (omega arith) (omega arith) v
