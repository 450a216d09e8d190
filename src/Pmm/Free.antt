-- ===== src/Pmm/Free.antt =====
-- pmm_free_pages of mm/pmm.c: the buddies and the merging.
use airix.Prelude.{
  ℕ, zero, suc, ◌+◌, ◌-◌, ◌%◌, ◌≤◌, ◌<◌, ◌≡◌, refl, sym, ap, subst, ◌∙◌, ◌≢◌, ◌⊎◌, inl, inr, true,
  false, some, List, [], ◌∷◌, arith, dec_lt, dec_le, ℕ_discrete, ltb, ◌==◌, if◌then◌else◌,
  Option-cases, set,
}
use airix.Pmm.{
  Pmm, order_pages, get_buddy, free_buddy, merge_buddy, split_block_from_area, merge_up,
  pmm_free_pages,
}
use airix.Pmm.Orders.{
  Aligned, Aligned-down, Aligned_even, Aligned_odd, order_pages_pos, Pair, first_of_block,
  holds_buddy,
}
use airix.Pmm.Cover.{
  Block, covers, cover_blocks, free_cover, memb, has_block, covers_self, covers_in, covers_out,
  covers_range, areas_block, blocks_block, covers-le-areas, covers-le-blocks, erase_block,
}
use airix.Pmm.Effect.{insert_gives, split_gives, join_covers, num_pages-insert, num_pages-split}
use airix.Pmm.Valid.{IsValid}
use airix.Pmm.Areas.{put_in, take_out}
use airix.Pmm.Hand.{joined, release, released}

-- What `get_buddy` finds.
get_buddy_lem :
    (b o : ℕ) (s : Pmm) {x : ℕ}
    → Aligned b o
    → get_buddy b o s ≡ some x
    → (o + 1 < 11) × (x < s.total_pages) × (low : ℕ) × Pair low b x o
unfolding get_buddy
get_buddy_lem b o s {x} al e = elim (dec_lt (o + 1) 11) [
  | no big ↦ ground arith
  | yes small ↦ elim (ℕ_discrete (b % order_pages (o + 1)) 0) [
    | yes even ↦
        let found : (x ≡ b + order_pages o) × (x < s.total_pages) = ground arith in
        (small, found.1, b, (Aligned_even b o even, inl (refl, found.0)))
    | no odd ↦
        let (low, al', eb) = Aligned_odd b o small al odd in
        let found : (x ≡ b - order_pages o) × (x < s.total_pages) = ground arith in
        (small, found.1, low, (al', inr (omega (arith, found.0), eb)))
  ]
]

buddy-Aligned : (low b x o : ℕ) → o + 1 < 11 → Pair low b x o → Aligned x o
buddy-Aligned low b x o h (al, two) =
    let (q, e) = Aligned-down low o (o + 1) (omega arith) h al in
    elim two [ inl (eb, ex) ↦ (q + 1, omega arith) | inr (ex, eb) ↦ (q, ex ∙ e) ]

module _ (s : Pmm) (used : List Block) (b o : ℕ) (v : IsValid s used ((b, o) ∷ [])) where
  own : (o < 11) × Aligned b o
  unfolding has_block
  own = v.in_hand b o (ground arith)

  -- A page that is not in the block held, but would be in any larger block with its buddy.
  module _ (low x : ℕ) (h : o + 1 < 11) (pair : Pair low b x o) where
    larger_absurd :
        (y o' : ℕ)
        → o < o'
        → o' < 11
        → Aligned y o'
        → covers y o' x ≡ 1
        → (covers y o' b ≤ free_cover s b) ⊎ (covers y o' b ≤ cover_blocks used b)
        → ⊥
    unfolding cover_blocks
    larger_absurd y o' lt small al c inside =
        let at = covers_range y o' x (omega arith) in
        let (lo, hi) = holds_buddy low b x y o o' lt small pair al at.0 at.1 in
        omega
          (arith, v.disjoint b, covers_self b o (order_pages_pos o own.0), covers_in y o' b lo hi)

    outside : covers b o x ≡ 0
    outside = covers_out b o x (ground (arith, order_pages_pos o own.0))

    -- A page flagged as a free block's head of this order is one, if it is the buddy.
    flagged_member : s.flags x ≡ 0 → s.order x ≡ o → memb x (s.areas o) ≡ true
    unfolding cover_blocks
    flagged_member f e = elim (dec_lt 0 (free_cover s x)) [
      | yes free ↦
          let (o', y, small, m, c) = areas_block 11 x s.areas free in
          let head = v.heads o' y m in
          let at = covers_range y o' x (omega arith) in
          elim (dec_le o' o) [
            | yes le ↦
                let same =
                  first_of_block x y o o' le own.0 (buddy-Aligned low b x o h pair) head.aligned
                    at.0 at.1 in
                let order : o ≡ o' = sym e ∙ ap s.order same ∙ head.ordered in
                subst (λ k. memb x (s.areas k) ≡ true) (sym order)
                  (subst (λ z. memb z (s.areas o') ≡ true) (sym same) m)
            | no gt ↦ absurd (
                larger_absurd y o' (omega arith) small head.aligned c
                  (inl (covers-le-areas 11 o' y b s.areas small m)))
          ]
      | no handed ↦
          let (y, o', m, c) = blocks_block x used (omega (arith, v.known x f, outside)) in
          let (small, al, set) = v.taken y o' m in
          let at = covers_range y o' x (omega arith) in
          elim (dec_le o' o) [
            | yes le ↦
                let same =
                  first_of_block x y o o' le own.0 (buddy-Aligned low b x o h pair) al at.0 at.1 in
                absurd (set (ap s.flags (sym same) ∙ f))
            | no gt ↦
                absurd (
                  larger_absurd y o' (omega arith) small al c
                    (inr (covers-le-blocks y o' b used m)))
          ]
    ]

  -- What a round of the loop finds.
  pub free_buddy_lem :
      {x : ℕ}
      → free_buddy b o s ≡ some x
      → (o + 1 < 11) × (memb x (s.areas o) ≡ true) × Pair (merge_buddy b x) b x o
  unfolding free_buddy merge_buddy
  free_buddy_lem {x} e = elim (Option-cases (get_buddy b o s)) [
    | inl none_found ↦ ground arith
    | inr (y, found) ↦
        let tested : (y ≡ x) × (s.flags x ≡ 0) × (s.order x ≡ o) = ground arith in
        let (h, l, low, pair) = get_buddy_lem b o s own.1 (found ∙ ap some tested.0) in
        let low_merged : (if ltb b x then b else x) ≡ low =
          ground (arith, order_pages_pos o own.0) in
        (h, flagged_member low x h pair tested.1 tested.2, rw low_merged pair)
  ]

-- The pages that are free after a release: those that were, and those of the block.
abbrev pub GivesBack : Pmm → Pmm → ℕ → ℕ → Type 0
GivesBack s s' b o = (p : ℕ) → free_cover s' p ≡ free_cover s p + covers b o p

merge_up_lem :
    (n b o : ℕ) (s : Pmm) (used : List Block)
    → o + n ≡ 11
    → IsValid s used ((b, o) ∷ [])
    → IsValid (merge_up n b o s) used []
      × GivesBack s (merge_up n b o s) b o
      × ((merge_up n b o s).num_pages ≡ s.num_pages)
unfolding merge_up
merge_up_lem zero b o s used e v = absurd (omega (arith, (own s used b o v).0))
merge_up_lem (suc n) b o s used e v = elim (Option-cases (free_buddy b o s)) [
  | inl alone ↦
      rw (alone, merge_up)
        (put_in s used [] b o v, insert_gives b o s (own s used b o v).0, num_pages-insert b o s)
  | inr (x, found) ↦
      let (h, m, pair) = free_buddy_lem s used b o v found in
      let s' = split_block_from_area x o s in
      let (valid, gives, count) = merge_up_lem n (merge_buddy b x) (o + 1) s' used (omega arith) (
        joined s' used [] (merge_buddy b x) b x o h pair (take_out s used ((b, o) ∷ []) x o m v)) in
      rw (found, merge_up)
        (
          valid,
          (λ p. omega (
            arith,
            gives p,
            split_gives x o s m (omega arith) p,
            join_covers (merge_buddy b x) b x o p h pair,
          )),
          count ∙ num_pages-split x o s,
        )
]

-- Releasing a block that was handed out keeps the invariant, takes the block off the list of those
-- handed out, adds exactly its pages to the free ones, and its size to their count.
pub pmm_free_pages_lem :
    (s : Pmm) (used : List Block) (b o : ℕ)
    → IsValid s used []
    → has_block b o used ≡ true
    → b ≢ 0
    → IsValid (pmm_free_pages b o s) (erase_block b o used) []
      × GivesBack s (pmm_free_pages b o s) b o
      × ((pmm_free_pages b o s).num_pages ≡ s.num_pages + order_pages o)
unfolding pmm_free_pages
pmm_free_pages_lem s used b o v m nz =
    let small = (v.taken b o m).0 in
    let nonzero : b == 0 ≡ false = ground arith in
    rw nonzero (
      merge_up_lem (11 - o) b o (release b o s) (erase_block b o used) (omega arith)
        (released s used [] b o nz m v))
