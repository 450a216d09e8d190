-- ===== src/Pmm/Areas.antt =====
-- Blocks that move between an area and the hand, for the operations of mm/pmm.c.
use airix.Prelude.{
  ℕ, ◌+◌, ◌-◌, ◌≤◌, ◌<◌, ◌≡◌, refl, sym, ap, subst, ◌∙◌, ◌≢◌, ◌⊎◌, inl, inr, true, List, ◌∷◌, arith,
  ℕ_discrete, set, update, update_self, update_ne,
}
use airix.Pmm.{Pmm, remove, split_block_from_area, insert_block_into_area}
use airix.Pmm.Orders.{Aligned, order_pages_pos}
use airix.Pmm.Cover.{
  Block, covers, cover_blocks, cover_list, cover_areas, memb, has_block, covers_self,
  cover_list-remove, memb-remove, length-remove, cover_areas-update, covers-le-areas,
  covers-le-blocks,
}
use airix.Pmm.Valid.{
  IsHead, IsValid, blocks_pages, cover, area_pages-update, in_hand-cons, area_pages-succ,
}

-- A free block taken out of its area, into the hand.
pub take_out :
    (s : Pmm) (used held : List Block) (x o : ℕ)
    → memb x (s.areas o) ≡ true
    → IsValid s used held
    → IsValid (split_block_from_area x o s) used ((x, o) ∷ held)
unfolding split_block_from_area cover_blocks blocks_pages has_block
take_out s used held x o m v = record {
  heads = λ k y h.
      let old = v.heads k y (member k y h) in
      record {
        small = old.small;
        aligned = old.aligned;
        unused = old.unused;
        ordered = old.ordered;
      };
  counted = λ k. ground (arith, v.counted k, v.counted o, length-remove x (s.areas o) m);
  taken = λ y k h. v.taken y k h;
  in_hand = in_hand-cons x o held (head.small, head.aligned) v.in_hand;
  disjoint = λ p. omega (arith, shift p, v.disjoint p);
  known = λ p h. omega (arith, shift p, v.known p h);
  low = omega (arith, shift 0, v.low);
  inside = λ p h. omega (arith, shift p, v.inside p h);
  paged = omega (
    arith,
    v.paged,
    (area_pages-succ o (s.num_blocks o - 1) s.num_blocks head.small
          (area_pages-update 11 o _ s.num_blocks head.small)).0
        one_less,
  );
}
  where
    head : IsHead s o x
    head = v.heads o x m

    member :
        (k y : ℕ)
        → memb y (update s.areas o (remove x (s.areas o)) k) ≡ true
        → memb y (s.areas k) ≡ true
    member k y h = ground (arith, memb-remove x y (s.areas o))

    one_less : s.num_blocks o ≡ s.num_blocks o - 1 + 1
    one_less = omega (arith, v.counted o, length-remove x (s.areas o) m)

    shift :
        (p : ℕ)
        → cover_areas 11 (update s.areas o (remove x (s.areas o))) p + covers x o p
          ≡ cover_areas 11 s.areas p
    shift p = omega (
      arith,
      cover_areas-update 11 o p s.areas (remove x (s.areas o)) head.small,
      cover_list-remove x o p (s.areas o) m,
    )

-- A block in the hand begins where no free block and no block handed out begins.
pub free-ne-held :
    (s : Pmm) (used held : List Block) (x o : ℕ)
    → IsValid s used ((x, o) ∷ held)
    → (k y : ℕ) → memb y (s.areas k) ≡ true
    → x ≢ y
unfolding cover_blocks has_block
free-ne-held s used held x o v k y m e =
    let own = v.in_hand x o (ground arith) in
    let old = v.heads k y m in
    omega (
      arith,
      covers_self x o (order_pages_pos o own.0),
      v.disjoint x,
      covers-le-areas 11 k y y s.areas old.small m,
      covers_self y k (order_pages_pos k old.small),
      ap (λ q. cover_areas 11 s.areas q) e,
    )

pub used-ne-held :
    (s : Pmm) (used held : List Block) (x o : ℕ)
    → IsValid s used ((x, o) ∷ held)
    → (y k : ℕ) → has_block y k used ≡ true
    → x ≢ y
unfolding cover_blocks has_block
used-ne-held s used held x o v y k h e =
    let own = v.in_hand x o (ground arith) in
    omega (
      arith,
      covers_self x o (order_pages_pos o own.0),
      v.disjoint x,
      covers-le-blocks y k y used h,
      covers_self y k (order_pages_pos k (v.taken y k h).0),
      ap (cover_blocks used) e,
    )

-- The first block of the hand put into its area.
pub put_in :
    (s : Pmm) (used held : List Block) (x o : ℕ)
    → IsValid s used ((x, o) ∷ held)
    → IsValid (insert_block_into_area x o s) used held
unfolding insert_block_into_area cover_blocks blocks_pages has_block cover_list memb
put_in s used held x o v = record {
  heads = heads;
  counted = λ k. ground (arith, v.counted k, v.counted o);
  taken = taken;
  in_hand = λ y k h. v.in_hand y k (ground arith);
  disjoint = λ p. omega (arith, shift p, v.disjoint p);
  known = known;
  low = omega (arith, shift 0, v.low);
  inside = λ p h. omega (arith, shift p, v.inside p h);
  paged = omega (
    arith,
    v.paged,
    (area_pages-succ o (s.num_blocks o + 1) s.num_blocks own.0
          (area_pages-update 11 o _ s.num_blocks own.0)).1
        refl,
  );
}
  where
    own : (o < 11) × Aligned x o
    own = v.in_hand x o (ground arith)

    self : covers x o x ≡ 1
    self = covers_self x o (order_pages_pos o own.0)

    shift :
        (p : ℕ)
        → cover_areas 11 (update s.areas o (x ∷ s.areas o)) p
          ≡ cover_areas 11 s.areas p + covers x o p
    shift p = omega (arith, cover_areas-update 11 o p s.areas (x ∷ s.areas o) own.0)

    place :
        (k y : ℕ)
        → memb y (update s.areas o (x ∷ s.areas o) k) ≡ true
        → ((x ≡ y) × (o ≡ k)) ⊎ ((x ≢ y) × (memb y (s.areas k) ≡ true))
    place k y h = elim (ℕ_discrete o k) [
      | yes e ↦ elim (ℕ_discrete x y) [ yes e' ↦ inl (e', e) | no ne ↦ inr (ne, ground arith) ]
      | no ne ↦
          let m : memb y (s.areas k) ≡ true = ground arith in
          inr (free-ne-held s used held x o v k y m, m)
    ]

    heads :
        (k y : ℕ)
        → memb y (update s.areas o (x ∷ s.areas o) k) ≡ true
        → IsHead (insert_block_into_area x o s) k y
    heads k y h = elim (place k y h) [
      | inl (ex, eo) ↦
          subst (λ z. IsHead (insert_block_into_area x o s) k z) ex
            (subst (λ j. IsHead (insert_block_into_area x o s) j x) eo
              (record {
                small = own.0;
                aligned = own.1;
                unused = update_self s.flags x 0;
                ordered = update_self s.order x o;
              }))
      | inr (ne, m) ↦
          let old = v.heads k y m in
          record {
            small = old.small;
            aligned = old.aligned;
            unused = update_ne s.flags x y 0 ne ∙ old.unused;
            ordered = update_ne s.order x y o ne ∙ old.ordered;
          }
    ]

    taken :
        (y k : ℕ) → has_block y k used ≡ true → (k < 11) × Aligned y k × (update s.flags x 0 y ≢ 0)
    taken y k h =
        let (small, aligned, set) = v.taken y k h in
        let ne = used-ne-held s used held x o v y k h in
        (small, aligned, λ z. set (sym (update_ne s.flags x y 0 ne) ∙ z))

    known :
        (p : ℕ) → update s.flags x 0 p ≡ 0 → 1 ≤ cover (insert_block_into_area x o s) used held p
    known p h = elim (ℕ_discrete x p) [
      | yes e ↦ rw (← e) (omega (arith, self, shift x))
      | no ne ↦ omega (arith, shift p, v.known p (ground arith))
    ]
