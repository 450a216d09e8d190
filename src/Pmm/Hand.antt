-- ===== src/Pmm/Hand.antt =====
-- Blocks in the hand that are joined, split, handed out and taken back, for the operations of
-- mm/pmm.c.
use airix.Prelude.{
  ℕ, ◌+◌, ◌-◌, ◌≤◌, ◌<◌, ◌≡◌, sym, ap, subst, ◌∙◌, ◌≢◌, inl, inr, true, List, ◌∷◌, arith,
  ℕ_discrete, set, update, update_self, update_ne,
}
use airix.Pmm.{Pmm, page_flag_used, order_pages}
use airix.Pmm.Orders.{Aligned, Aligned-down, order_pages_double, order_pages_pos, Pair}
use airix.Pmm.Cover.{
  Block, covers, cover_blocks, memb, has_block, covers_self, covers_join, covers-le-blocks,
  erase_block, cover_blocks-erase, has_block-erase, covers_out,
}
use airix.Pmm.Valid.{IsHead, IsValid, blocks_pages, cover, has_block-cons, in_hand-cons}
use airix.Pmm.Areas.{free-ne-held, used-ne-held}

-- Two buddies in the hand are one block of the next order, and the other way round.
pub joined :
    (s : Pmm) (used held : List Block) (low b x o : ℕ)
    → o + 1 < 11
    → Pair low b x o
    → IsValid s used ((x, o) ∷ (b, o) ∷ held)
    → IsValid s used ((low, o + 1) ∷ held)
unfolding cover_blocks blocks_pages has_block
joined s used held low b x o h pair v = record {
  heads = v.heads;
  counted = v.counted;
  taken = v.taken;
  in_hand = in_hand-cons low (o + 1) held (h, pair.0) (λ y k m. v.in_hand y k ground arith);
  disjoint = λ p. omega (arith, same p, v.disjoint p);
  known = λ p z. omega (arith, same p, v.known p z);
  low = omega (arith, same 0, v.low);
  inside = λ p z. omega (arith, same p, v.inside p z);
  paged = omega (arith, v.paged, order_pages_double o h);
}
  where
    same : (p : ℕ) → covers low (o + 1) p ≡ covers x o p + covers b o p
    same p = elim pair.1 [
      | inl (eb, ex) ↦ rw (eb, ex) (omega (arith, covers_join low o p h))
      | inr (ex, eb) ↦ rw (eb, ex) (omega (arith, covers_join low o p h))
    ]

pub halved :
    (s : Pmm) (used held : List Block) (b o : ℕ)
    → o + 1 < 11
    → IsValid s used ((b, o + 1) ∷ held)
    → IsValid s used ((b + order_pages o, o) ∷ (b, o) ∷ held)
unfolding cover_blocks blocks_pages has_block
halved s used held b o h v = record {
  heads = v.heads;
  counted = v.counted;
  taken = v.taken;
  in_hand =
      in_hand-cons (b + order_pages o) o ((b, o) ∷ held) (omega arith, upper)
        (in_hand-cons b o held (omega arith, lower) (λ y k m. v.in_hand y k ground arith));
  disjoint = λ p. omega (arith, covers_join b o p h, v.disjoint p);
  known = λ p z. omega (arith, covers_join b o p h, v.known p z);
  low = omega (arith, covers_join b o 0 h, v.low);
  inside = λ p z. omega (arith, covers_join b o p h, v.inside p z);
  paged = omega (arith, v.paged, order_pages_double o h);
}
  where
    whole : Aligned b (o + 1)
    whole = (v.in_hand b (o + 1) (ground arith)).1

    lower : Aligned b o
    lower = Aligned-down b o (o + 1) (omega arith) h whole

    upper : Aligned (b + order_pages o) o
    upper = (lower.0 + 1, omega (arith, lower.1))

-- The end of an allocation: the page of the block is flagged, and the count of free pages falls.
abbrev pub seize : ℕ → ℕ → Pmm → Pmm
seize b o s = record s {
  flags = update s.flags b page_flag_used;
  order = update s.order b o;
  num_pages = s.num_pages - order_pages o;
}

-- A block in the hand is handed out.
pub seized :
    (s : Pmm) (used held : List Block) (b o : ℕ)
    → IsValid s used ((b, o) ∷ held)
    → IsValid (seize b o s) ((b, o) ∷ used) held
unfolding cover_blocks blocks_pages has_block
seized s used held b o v = record {
  heads = heads;
  counted = v.counted;
  taken = taken;
  in_hand = λ y k h. v.in_hand y k (ground arith);
  disjoint = λ p. omega (arith, v.disjoint p);
  known = λ p h. omega (arith, v.known p (flag p h));
  low = omega (arith, v.low);
  inside = λ p h. omega (arith, v.inside p h);
  paged = omega (arith, v.paged);
}
  where
    own : (o < 11) × Aligned b o
    own = v.in_hand b o (ground arith)

    flag : (p : ℕ) → update s.flags b 1 p ≡ 0 → s.flags p ≡ 0
    flag p h = ground arith

    heads : (k y : ℕ) → memb y (s.areas k) ≡ true → IsHead (seize b o s) k y
    heads k y m =
        let old = v.heads k y m in
        let ne = free-ne-held s used held b o v k y m in
        record {
          small = old.small;
          aligned = old.aligned;
          unused = update_ne s.flags b y 1 ne ∙ old.unused;
          ordered = update_ne s.order b y o ne ∙ old.ordered;
        }

    taken :
        (y k : ℕ)
        → has_block y k ((b, o) ∷ used) ≡ true
        → (k < 11) × Aligned y k × (update s.flags b 1 y ≢ 0)
    taken y k h = elim (has_block-cons y k b o used h) [
      | inl (eb, eo) ↦
          let self : update s.flags b 1 b ≢ 0 = omega (arith, update_self s.flags b 1) in
          subst (λ z. (k < 11) × Aligned z k × (update s.flags b 1 z ≢ 0)) eb
            (subst (λ j. (j < 11) × Aligned b j × (update s.flags b 1 b ≢ 0)) eo
              (own.0, own.1, self))
      | inr m ↦
          let (small, aligned, set) = v.taken y k m in
          let ne = used-ne-held s used held b o v y k m in
          (small, aligned, λ z. set (sym (update_ne s.flags b y 1 ne) ∙ z))
    ]

-- The start of a release: the page's flag is cleared, and the count of free pages grows.
abbrev pub release : ℕ → ℕ → Pmm → Pmm
release b o s = record s { flags = update s.flags b 0; num_pages = s.num_pages + order_pages o }

-- A block that was handed out is back in the hand.
pub released :
    (s : Pmm) (used held : List Block) (b o : ℕ)
    → b ≢ 0
    → has_block b o used ≡ true
    → IsValid s used held
    → IsValid (release b o s) (erase_block b o used) ((b, o) ∷ held)
unfolding cover_blocks blocks_pages
released s used held b o nz m v = record {
  heads = λ k y h.
      let old = v.heads k y h in
      record {
        small = old.small;
        aligned = old.aligned;
        unused = ground (arith, old.unused);
        ordered = old.ordered;
      };
  counted = v.counted;
  taken = taken;
  in_hand = in_hand-cons b o held (own.0, own.1) v.in_hand;
  disjoint = λ p. omega (arith, v.disjoint p, same p);
  known = known;
  low = omega (arith, v.low, off);
  inside = λ p h. omega (arith, v.inside p h, same p);
  paged = omega (arith, v.paged);
}
  where
    own : (o < 11) × Aligned b o × (s.flags b ≢ 0)
    own = v.taken b o m

    same : (p : ℕ) → cover_blocks used p ≡ covers b o p + cover_blocks (erase_block b o used) p
    same p = cover_blocks-erase b o p used m

    self : covers b o b ≡ 1
    self = covers_self b o (order_pages_pos o own.0)

    off : covers b o 0 ≡ 0
    off = covers_out b o 0 (inl (omega arith))

    known :
        (p : ℕ)
        → update s.flags b 0 p ≡ 0
        → 1 ≤ cover (release b o s) (erase_block b o used) ((b, o) ∷ held) p
    known p h = elim (ℕ_discrete b p) [
      | yes e ↦ rw (← e) (omega (arith, self))
      | no ne ↦ omega (arith, same p, v.known p (sym (update_ne s.flags b p 0 ne) ∙ h))
    ]

    taken :
        (y k : ℕ)
        → has_block y k (erase_block b o used) ≡ true
        → (k < 11) × Aligned y k × (update s.flags b 0 y ≢ 0)
    taken y k h =
        let (small, aligned, set) = v.taken y k (has_block-erase b o y k used h) in
        let ne : b ≢ y = λ e. omega (
          arith,
          self,
          same b,
          v.disjoint b,
          covers-le-blocks y k y (erase_block b o used) h,
          covers_self y k (order_pages_pos k small),
          ap (cover_blocks (erase_block b o used)) e,
        ) in
        (small, aligned, λ z. set (sym (update_ne s.flags b y 0 ne) ∙ z))
