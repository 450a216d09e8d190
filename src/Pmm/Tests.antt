-- ===== src/Pmm/Tests.antt =====
-- Runs of the allocator, and its theorems at a memory of sixteen pages.
use airix.Prelude.{ℕ, ◌*◌, ◌<◌, ◌≡◌, refl, subst, ◌≢◌, true, some, List, [], ◌∷◌, arith}
use airix.Pmm.{Pmm, pmm_alloc_pages, pmm_free_pages, order_pages}
use airix.Pmm.Cover.{
  Block, covers, cover_blocks, cover_areas, memb, has_block, erase_block, cover_list,
}
use airix.Pmm.Valid.{IsValid, area_pages, blocks_pages}
use airix.Pmm.Alloc.{Allocates, pmm_alloc_pages_lem}
use airix.Pmm.Free.{GivesBack, pmm_free_pages_lem}

-- Sixteen pages, all flagged; pages 4 to 7 are known to be handed out as one block.
abbrev full : Pmm
full = record {
  flags = λ p. 1;
  order = λ p. 0;
  total_pages = 16;
  num_pages = 0;
  num_blocks = λ o. 0;
  areas = λ o. [];
}

abbrev handed : List Block
handed = (4, 2) ∷ []

full-IsValid : IsValid full handed []
unfolding covers cover_blocks cover_areas cover_list memb has_block area_pages blocks_pages
    order_pages
full-IsValid = record {
  heads = λ o x h. cc;
  counted = λ o. refl;
  taken = λ x o h.
      let (ex, eo) = only x o h in
      subst (λ y. (o < 11) × ((q : ℕ) × (y ≡ q * order_pages o)) × (full.flags 4 ≢ 0)) ex
        (subst (λ k. (k < 11) × ((q : ℕ) × (4 ≡ q * order_pages k)) × (full.flags 4 ≢ 0)) eo
          (omega arith, (1, refl), omega arith));
  in_hand = λ x o h. cc;
  disjoint = λ p. ground arith;
  known = λ p h. absurd (omega arith);
  low = refl;
  inside = λ p h. ground arith;
  paged = refl;
}
  where
    only : (x o : ℕ) → has_block x o handed ≡ true → (4 ≡ x) × (2 ≡ o)
    only x o h = ground arith

abbrev freed : Pmm
freed = pmm_free_pages 4 2 full

pmm_free_pages_example : IsValid freed [] [] × GivesBack full freed 4 2 × (freed.num_pages ≡ 4)
unfolding has_block erase_block order_pages
pmm_free_pages_example = pmm_free_pages_lem full handed 4 2 full-IsValid refl (omega arith)

pmm_alloc_pages_example :
    (b : ℕ) × (s' : Pmm) × (pmm_alloc_pages 0 freed ≡ some (b, s')) × Allocates 0 0 freed [] b s'
unfolding has_block erase_block
pmm_alloc_pages_example = pmm_alloc_pages_lem 0 freed [] (omega arith) freed-IsValid
  where
    freed-IsValid : IsValid freed [] []
    freed-IsValid = (pmm_free_pages_lem full handed 4 2 full-IsValid refl (omega arith)).0
