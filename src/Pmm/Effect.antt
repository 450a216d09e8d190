-- ===== src/Pmm/Effect.antt =====
-- What taking a block out of its area and putting one in do to the free pages and their count.
use airix.Prelude.{ℕ, ◌+◌, ◌<◌, ◌≡◌, refl, inl, inr, true, ◌∷◌, arith}
use airix.Pmm.{Pmm, split_block_from_area, insert_block_into_area, remove}
use airix.Pmm.Orders.{Pair}
use airix.Pmm.Cover.{
  covers, covers_join, cover_list, cover_areas-update, cover_list-remove, memb, free_cover,
}

pub insert_gives :
    (b o : ℕ) (s : Pmm)
    → o < 11
    → (p : ℕ) → free_cover (insert_block_into_area b o s) p ≡ free_cover s p + covers b o p
unfolding insert_block_into_area cover_list
insert_gives b o s h p = omega (arith, cover_areas-update 11 o p s.areas (b ∷ s.areas o) h)

pub split_gives :
    (x o : ℕ) (s : Pmm)
    → memb x (s.areas o) ≡ true
    → o < 11
    → (p : ℕ) → free_cover (split_block_from_area x o s) p + covers x o p ≡ free_cover s p
unfolding split_block_from_area
split_gives x o s m h p = omega (
  arith,
  cover_areas-update 11 o p s.areas (remove x (s.areas o)) h,
  cover_list-remove x o p (s.areas o) m,
)

pub join_covers :
    (low b x o p : ℕ)
    → o + 1 < 11
    → Pair low b x o
    → covers low (o + 1) p ≡ covers x o p + covers b o p
join_covers low b x o p h (al, inl (eb, ex)) = rw (eb, ex) (omega (arith, covers_join low o p h))
join_covers low b x o p h (al, inr (ex, eb)) = rw (eb, ex) (omega (arith, covers_join low o p h))

pub num_pages-insert : (b o : ℕ) (s : Pmm) → (insert_block_into_area b o s).num_pages ≡ s.num_pages
unfolding insert_block_into_area
num_pages-insert b o s = refl

pub num_pages-split : (b o : ℕ) (s : Pmm) → (split_block_from_area b o s).num_pages ≡ s.num_pages
unfolding split_block_from_area
num_pages-split b o s = refl
