-- ===== src/Slab/Tests.antt =====
-- Runs of the slab allocator, and its theorems at small states.
use airix.Prelude.{ℕ, ◌+◌, ◌≡◌, refl, inl, inr, some, [], ◌∷◌, arith, ◌==◌, if◌then◌else◌}
use airix.Pmm.{Pmm}
use airix.Pmm.Cover.{memb}
use airix.Slab.{
  SlabPage, Slabs, cache_init, new_slab_page, init_slab_page, fill_free, alloc_object_from_slab,
  free_object,
}
use airix.Slab.Lists.{AllFiled, Listed}
use airix.Slab.Objects.{Ready}
use airix.Slab.Take.{init_slab_page-AllFiled}
use airix.Slab.Release.{free_object-alloc_object_from_slab}

abbrev one_page : Pmm
one_page = record {
  flags = λ p. 0;
  order = λ p. 0;
  total_pages = 8;
  num_pages = 1;
  num_blocks = λ o. if o == 0 then 1 else 0;
  areas = λ o. if o == 0 then 3 ∷ [] else [];
}

abbrev no_slab : SlabPage
no_slab = record { avail = 0; limit = 0; object_base = 0; cache = 0; free = λ i. 0 }

abbrev start : Slabs
start = record {
  pmm = one_page;
  slab = λ x. no_slab;
  kmem_cache = λ id. cache_init 8;
  cache_list = [];
}

start-AllFiled : AllFiled start
unfolding memb
start-AllFiled id = record {
  full = λ x m. ground arith;
  partial = λ x m. ground arith;
  free = λ x m. ground arith;
}

start-none : (id x : ℕ) → ¬ (Listed start id x)
unfolding memb
start-none id x (inl m) = ground arith
start-none id x (inr (inl m)) = ground arith
start-none id x (inr (inr m)) = ground arith

-- The page at 0xC0003000 as a new slab of cache 2.
abbrev one_slab : Slabs
one_slab = init_slab_page 2 0xC0003000 start

abbrev one_slab_facts : AllFiled one_slab × Ready one_slab 0xC0003000
one_slab_facts =
    init_slab_page-AllFiled 2 0xC0003000 start start-AllFiled (omega arith)
      (λ id. start-none id 0xC0003000)

free_object-alloc_object_from_slab_example :
    (s' : Slabs) × (s'' : Slabs) × (alloc_object_from_slab 0xC0003000 one_slab
      ≡ some (0xC0003FF8, s'))
    × (free_object 2 0xC0003FF8 s' ≡ some s'')
    × (s''.slab 0xC0003000 ≡ one_slab.slab 0xC0003000)
    × AllFiled s''
unfolding init_slab_page new_slab_page fill_free
free_object-alloc_object_from_slab_example =
    free_object-alloc_object_from_slab one_slab 0xC0003000 one_slab_facts.0 one_slab_facts.1 refl

-- A slab of cache 2 of which both objects are taken.
abbrev taken : Slabs
taken = record start {
  slab = λ x. record { avail = 0; limit = 2; object_base = x + 4080; cache = 2; free = λ i. 0 };
  kmem_cache =
      λ id. if 2 == id then record (cache_init 8) { full_slab = 0xC0003000 ∷ [] } else cache_init 8;
}
