-- ===== src/Bio/Tests.antt =====
-- Runs of the cache, and its theorems at small states.
use airix.Prelude.{ℕ, ◌≡◌, refl, some, [], ◌∷◌, arith, update}
use airix.Pmm.{Pmm, pmm_alloc_pages, find_area}
use airix.Pmm.Cover.{memb}
use airix.Slab.{Slabs, cache_init, v2p, unlink, slab_alloc, alloc_object, alloc_slab_page}
use airix.Bio.{
  ide_write_complete, BioCache, proc_state_running, proc_state_io, got, waits_bio, bio_get,
  find_bio, claim_bio, sleep_wait_bio, bio_write, bio_last_sector,
}
use airix.Bio.Get.{Fresh}
use airix.Bio.Claim.{Unique}
use airix.Bio.Exclusion.{Outcome, bio_get-Outcome}

abbrev no_pages : Pmm
no_pages = record {
  flags = λ p. 1;
  order = λ p. 0;
  total_pages = 0;
  num_pages = 0;
  num_blocks = λ o. 0;
  areas = λ o. [];
}

abbrev no_memory : Slabs
no_memory = record {
  pmm = no_pages;
  slab = λ x. record { avail = 0; limit = 0; object_base = 0; cache = 0; free = λ i. 0 };
  kmem_cache = λ id. cache_init 28;
  cache_list = [];
}

-- A cache with one bio, for the sectors from 8 on, in the state of the given flags.
abbrev one_bio : ℕ → BioCache
one_bio flag = record {
  slabs = no_memory;
  bio_cache = 1;
  bio = λ x. record { buffer = 4096; flag = flag; iter = 0; dev = 0; sector = 8; sleep = [] };
  nodes = 100 ∷ [];
  bio_cache_count = 1;
  sleep = [];
  proc_state = λ p. proc_state_running;
}

one_bio-Unique : Unique (one_bio 0)
unfolding memb
one_bio-Unique x y mx my d e = ground arith

one_bio-Fresh : Fresh (one_bio 0)
unfolding slab_alloc alloc_object alloc_slab_page pmm_alloc_pages find_area
one_bio-Fresh o slabs made = cc

abbrev held : BioCache
held = record (one_bio 0) {
  nodes = 100 ∷ [];
  bio =
      update (one_bio 0).bio 100
        (record { buffer = 4096; flag = 4; iter = 3; dev = 0; sector = 8; sleep = [] });
}

bio_get-Outcome_example : Outcome 7 0 11 (one_bio 0) (got 100, held)
unfolding bio_get find_bio claim_bio unlink
bio_get-Outcome_example =
    bio_get-Outcome 7 0 11 (one_bio 0) one_bio-Unique one_bio-Fresh (got 100, held) refl

-- A second process sleeps until the first one releases the bio.
second_waits :
    bio_get 8 0 9 held
    ≡ some (
      waits_bio 100,
      record held {
        bio =
            update held.bio 100
              (record { buffer = 4096; flag = 4; iter = 3; dev = 0; sector = 8; sleep = 8 ∷ [] });
        proc_state = update held.proc_state 8 proc_state_io;
      },
    )
unfolding bio_get find_bio claim_bio sleep_wait_bio
second_waits = refl

-- A write asks for the bio's sectors with whatever word the stack held, and marks the bio.
writes : bio_write 0xDEAD 100 held ≡ (
  record {
    drive = 0;
    sector_count = 8;
    start = 8;
    buffer = v2p 4096;
    size = 4096;
    data_word = 0xDEAD;
    complete_func = ide_write_complete;
  },
  record held {
    bio =
        update held.bio 100
          (record { buffer = 4096; flag = 6; iter = 3; dev = 0; sector = 8; sleep = [] });
  },
)
unfolding bio_write
writes = refl

last_sector : bio_last_sector (held.bio 100) ≡ 15
unfolding bio_last_sector
last_sector = refl
