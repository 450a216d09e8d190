-- ===== src/Bio.antt =====
-- kernel/bio.c: the cache of disk pages. A bio is known by its address; the doubly linked list from
-- `bio_cache_head` is the list of the addresses, the head's `next` first, and a chain of sleeping
-- processes the list of them. An operation that gives up the processor ends there, with what it
-- waits for, and goes on by a second function. `none` is a panic, or a read through a null pointer.
pub mod Get
pub mod Claim
pub mod Exclusion
pub mod Finish
pub mod Sectors
pub mod Tests
use airix.Prelude.{
  ℕ, zero, suc, ◌+◌, ◌-◌, ◌*◌, ◌/◌, ◌%◌, ◌^◌, ◌≤◌, ◌<◌, min, ◌≡◌, refl, sym, ap, subst, ◌∙◌,
  fun_ext, ◌≢◌, ◌↔◌, ◌⊎◌, inl, inr, Bool, true, false, not, ◌&&◌, ◌||◌, Option, none, some, List,
  [], ◌∷◌, ◌++◌, map, reverse, arith, dec_lt, dec_le, ℕ_discrete, ltb, leb, ◌==◌, if◌then◌else◌,
  ltb→lt, lt→ltb, leb→le, le→leb, nle→leb, ==_iff, Bool-cases, Option-cases, tests, all_below,
  all_below_sound, length, get_elem?, get_or, set, take, drop, replicate, length-append, length-set,
  get_or-set_self, get_or-set_ne, length-take, length-replicate, test_bit, set_bit, clear_bit,
  update, update_self, update_ne, ◌>>=◌, >>=-eq-some, subst_some, nil_of_length, List-cases,
}
use airix.Pmm.{pmm_alloc_pages, page_size}
use airix.Slab.{Slabs, unlink, p2v, v2p, slab_create_kmem_cache, slab_alloc, slab_free}

-- `enum proc_state`.
pub data ProcState : Type 0 where
  proc_state_running : ProcState
  proc_state_io : ProcState
  proc_state_dead : ProcState

-- `enum bio_flag`.
abbrev pub bio_flag_updated : ℕ
bio_flag_updated = 0x1

abbrev pub bio_flag_dirty : ℕ
bio_flag_dirty = 0x2

abbrev pub bio_flag_reffed : ℕ
bio_flag_reffed = 0x4

abbrev pub max_cache_count : ℕ
max_cache_count = 4096

-- `SECTORS_PER_BIO`, for sectors of 512 bytes.
abbrev pub sectors_per_bio : ℕ
sectors_per_bio = 8

abbrev pub base_sector : ℕ → ℕ
base_sector sector = sector / sectors_per_bio * sectors_per_bio

-- `struct bio` without its links.
pub record Bio : Type 0 where
  pub buffer : ℕ
  pub flag : ℕ
  pub iter : ℕ
  pub dev : ℕ
  pub sector : ℕ
  pub sleep : List ℕ

-- The globals, the allocators below and the states of the processes. `sleep` is the chain at
-- `bio_cache_head`.
pub record BioCache : Type 0 where
  pub slabs : Slabs
  pub bio_cache : ℕ
  pub bio : ℕ → Bio
  pub nodes : List ℕ
  pub bio_cache_count : ℕ
  pub sleep : List ℕ
  pub proc_state : ℕ → ProcState

-- `bio_initialize` on the state at the start; 28 is sizeof(struct bio).
pub bio_initialize : BioCache → Option BioCache
bio_initialize s = slab_create_kmem_cache 28 4 s.slabs >>= λ r.
    if r.0 == 0 then none else some (record s { nodes = []; bio_cache = r.0; slabs = r.1 })

-- `flag & (BIO_FLAG_REFFED | BIO_FLAG_DIRTY)`.
abbrev pub is_busy : ℕ → Bool
is_busy flag = test_bit flag bio_flag_reffed || test_bit flag bio_flag_dirty

abbrev pub is_at : ℕ → ℕ → Bio → Bool
is_at dev sector b = (b.dev == dev) && (b.sector == sector)

pub find_bio : ℕ → ℕ → (ℕ → Bio) → List ℕ → Option ℕ
find_bio dev sector bio [] = none
find_bio dev sector bio (x ∷ xs) =
    if is_at dev sector (bio x) then some x else find_bio dev sector bio xs

-- The last bio of the list that is not busy: the search goes by `prev`.
pub find_unused_bio : (ℕ → Bio) → List ℕ → Option ℕ
find_unused_bio bio [] = none
find_unused_bio bio (x ∷ xs) = elim (find_unused_bio bio xs) [
  | some y ↦ some y
  | none ↦ if not (is_busy (bio x).flag) then some x else none
]

-- `slab_alloc_bio`: the new bio, if there is a page for its buffer.
pub slab_alloc_bio : BioCache → Option (Option ℕ × BioCache)
slab_alloc_bio s = slab_alloc s.bio_cache s.slabs >>= λ r.
    if r.0 == 0
    then some (none, record s { slabs = r.1 })
    else (pmm_alloc_pages 0 r.1.pmm >>= λ page.
        let cleared : Bio = record {
          buffer = 0;
          flag = 0;
          iter = 0;
          dev = 0;
          sector = 0;
          sleep = [];
        } in
        let slabs = record r.1 { pmm = page.1 } in
        if page.0 == 0
        then (slab_free s.bio_cache r.0 slabs >>= λ freed.
            some (none, record s { slabs = freed; bio = update s.bio r.0 cleared }))
        else some (
          some r.0,
          record s {
            slabs = slabs;
            bio_cache_count = s.bio_cache_count + 1;
            bio = update s.bio r.0 (record cleared { buffer = p2v (page.0 * page_size) });
          },
        ))

-- `sleep_wait_bio` for a bio and for the head of the list.
pub sleep_wait_bio : ℕ → ℕ → BioCache → BioCache
sleep_wait_bio proc x s = record s {
  bio = update s.bio x (record (s.bio x) { sleep = (s.bio x).sleep ++ (proc ∷ []) });
  proc_state = update s.proc_state proc proc_state_io;
}

pub sleep_wait_list : ℕ → BioCache → BioCache
sleep_wait_list proc s = record s {
  sleep = s.sleep ++ (proc ∷ []);
  proc_state = update s.proc_state proc proc_state_io;
}

-- `sleep_wait_bio_complete`: the process that reads comes first.
pub sleep_wait_bio_complete : ℕ → ℕ → BioCache → BioCache
sleep_wait_bio_complete proc x s = record s {
  bio = update s.bio x (record (s.bio x) { sleep = proc ∷ (s.bio x).sleep });
  proc_state = update s.proc_state proc proc_state_io;
}

pub wake_up_sleep_process : ℕ → BioCache → BioCache
wake_up_sleep_process x s = elim (s.bio x).sleep [
  | proc ∷ procs ↦ record s {
    bio = update s.bio x (record (s.bio x) { sleep = procs });
    proc_state = update s.proc_state proc proc_state_running;
  }
  | [] ↦ elim s.sleep [
    | proc ∷ procs ↦ record s {
      sleep = procs;
      proc_state = update s.proc_state proc proc_state_running;
    }
    | [] ↦ s
  ]
]

-- `if (!cache) cache = …`.
abbrev pub or_else : Option ℕ → Option ℕ → Option ℕ
or_else none y = y
or_else (some x) y = some x

-- A round of the loop of `alloc_bio`; no bio means that the process sleeps.
pub alloc_bio_round : BioCache → Option (Option ℕ × BioCache)
alloc_bio_round s =
    (if ltb s.bio_cache_count max_cache_count then slab_alloc_bio s else some (none, s)) >>= λ r.
    some (or_else r.0 (find_unused_bio r.1.bio r.1.nodes), r.1)

-- Where `bio_get` stands: it has returned a bio, or sleeps for a bio, or at the list.
pub data GetStep : Type 0 where
  got : ℕ → GetStep
  waits_bio : ℕ → GetStep
  waits_list : GetStep

-- The end of `bio_get`, from the `while` on; it goes on here when a sleep for the bio is over.
pub claim_bio : ℕ → ℕ → ℕ → BioCache → GetStep × BioCache
claim_bio proc sector x s =
    let b = s.bio x in
    if is_busy b.flag then (waits_bio x, sleep_wait_bio proc x s) else (
      got x,
      record s {
        nodes = x ∷ unlink x s.nodes;
        bio =
            update s.bio x (record b {
              iter = (sector - b.sector) % 256;
              flag = set_bit b.flag bio_flag_reffed;
            });
      },
    )

-- After a round of `alloc_bio`.
pub bio_get_placed : ℕ → ℕ → ℕ → Option ℕ → BioCache → Option (GetStep × BioCache)
bio_get_placed proc dev sector none s = some (waits_list, sleep_wait_list proc s)
bio_get_placed proc dev sector (some x) s = some (
    claim_bio proc sector x (record s {
      bio = update s.bio x (record (s.bio x) { flag = 0; dev = dev; sector = base_sector sector });
    }))

-- `bio_get` where the sector is not in the cache; it goes on here when a sleep at the list is over.
pub bio_get_new : ℕ → ℕ → ℕ → BioCache → Option (GetStep × BioCache)
bio_get_new proc dev sector s = alloc_bio_round s >>= λ r. bio_get_placed proc dev sector r.0 r.1

pub bio_get : ℕ → ℕ → ℕ → BioCache → Option (GetStep × BioCache)
bio_get proc dev sector s = elim (find_bio dev (base_sector sector) s.bio s.nodes) [
  | some x ↦ some (claim_bio proc sector x s)
  | none ↦ bio_get_new proc dev sector s
]

-- `uint64_t bio_last_sector`.
pub bio_last_sector : Bio → ℕ
bio_last_sector b = (b.sector + sectors_per_bio - 1) % 2 ^ 64

pub bio_data : Bio → Option ℕ
bio_data b = if ltb b.iter sectors_per_bio then some (b.buffer + b.iter * 512) else none

pub bio_advance_iter : Bio → Bio
bio_advance_iter b = if ltb b.iter sectors_per_bio then record b { iter = b.iter + 1 } else b

-- `struct ide_dma_io`, with the function that its completion calls.
pub data Complete : Type 0 where
  ide_read_complete : Complete
  ide_write_complete : Complete

pub record DmaIo : Type 0 where
  pub drive : ℕ
  pub sector_count : ℕ
  pub start : ℕ
  pub buffer : ℕ
  pub size : ℕ
  pub data_word : ℕ
  pub complete_func : Complete

-- `ide_read_complete`, for the bio of the request.
pub read_complete : Bool → ℕ → BioCache → Option BioCache
read_complete error x s = elim (s.bio x).sleep [
  | [] ↦ none
  | proc ∷ procs ↦ some (record s {
    bio = update s.bio x (record (s.bio x) {
      flag = if not error then set_bit (s.bio x).flag bio_flag_updated else (s.bio x).flag;
      sleep = procs;
    });
    proc_state = update s.proc_state proc proc_state_running;
  })
]

-- `bio_read` up to its sleep: its result where it has one, or the request that it waits for.
pub data ReadStep : Type 0 where
  read_done : Bool → ReadStep
  read_waits : DmaIo → ReadStep

pub bio_read : ℕ → ℕ → BioCache → ReadStep × BioCache
bio_read proc x s =
    let b = s.bio x in
    if not (test_bit b.flag bio_flag_updated)
    then (
      read_waits (record {
        drive = b.dev;
        sector_count = sectors_per_bio;
        start = b.sector;
        buffer = v2p b.buffer;
        size = page_size;
        data_word = x;
        complete_func = ide_read_complete;
      }),
      sleep_wait_bio_complete proc x s,
    )
    else (read_done true, s)

-- What `bio_read` returns once its sleep is over.
pub bio_read_end : ℕ → BioCache → Bool
bio_read_end x s = test_bit (s.bio x).flag bio_flag_updated

-- `ide_write_complete`.
pub write_complete : Bool → ℕ → BioCache → BioCache
write_complete error x s =
    let b = s.bio x in
    let flag =
      clear_bit (if not error then set_bit b.flag bio_flag_updated else b.flag) bio_flag_dirty in
    let s' = record s { bio = update s.bio x (record b { flag = flag }) } in
    if not (test_bit flag bio_flag_reffed) then wake_up_sleep_process x s' else s'

-- `bio_write`: the request's field `data` is not set, and has what the stack holds.
pub bio_write : ℕ → ℕ → BioCache → DmaIo × BioCache
bio_write stack x s =
    let b = s.bio x in
    (
      record {
        drive = b.dev;
        sector_count = sectors_per_bio;
        start = b.sector;
        buffer = v2p b.buffer;
        size = page_size;
        data_word = stack;
        complete_func = ide_write_complete;
      },
      record s {
        bio =
            update s.bio x
              (record b { flag = clear_bit (set_bit b.flag bio_flag_dirty) bio_flag_updated });
      },
    )

pub bio_release : ℕ → BioCache → BioCache
bio_release x s =
    let b = s.bio x in
    let flag = clear_bit b.flag bio_flag_reffed in
    let s' = record s { bio = update s.bio x (record b { flag = flag }) } in
    if not (test_bit flag bio_flag_dirty) then wake_up_sleep_process x s' else s'
