-- ===== src/Slab.antt =====
-- mm/slab.c. A slab is known by the virtual address of its page, a cache by a number: 0 is
-- `kmem_cache_cache`, 1 to 9 are `kmalloc_caches`, and a cache that was created is known by its
-- address. The slabs on a list are the addresses from the head's `next` on; a node is linked once.
-- `none` is a panic. Sizes are those of the 32-bit target.

pub mod Layout
pub mod Lists
pub mod Objects
pub mod Release
pub mod Take
pub mod Tests
use airix.Pmm.{Pmm, pmm_alloc_pages, pmm_free_pages}
use airix.Prelude.{
  ℕ, ◌+◌, ◌-◌, ◌*◌, ◌/◌, ◌%◌, ◌^◌, ◌&&◌, Option, none, some, List, [], ◌∷◌, ltb, leb, ◌==◌,
  if◌then◌else◌, get_or, update, ◌>>=◌,
}

-- `struct slab_page` without its links; `free i` is the entry i of the array.
pub record SlabPage : Type 0 where
  pub avail : ℕ
  pub limit : ℕ
  pub object_base : ℕ
  pub cache : ℕ
  pub free : ℕ → ℕ

-- `struct kmem_cache` without its links.
pub record KmemCache : Type 0 where
  pub object_size : ℕ
  pub size : ℕ
  pub align : ℕ
  pub full_slab : List ℕ
  pub partial_slab : List ℕ
  pub free_slab : List ℕ

pub record Slabs : Type 0 where
  pub pmm : Pmm
  pub slab : ℕ → SlabPage
  pub kmem_cache : ℕ → KmemCache
  pub cache_list : List ℕ

-- The list without a node.
unfoldable pub unlink : ℕ → List ℕ → List ℕ
unlink x [] = []
unlink x (y ∷ ys) = if x == y then unlink x ys else y ∷ unlink x ys

abbrev pub kernel_base : ℕ
kernel_base = 0xC0000000

abbrev pub p2v : ℕ → ℕ
p2v paddr = (paddr + kernel_base) % 2 ^ 32

abbrev pub v2p : ℕ → ℕ
v2p vaddr = (vaddr + 2 ^ 32 - kernel_base) % 2 ^ 32

-- `VIRT_TO_PAGE`.
abbrev pub virt_to_page : ℕ → ℕ
virt_to_page virt = virt - virt % 4096

-- `ALIGN` for an alignment that is a power of two.
abbrev pub align_to : ℕ → ℕ → ℕ
align_to x a = (x + (a - 1)) % 2 ^ 32 / a * a

-- `slab_list_remove`: the slab leaves the list of its cache that it is on.
unfoldable pub slab_list_remove : ℕ → KmemCache → KmemCache
slab_list_remove x c = record c {
  full_slab = unlink x c.full_slab;
  partial_slab = unlink x c.partial_slab;
  free_slab = unlink x c.free_slab;
}

-- The array of available objects that `init_slab_page` fills.
pub fill_free : ℕ → ℕ → ℕ → ℕ → ℕ
fill_free base size limit i = base + i * size

-- sizeof(struct slab_page) - sizeof(void *).
abbrev pub slab_header : ℕ
slab_header = 24

pub new_slab_page : ℕ → ℕ → ℕ → SlabPage
new_slab_page cache size slab =
    let limit = (4096 - slab_header) / (size + 4) in
    let base = slab + (4096 - limit * size) in
    record {
      avail = limit;
      limit = limit;
      object_base = base;
      cache = cache;
      free = fill_free base size limit;
    }

pub init_slab_page : ℕ → ℕ → Slabs → Slabs
init_slab_page cache slab s =
    let c = s.kmem_cache cache in
    record s {
      slab = update s.slab slab (new_slab_page cache c.size slab);
      kmem_cache = update s.kmem_cache cache (record c { free_slab = slab ∷ c.free_slab });
    }

-- The page that the allocator gives is page 0 when it has failed.
unfoldable pub alloc_slab_page : ℕ → Slabs → Option (ℕ × Slabs)
alloc_slab_page cache s = pmm_alloc_pages 0 s.pmm >>= λ r.
    if r.0 == 0
    then none
    else (let slab = p2v (r.0 * 4096) in
        some (slab, init_slab_page cache slab (record s { pmm = r.1 })))

unfoldable pub alloc_object_from_slab : ℕ → Slabs → Option (ℕ × Slabs)
alloc_object_from_slab slab s =
    let page = s.slab slab in
    let avail = page.avail - 1 in
    let object = page.free avail in
    let c = s.kmem_cache page.cache in
    let c' =
      if avail == 0
      then (let r = slab_list_remove slab c in record r { full_slab = slab ∷ r.full_slab })
      else if avail + 1 == page.limit
      then (let r = slab_list_remove slab c in record r { partial_slab = slab ∷ r.partial_slab })
      else c in
    if page.avail == 0
    then none
    else some (
      object,
      record s {
        slab = update s.slab slab (record page { avail = avail });
        kmem_cache = update s.kmem_cache page.cache c';
      },
    )

-- `alloc_object`: the partial slabs first, then the free ones, then a new one.
unfoldable pub alloc_object : ℕ → Slabs → Option (ℕ × Slabs)
alloc_object cache s = elim (s.kmem_cache cache).partial_slab [
  | x ∷ xs ↦ alloc_object_from_slab x s
  | [] ↦ elim (s.kmem_cache cache).free_slab [
    | y ∷ ys ↦ alloc_object_from_slab y s
    | [] ↦ alloc_slab_page cache s >>= λ r. alloc_object_from_slab r.0 r.1
  ]
]

unfoldable pub free_object : ℕ → ℕ → Slabs → Option Slabs
free_object cache object s =
    let slab = virt_to_page object in
    let page = s.slab slab in
    let avail = page.avail + 1 in
    let c = s.kmem_cache cache in
    let c' =
      if (avail == 1) && ltb avail page.limit
      then (let r = slab_list_remove slab c in record r { partial_slab = slab ∷ r.partial_slab })
      else if avail == page.limit
      then (let r = slab_list_remove slab c in record r { free_slab = slab ∷ r.free_slab })
      else c in
    if page.cache == cache
    then some (record s {
      slab =
          update s.slab slab
            (record page { avail = avail; free = update page.free page.avail object });
      kmem_cache = update s.kmem_cache cache c';
    })
    else none

-- `slab_create_kmem_cache`: the new cache is the object that comes from `kmem_cache_cache`.
pub slab_create_kmem_cache : ℕ → ℕ → Slabs → Option (ℕ × Slabs)
slab_create_kmem_cache object_size align s = alloc_object 0 s >>= λ r. some (
  r.0,
  record r.1 {
    kmem_cache = update r.1.kmem_cache r.0 (record {
      object_size = object_size;
      size = align_to object_size align;
      align = align;
      full_slab = [];
      partial_slab = [];
      free_slab = [];
    });
    cache_list = r.0 ∷ r.1.cache_list;
  },
)

-- `slab_list_destroy`: the pages go back to the page allocator.
pub slab_list_destroy : List ℕ → Pmm → Pmm
slab_list_destroy [] pmm = pmm
slab_list_destroy (x ∷ xs) pmm = slab_list_destroy xs (pmm_free_pages (v2p x / 4096) 0 pmm)

pub slab_destroy_kmem_cache : ℕ → Slabs → Option Slabs
slab_destroy_kmem_cache cache s =
    let c = s.kmem_cache cache in
    free_object 0 cache (record s {
      cache_list = unlink cache s.cache_list;
      pmm =
          slab_list_destroy c.full_slab
            (slab_list_destroy c.partial_slab (slab_list_destroy c.free_slab s.pmm));
      kmem_cache =
          update s.kmem_cache cache
            (record c { full_slab = []; partial_slab = []; free_slab = [] });
    })

unfoldable pub slab_alloc : ℕ → Slabs → Option (ℕ × Slabs)
slab_alloc cache s = alloc_object cache s

unfoldable pub slab_free : ℕ → ℕ → Slabs → Option Slabs
slab_free cache object s = free_object cache object s

unfoldable pub kmalloc_index : ℕ → Option ℕ
kmalloc_index size =
    if leb size 4
    then some 0
    else if leb size 8
    then some 1
    else if leb size 16
    then some 2
    else if leb size 32
    then some 3
    else if leb size 64
    then some 4
    else if leb size 128
    then some 5
    else if leb size 256
    then some 6
    else if leb size 512
    then some 7
    else if leb size 1024
    then some 8
    else none

unfoldable pub kmalloc : ℕ → Slabs → Option (ℕ × Slabs)
kmalloc size s = kmalloc_index size >>= λ index. alloc_object (index + 1) s

pub kfree : ℕ → Slabs → Option Slabs
kfree ptr s = free_object (s.slab (virt_to_page ptr)).cache ptr s

-- The static caches: `KMEM_CACHE_INIT` and `KMALLOC_CACHE`.
abbrev pub cache_init : ℕ → KmemCache
cache_init size = record {
  object_size = size;
  size = size;
  align = 4;
  full_slab = [];
  partial_slab = [];
  free_slab = [];
}

pub static_caches : ℕ → KmemCache
static_caches id =
    if id == 0
    then cache_init 104
    else cache_init (get_or (4 ∷ 8 ∷ 16 ∷ 32 ∷ 64 ∷ 128 ∷ 256 ∷ 512 ∷ 1024 ∷ []) (id - 1) 0)
