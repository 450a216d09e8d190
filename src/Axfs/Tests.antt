-- ===== src/Axfs/Tests.antt =====
-- A small disk, and the theorems on the file system at it.
use airix.Prelude.{
  ℕ, ◌+◌, ◌-◌, ◌*◌, ◌≤◌, ◌<◌, min, ◌≡◌, refl, ◌≢◌, ◌⊎◌, true, none, some, [], ◌∷◌, ◌++◌, arith,
  ◌==◌, if◌then◌else◌,
}
use airix.Pmm.{Pmm}
use airix.Slab.{
  Slabs, SlabPage, KmemCache, slab_alloc, slab_free, alloc_object, alloc_object_from_slab,
  free_object, slab_list_remove,
}
use airix.Axfs.{
  Disk, AxInode, AxSuperBlock, Ax, get_super_block, namex, read_file, read_loop, copy, ax_s_ifdir,
}
use airix.Axfs.Read.{read_bytes, read_file-read_bytes}
use airix.Axfs.Names.{names, split, up_to_empty, put_first}
use airix.Axfs.Path.{walk, Paired, Lasts, namex-walk}
use airix.Axfs.Ops.{File, Vfs, axfs, ax_read}
use airix.Axfs.Open.{target, target_inode, Refused, Opened, ax_open-Opened}
use airix.Axfs.Sequence.{ax_read-ax_read}

-- A directory of one file "a", inode 2, of five bytes, with the inodes in block 3.
abbrev test_byte : ℕ → ℕ → ℕ
test_byte sector o =
    if sector == 2
    then if o == 16 then 32 else 0
    else if sector == 4
    then if o == 8 then 3 else 0
    else if sector == 6
    then (if o == 1
        then 0x40
        else if o == 32
        then 10
        else if o == 129
        then 0x80
        else if o == 152
        then 5
        else if o == 160
        then 11
        else 0)
    else if sector == 20
    then (if o == 0
        then 2
        else if o == 5
        then 4
        else if o == 6
        then 1
        else if o == 8
        then 97
        else 0)
    else 65 + o

abbrev pub test_disk : Disk
test_disk = record { ok = λ device sector. true; byte = λ device sector o. test_byte sector o }

abbrev no_pages : Pmm
no_pages = record {
  flags = λ p. 0;
  order = λ p. 0;
  total_pages = 8;
  num_pages = 0;
  num_blocks = λ o. 0;
  areas = λ o. [];
}

abbrev one_slab : SlabPage
one_slab = record {
  avail = 6;
  limit = 9;
  object_base = 0xC0001400;
  cache = 5;
  free = λ i. 0xC0001400 + 128 * i;
}

abbrev one_cache : KmemCache
one_cache = record {
  object_size = 128;
  size = 128;
  align = 4;
  full_slab = [];
  partial_slab = 0xC0001000 ∷ [];
  free_slab = [];
}

abbrev pub test_slabs : Slabs
test_slabs = record {
  pmm = no_pages;
  slab = λ x. one_slab;
  kmem_cache = λ id. one_cache;
  cache_list = [];
}

abbrev test_ax : Ax
test_ax = record {
  slabs = test_slabs;
  inode_cache = 5;
  inode = λ p. record { i_mode = 0x8000; i_size = 5; i_block = λ i. 11 };
}

pub some_object : (n : ℕ) → 0 < n → n ≢ 0
some_object n h e = absurd (omega arith)

two_rounds : Lasts 5 2 test_slabs
unfolding Lasts slab_alloc slab_free alloc_object alloc_object_from_slab free_object
    slab_list_remove
two_rounds = (
  _,
  _,
  _,
  refl,
  some_object _ (omega arith),
  refl,
  (_, _, _, refl, some_object _ (omega arith), refl, tt),
)

abbrev test_super : AxSuperBlock
test_super = get_super_block test_disk 1

pub test_walk : ℕ
test_walk = walk test_disk test_super 1 (names (97 ∷ [])) 1

namex-walk_example :
    (s' : Ax) × (namex test_disk test_super 1 (97 ∷ []) 1 test_ax
      ≡ some (walk test_disk test_super 1 (names (97 ∷ [])) 1, s'))
    × Paired 5 test_slabs s'.slabs
    × (s'.inode_cache ≡ 5)
    × (walk test_disk test_super 1 (names (97 ∷ [])) 1 ≢ 0 → Lasts 5 1 s'.slabs)
unfolding split up_to_empty put_first
namex-walk_example = namex-walk test_disk test_super 1 1 (97 ∷ []) 1 test_ax two_rounds

abbrev pub test_file : File
test_file = record {
  f_mount = none;
  f_op = some axfs;
  f_path = 7;
  f_inode = 9;
  f_pos = 0;
  f_refs = 0;
  f_flags = 1;
}

abbrev pub test_vfs : Vfs
test_vfs = record {
  ax = test_ax;
  file_cache = 6;
  inode_cache = 5;
  inodes = λ i. record { i_device = 1; i_ino = 0; i_private = 4 };
  paths = λ q. 47 ∷ 97 ∷ [];
}

ax_open-Opened_example :
    (((target test_disk test_file (97 ∷ []) test_vfs ≡ 0)
        ⊎ ((target_inode test_disk test_file (97 ∷ []) test_vfs).i_mode ≡ ax_s_ifdir))
      × Refused test_disk test_file test_vfs)
    ⊎ ((target test_disk test_file (97 ∷ []) test_vfs ≢ 0)
        × ((target_inode test_disk test_file (97 ∷ []) test_vfs).i_mode ≢ ax_s_ifdir)
        × Opened test_disk test_file (97 ∷ []) test_vfs)
unfolding split up_to_empty put_first
ax_open-Opened_example = ax_open-Opened test_disk test_file (97 ∷ []) test_vfs refl refl two_rounds

abbrev test_node : AxInode
test_node = record { i_mode = 0x8000; i_size = 5; i_block = λ i. 11 }

read_file-read_bytes_example :
    (5 ≤ 1 → read_file test_disk 1 test_node 1 9 ≡ (some 0, []))
    × (1 < 5 → 21 * 1024 ≤ 1 → read_file test_disk 1 test_node 1 9 ≡ (none, []))
    × (1 < 5
        → 1 < 21 * 1024
        → read_file test_disk 1 test_node 1 9
          ≡ read_bytes (min (min 9 (5 - 1)) (21 * 1024 - 1)) test_disk 1 test_node 1)
read_file-read_bytes_example = read_file-read_bytes test_disk 1 test_node 1 9 (omega arith)

ax_read-ax_read_example : ax_read test_disk test_file (2 + 9) test_vfs ≡ (
  some (2 + 3),
  (ax_read test_disk test_file 2 test_vfs).1
      ++ (ax_read test_disk (ax_read test_disk test_file 2 test_vfs).2 9 test_vfs).1,
  (ax_read test_disk (ax_read test_disk test_file 2 test_vfs).2 9 test_vfs).2,
)
unfolding ax_read read_file read_loop copy
ax_read-ax_read_example =
    ax_read-ax_read test_disk test_file 2 9 2 3 test_vfs (omega arith) (omega arith) refl refl
