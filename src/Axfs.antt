-- ===== src/Axfs.antt =====
-- fs/axfs.c and fs/axfs.h. A read through the buffer cache is an answer of the disk: whether it went
-- well, and the bytes of the buffer from the sector on. An inode in memory is known by its address in
-- the slab of `inode_cache`; a pointer into a path is the rest of the path, which ends at its zero.
-- `none` is a panic of an allocator.
pub mod Read
pub mod Entries
pub mod Names
pub mod Path
pub mod Ops
pub mod Open
pub mod Sequence
pub mod Tests
use airix.Prelude.{
  le16, le32, le64, ℕ, zero, suc, ◌+◌, ◌-◌, ◌*◌, ◌/◌, ◌%◌, ◌^◌, min, Bool, true, not, ◌&&◌, ◌||◌,
  Option, none, some, List, [], ◌∷◌, ◌++◌, ltb, leb, ◌==◌, if◌then◌else◌, length, update, ◌>>=◌,
}
use airix.Slab.{Slabs, slab_alloc, slab_free, slab_create_kmem_cache}

-- What `bio_read` returns, and the byte that `bio_data` shows, by device, sector and offset.
pub record Disk : Type 0 where
  pub ok : ℕ → ℕ → Bool
  pub byte : ℕ → ℕ → ℕ → ℕ

abbrev pub ax_fs_root_ino : ℕ
ax_fs_root_ino = 1

abbrev pub ax_fs_super_block_no : ℕ
ax_fs_super_block_no = 1

abbrev pub ax_fs_direct_block_count : ℕ
ax_fs_direct_block_count = 21

abbrev pub ax_fs_block_size : ℕ
ax_fs_block_size = 1024

pub record AxSuperBlock : Type 0 where
  pub s_inodes_count : ℕ
  pub s_blocks_count : ℕ
  pub s_free_inodes_count : ℕ
  pub s_free_blocks_count : ℕ
  pub s_inodes_per_group : ℕ

-- `enum ax_inode_mode`.
abbrev pub ax_s_ifreg : ℕ
ax_s_ifreg = 0x8000

abbrev pub ax_s_ifdir : ℕ
ax_s_ifdir = 0x4000

-- The fields of `struct ax_inode` that the kernel reads.
pub record AxInode : Type 0 where
  pub i_mode : ℕ
  pub i_size : ℕ
  pub i_block : ℕ → ℕ

pub record Ax : Type 0 where
  pub slabs : Slabs
  pub inode_cache : ℕ
  pub inode : ℕ → AxInode

-- `SECTOR_NO` of a block number of 32 bits.
abbrev pub sector_no : ℕ → ℕ
sector_no block = block * 2 % 2 ^ 32

-- 128 is sizeof(struct ax_inode).
pub ax_fs_initialize : Ax → Option Ax
ax_fs_initialize s =
    slab_create_kmem_cache 128 4 s.slabs >>= λ r. some (record s { inode_cache = r.0; slabs = r.1 })

pub get_super_block : Disk → ℕ → AxSuperBlock
get_super_block d device =
    let b = d.byte device (sector_no ax_fs_super_block_no) in
    record {
      s_inodes_count = le32 b 0;
      s_blocks_count = le32 b 4;
      s_free_inodes_count = le32 b 8;
      s_free_blocks_count = le32 b 12;
      s_inodes_per_group = le32 b 16;
    }

abbrev pub inode_bg_index : AxSuperBlock → ℕ → ℕ
inode_bg_index sb ino = (ino + 2 ^ 32 - 1) % 2 ^ 32 / sb.s_inodes_per_group

abbrev pub inode_index_in_bg : AxSuperBlock → ℕ → ℕ
inode_index_in_bg sb ino = (ino + 2 ^ 32 - 1) % 2 ^ 32 % sb.s_inodes_per_group

-- 16 is sizeof(struct ax_block_group_descriptor); the answer of the read is not looked at.
pub get_bg_inode_table : Disk → ℕ → ℕ → ℕ
get_bg_inode_table d device bg_index =
    let offset = 16 * bg_index % 2 ^ 32 in
    let sector = offset % ax_fs_block_size / 512 in
    let block = offset / ax_fs_block_size + ax_fs_super_block_no + 1 in
    le32 (d.byte device (block * 2 + sector)) (offset % 512 + 8)

-- The inode that stands in memory from an offset on.
unfoldable pub to_inode : (ℕ → ℕ) → ℕ → AxInode
to_inode b o = record {
  i_mode = le16 b o;
  i_size = le64 b (o + 24);
  i_block = λ i. le32 b (o + 32 + 4 * i);
}

pub inode_read : Disk → ℕ → ℕ → ℕ → AxInode
inode_read d device bg_index index =
    let inode_table = get_bg_inode_table d device bg_index in
    let offset = 128 * index % 2 ^ 32 in
    let sector = offset % ax_fs_block_size / 512 in
    let offset_in_sector = offset % ax_fs_block_size % 512 in
    let block = (inode_table + offset / ax_fs_block_size) % 2 ^ 32 in
    to_inode (d.byte device (block * 2 + sector)) offset_in_sector

-- The address of the inode, 0 for a null pointer.
pub inode_get : Disk → AxSuperBlock → ℕ → ℕ → Ax → Option (ℕ × Ax)
inode_get d sb device ino s = slab_alloc s.inode_cache s.slabs >>= λ r.
    let bg_index = inode_bg_index sb ino in
    let index = inode_index_in_bg sb ino in
    if r.0 == 0
    then some (0, record s { slabs = r.1 })
    else some (
      r.0,
      record s { slabs = r.1; inode = update s.inode r.0 (inode_read d device bg_index index) },
    )

pub inode_release : ℕ → Ax → Option Ax
inode_release inode s =
    if inode == 0
    then some s
    else (slab_free s.inode_cache inode s.slabs >>= λ slabs. some (record s { slabs = slabs }))

pub str_find : List ℕ → ℕ → List ℕ
str_find [] c = []
str_find (x ∷ xs) c = if x == c then x ∷ xs else str_find xs c

-- `memcmp(name, entry->name, length) == 0` for the first bytes of a name.
pub memcmp_eq : List ℕ → ℕ → (ℕ → ℕ) → ℕ → Bool
memcmp_eq name zero b o = true
memcmp_eq [] (suc n) b o = b o == 0
memcmp_eq (x ∷ xs) (suc n) b o = (x == b o) && memcmp_eq xs n b (o + 1)

-- The entries of a block from the offset `it` on.
pub find_entry : ℕ → List ℕ → ℕ → (ℕ → ℕ) → ℕ → Option ℕ
find_entry zero name length b it = none
find_entry (suc n) name length b it =
    let rest = find_entry n name length b (it + le16 b (it + 4)) in
    if ltb it ax_fs_block_size
    then (if (b (it + 6) == length) && memcmp_eq name length b (it + 8)
        then some (le32 b it)
        else if le16 b (it + 4) == 0
        then some 0
        else rest)
    else some 0

-- The loop ends on fuel 1025.
pub block_find_ino : Disk → List ℕ → ℕ → ℕ → ℕ → Option ℕ
block_find_ino d name length device block =
    if d.ok device (sector_no block)
    then find_entry 1025 name length (d.byte device (sector_no block)) 0
    else some 0

-- The blocks of a directory from `i` on.
pub find_block : ℕ → Disk → AxInode → List ℕ → ℕ → ℕ → ℕ → Option ℕ
find_block zero d dir name length device i = some 0
find_block (suc n) d dir name length device i =
    let block = dir.i_block i in
    let rest = find_block n d dir name length device (i + 1) in
    if block == 0
    then some 0
    else (block_find_ino d name length device block >>= λ ino. if ino == 0 then rest else some ino)

pub dir_find_ino : Disk → AxInode → List ℕ → ℕ → ℕ → Option ℕ
dir_find_ino d dir name length device =
    find_block ax_fs_direct_block_count d dir name length device 0

-- `begin = end + 1; end = str_find(begin, '/')` behind a separator; `end` where the path is over.
abbrev pub next_begin : List ℕ → List ℕ
next_begin [] = []
next_begin (x ∷ xs) = xs

-- The loop of `namex` with the release behind it; 47 is '/'.
pub namex_loop : ℕ → Disk → AxSuperBlock → ℕ → List ℕ → ℕ → Ax → Option (ℕ × Ax)
namex_loop zero d sb device begin ino s = none
namex_loop (suc n) d sb device begin ino s =
    let end = str_find begin 47 in
    let len = length begin - length end in
    if len == 0
    then some (ino, s)
    else (inode_get d sb device ino s >>= λ r.
        if (r.0 == 0) || not ((r.1.inode r.0).i_mode == ax_s_ifdir)
        then (inode_release r.0 r.1 >>= λ s'. some (0, s'))
        else (dir_find_ino d (r.1.inode r.0) begin len device >>= λ ino'.
            inode_release r.0 r.1 >>= λ s'.
            if ino' == 0 then some (0, s') else namex_loop n d sb device (next_begin end) ino' s'))

pub namex : Disk → AxSuperBlock → ℕ → List ℕ → ℕ → Ax → Option (ℕ × Ax)
namex d sb device name ino s = namex_loop (suc (length name)) d sb device name ino s

-- The inode's address and `*ino`, which stays as it is for a path that does not begin at the root.
pub namei : Disk → AxSuperBlock → ℕ → List ℕ → ℕ → Ax → Option (ℕ × ℕ × Ax)
namei d sb device [] ino s = some (0, ino, s)
namei d sb device (x ∷ xs) ino s =
    if x == 47
    then (namex d sb device xs ax_fs_root_ino s >>= λ r.
        if r.0 == 0
        then some (0, 0, r.1)
        else (inode_get d sb device r.0 r.1 >>= λ q. some (q.0, r.0, q.1)))
    else some (0, ino, s)

-- `memcpy` out of a block.
pub copy : (ℕ → ℕ) → ℕ → ℕ → List ℕ
copy b o zero = []
copy b o (suc n) = b o ∷ copy b (o + 1) n

-- The loop of `read_file`: the count, or none for -1, and the bytes that are in the buffer.
pub read_loop : ℕ → Disk → ℕ → AxInode → ℕ → ℕ → ℕ → Option ℕ × List ℕ
read_loop zero d device node block_index block_pos size = (none, [])
read_loop (suc n) d device node block_index block_pos size =
    let sector = sector_no (node.i_block block_index) in
    let bytes = min size (ax_fs_block_size - block_pos) in
    let rest = read_loop n d device node (block_index + 1) 0 (size - bytes) in
    if (size == 0) || leb ax_fs_direct_block_count block_index
    then (some 0, [])
    else if d.ok device sector
    then (
      rest.0 >>= λ count. some (bytes + count),
      copy (d.byte device sector) block_pos bytes ++ rest.1,
    )
    else (none, [])

-- The block index is a number of 32 bits; the loop ends on fuel 22.
pub read_file : Disk → ℕ → AxInode → ℕ → ℕ → Option ℕ × List ℕ
read_file d device node pos size =
    let block_index = pos / ax_fs_block_size % 2 ^ 32 in
    let block_pos = pos % ax_fs_block_size in
    if leb node.i_size pos
    then (some 0, [])
    else if leb ax_fs_direct_block_count block_index
    then (none, [])
    else read_loop 22 d device node block_index block_pos (min size (node.i_size - pos))
