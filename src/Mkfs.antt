-- ===== src/Mkfs.antt =====
-- tools/mkfs.c: the image and its allocation. The image is a function from positions to bytes, of
-- which those that were never written are 0; a seek with the read or write behind it is one access.
-- `none` is an exit.
pub mod Bitmap
pub mod Words
pub mod Alloc
pub mod First
pub mod Inode
pub mod Space
pub mod Tests
use airix.Prelude.{
  ℕ, zero, suc, ◌+◌, ◌-◌, ◌*◌, ◌/◌, ◌%◌, ◌^◌, ◌≤◌, ◌<◌, min, ◌≡◌, refl, sym, ap, subst, ◌∙◌,
  fun_ext, ◌≢◌, ◌↔◌, ◌⊎◌, inl, inr, Bool, true, false, not, ◌&&◌, ◌||◌, Option, none, some, List,
  [], ◌∷◌, ◌++◌, map, reverse, arith, dec_lt, dec_le, ℕ_discrete, ltb, leb, ◌==◌, if◌then◌else◌,
  ltb→lt, lt→ltb, leb→le, le→leb, nle→leb, ==_iff, Bool-cases, Option-cases, tests, all_below,
  all_below_sound, length, get_elem?, get_or, set, take, drop, replicate, length-append, length-set,
  get_or-set_self, get_or-set_ne, length-take, length-replicate, test_bit, set_bit, clear_bit,
  update, update_self, update_ne, ◌>>=◌, >>=-eq-some, subst_some, nil_of_length, List-cases, Holds,
  Holds-some, Holds-bind, Holds-if, le16, le32, le64, zero_add, add_zero, add_suc, suc_add,
}
use airix.Pid.{shift_one}
use airix.Axfs.{
  AxSuperBlock, AxInode, ax_fs_super_block_no, ax_fs_block_size, ax_fs_direct_block_count, to_inode,
}

abbrev pub ax_fs_blocks_per_group : ℕ
ax_fs_blocks_per_group = 8 * 1024

-- `struct ax_block_group_descriptor`.
pub record AxBlockGroupDescriptor : Type 0 where
  pub bg_block_bitmap : ℕ
  pub bg_inode_bitmap : ℕ
  pub bg_inode_table : ℕ
  pub bg_free_blocks_count : ℕ
  pub bg_free_inodes_count : ℕ

pub record Mkfs : Type 0 where
  pub img : ℕ → ℕ
  pub super_block : AxSuperBlock

-- Integers put into the image, the low byte first.
abbrev pub put16 : ℕ → ℕ → (ℕ → ℕ) → ℕ → ℕ
put16 o v img = update (update img o (v % 256)) (o + 1) (v / 256 % 256)

abbrev pub put32 : ℕ → ℕ → (ℕ → ℕ) → ℕ → ℕ
put32 o v img = put16 (o + 2) (v / 65536) (put16 o v img)

-- The position of the descriptor of a group; 16 is its size.
abbrev pub descriptor_at : ℕ → ℕ
descriptor_at bg_no = bg_no * 16 + (ax_fs_super_block_no + 1) * ax_fs_block_size

pub get_block_group_metadata : ℕ → Mkfs → AxBlockGroupDescriptor
get_block_group_metadata bg_no s =
    let offset = descriptor_at bg_no in
    record {
      bg_block_bitmap = le32 s.img offset;
      bg_inode_bitmap = le32 s.img (offset + 4);
      bg_inode_table = le32 s.img (offset + 8);
      bg_free_blocks_count = le16 s.img (offset + 12);
      bg_free_inodes_count = le16 s.img (offset + 14);
    }

pub update_block_group_metadata : ℕ → AxBlockGroupDescriptor → Mkfs → Mkfs
update_block_group_metadata bg_no desc s =
    let offset = descriptor_at bg_no in
    record s {
      img = put16 (offset + 14) desc.bg_free_inodes_count (
          put16 (offset + 12) desc.bg_free_blocks_count (
            put32 (offset + 8) desc.bg_inode_table
              (put32 (offset + 4) desc.bg_inode_bitmap (put32 offset desc.bg_block_bitmap s.img))));
    }

-- The place of a block's first byte, whose product is one of 32 bits.
abbrev pub block_at : ℕ → ℕ
block_at block = block * ax_fs_block_size % 2 ^ 32

-- The loops over a bitmap: the first of n bits from b on that is clear, the high bit of a byte first,
-- and the first in n bytes from i on.
pub find_bit : ℕ → ℕ → ℕ → Option ℕ
find_bit zero b bits = none
find_bit (suc n) b bits =
    let rest = find_bit n (b + 1) bits in
    if not (test_bit bits (shift_one (7 - b))) then some b else rest

pub find_byte : ℕ → ℕ → (ℕ → ℕ) → Option ℕ
find_byte zero i bitmap = none
find_byte (suc n) i bitmap =
    let rest = find_byte n (i + 1) bitmap in
    if bitmap i == 0xFF
    then rest
    else elim (find_bit 8 0 (bitmap i)) [ some b ↦ some (b + i * 8) | none ↦ rest ]

abbrev pub bitmap_of : ℕ → Mkfs → ℕ → ℕ
bitmap_of block s i = s.img (block_at block + i)

pub alloc_inode_no_from_block_group : ℕ → Mkfs → ℕ
alloc_inode_no_from_block_group bg_no s =
    let desc = get_block_group_metadata bg_no s in
    if ltb 0 desc.bg_free_inodes_count
    then elim (find_byte 1024 0 (bitmap_of desc.bg_inode_bitmap s)) [
      | none ↦ 0
      | some bit ↦ (bit + bg_no * s.super_block.s_inodes_per_group + 1) % 2 ^ 32
    ]
    else 0

-- The search of n groups from i on.
pub search_inodes : ℕ → ℕ → Mkfs → Option ℕ
search_inodes zero i s = none
search_inodes (suc n) i s =
    let ino = alloc_inode_no_from_block_group i s in
    let rest = search_inodes n (i + 1) s in if not (ino == 0) then some ino else rest

-- The number of groups is `count / per_group + (count % per_group) ? 1 : 0` as C reads it.
abbrev pub group_number : ℕ → ℕ → ℕ
group_number count per_group = if count / per_group + count % per_group == 0 then 0 else 1

pub alloc_inode_no : Mkfs → Option ℕ
alloc_inode_no s =
    search_inodes (group_number s.super_block.s_inodes_count s.super_block.s_inodes_per_group) 0 s

-- A bit of a bitmap, set.
pub mark_bit : ℕ → ℕ → Mkfs → Mkfs
mark_bit bitmap n s =
    let at = block_at bitmap + n / 8 in
    record s { img = update s.img at (set_bit (s.img at) (shift_one (7 - n % 8))) }

pub update_inode_bitmap : ℕ → ℕ → Mkfs → Mkfs
update_inode_bitmap inode_bitmap bg_ino s = mark_bit inode_bitmap bg_ino s

abbrev pub minus_one16 : ℕ → ℕ
minus_one16 n = (n + 2 ^ 16 - 1) % 2 ^ 16

pub alloc_block_from_block_group : ℕ → Mkfs → ℕ
alloc_block_from_block_group bg_no s =
    let desc = get_block_group_metadata bg_no s in
    if ltb 0 desc.bg_free_blocks_count
    then elim (find_byte 1024 0 (bitmap_of desc.bg_block_bitmap s)) [
      | none ↦ 0
      | some bit ↦ (bit + bg_no * ax_fs_blocks_per_group + ax_fs_super_block_no) % 2 ^ 32
    ]
    else 0

pub search_blocks : ℕ → ℕ → Mkfs → Option ℕ
search_blocks zero i s = none
search_blocks (suc n) i s =
    let block = alloc_block_from_block_group i s in
    let rest = search_blocks n (i + 1) s in
    if ltb 0 block && ltb block ((s.super_block.s_blocks_count + ax_fs_super_block_no) % 2 ^ 32)
    then some block
    else rest

pub alloc_block : Mkfs → Option ℕ
alloc_block s = search_blocks (group_number s.super_block.s_blocks_count ax_fs_blocks_per_group) 0 s

pub update_block_bitmap : ℕ → Mkfs → Mkfs
update_block_bitmap block s =
    let bg = (block + 2 ^ 32 - ax_fs_super_block_no) % 2 ^ 32 / ax_fs_blocks_per_group in
    let bg_bno = (block + 2 ^ 32 - ax_fs_super_block_no) % 2 ^ 32 % ax_fs_blocks_per_group in
    let desc = get_block_group_metadata bg s in
    update_block_group_metadata bg
      (record desc { bg_free_blocks_count = minus_one16 desc.bg_free_blocks_count })
      (mark_bit desc.bg_block_bitmap bg_bno s)

-- The position of an inode; 128 is its size.
pub seek_inode : ℕ → Mkfs → ℕ
seek_inode ino s =
    let per_group = s.super_block.s_inodes_per_group in
    let bg = (ino + 2 ^ 32 - 1) % 2 ^ 32 / per_group in
    let bg_ino = (ino + 2 ^ 32 - 1) % 2 ^ 32 % per_group in
    bg_ino * 128 + block_at (get_block_group_metadata bg s).bg_inode_table

-- n words of a table, and an inode, whose times and owners are 0.
pub put_words : ℕ → ℕ → (ℕ → ℕ) → (ℕ → ℕ) → ℕ → ℕ
put_words zero o words img = img
put_words (suc n) o words img = put32 (o + 4 * n) (words n) (put_words n o words img)

pub update_inode : ℕ → AxInode → Mkfs → Mkfs
update_inode ino inode s =
    let at = seek_inode ino s in
    let zeroed : ℕ → ℕ = λ a. if leb at a && ltb a (at + 128) then 0 else s.img a in
    record s {
      img = put_words 24 (at + 32) inode.i_block (
          put32 (at + 28) (inode.i_size / 2 ^ 32)
            (put32 (at + 24) inode.i_size (put16 at inode.i_mode zeroed)));
    }

pub write_inode : ℕ → AxInode → Mkfs → Mkfs
write_inode ino inode s =
    let per_group = s.super_block.s_inodes_per_group in
    let bg = (ino + 2 ^ 32 - 1) % 2 ^ 32 / per_group in
    let bg_ino = (ino + 2 ^ 32 - 1) % 2 ^ 32 % per_group in
    let desc = get_block_group_metadata bg s in
    update_block_group_metadata bg
      (record desc { bg_free_inodes_count = minus_one16 desc.bg_free_inodes_count })
      (update_inode_bitmap desc.bg_inode_bitmap bg_ino (update_inode ino inode s))

pub get_inode : ℕ → Mkfs → AxInode
get_inode ino s = to_inode s.img (seek_inode ino s)
