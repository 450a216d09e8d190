-- ===== src/Mkfs/Inode.antt =====
-- tools/mkfs.c: an inode that is written and read back.
use airix.Prelude.{
  ℕ, zero, suc, ◌+◌, ◌-◌, ◌*◌, ◌/◌, ◌%◌, ◌^◌, ◌≤◌, ◌<◌, ◌≡◌, refl, sym, ap, ◌∙◌, ◌≢◌, inl, inr,
  true, ◌&&◌, arith, ℕ_discrete, ltb, leb, if◌then◌else◌, nle→leb, test_bit, le16, le32,
}
use airix.Pid.{shift_one}
use airix.Axfs.{AxInode, to_inode}
use airix.Mkfs.{
  Mkfs, AxBlockGroupDescriptor, put16, put32, descriptor_at, get_block_group_metadata,
  update_block_group_metadata, block_at, bitmap_of, mark_bit, update_inode_bitmap, minus_one16,
  seek_inode, put_words, update_inode, write_inode, get_inode,
}
use airix.Mkfs.Bitmap.{is_marked}
use airix.Mkfs.Words.{
  get-update, update_other, le16-put16, le16-put32_below, le32-put32, le32-put32_below, put16_other,
  put32_other,
}
use airix.Mkfs.Alloc.{AreBytes, metadata-Fits, mark_bit-Marks, mark_bit_other, bitmap_kept}

le16-put_words_below :
    (n o a : ℕ) (words img : ℕ → ℕ) → a + 2 ≤ o → le16 (put_words n o words img) a ≡ le16 img a
unfolding put_words
le16-put_words_below zero o a words img h = refl
le16-put_words_below (suc n) o a words img h =
    le16-put32_below (o + 4 * n) (words n) a (put_words n o words img) (omega arith)
    ∙ le16-put_words_below n o a words img h

le32-put_words_below :
    (n o a : ℕ) (words img : ℕ → ℕ) → a + 4 ≤ o → le32 (put_words n o words img) a ≡ le32 img a
unfolding put_words
le32-put_words_below zero o a words img h = refl
le32-put_words_below (suc n) o a words img h =
    le32-put32_below (o + 4 * n) (words n) a (put_words n o words img) (omega arith)
    ∙ le32-put_words_below n o a words img h

le32-put_words :
    (n o k : ℕ) (words img : ℕ → ℕ)
    → k < n
    → le32 (put_words n o words img) (o + 4 * k) ≡ words k % 2 ^ 32
unfolding put_words
le32-put_words zero o k words img h = absurd (omega arith)
le32-put_words (suc n) o k words img h = elim (ℕ_discrete k n) [
  | yes last ↦
      ap (λ i. le32 (put_words (suc n) o words img) (o + 4 * i)) last
      ∙ le32-put32 (o + 4 * n) (words n) (put_words n o words img)
      ∙ ap (λ i. words i % 2 ^ 32) (sym last)
  | no other ↦
      le32-put32_below (o + 4 * n) (words n) (o + 4 * k) (put_words n o words img) (omega arith)
      ∙ le32-put_words n o k words img (omega arith)
]

-- The fields of an inode fit.
abbrev pub InodeFits : AxInode → Type 0
InodeFits inode =
    (inode.i_mode < 2 ^ 16)
    × (inode.i_size < 2 ^ 64)
    × ((k : ℕ) → k < 24 → inode.i_block k < 2 ^ 32)

-- Two inodes with the same fields; the table has 24 words.
abbrev pub SameInode : AxInode → AxInode → Type 0
SameInode a b =
    (a.i_mode ≡ b.i_mode) × (a.i_size ≡ b.i_size) × ((k : ℕ) → k < 24 → a.i_block k ≡ b.i_block k)

-- The inode stands where it was written.
update_inode-SameInode :
    (ino : ℕ) (inode : AxInode) (s : Mkfs)
    → InodeFits inode
    → SameInode (to_inode (update_inode ino inode s).img (seek_inode ino s)) inode
unfolding to_inode update_inode
update_inode-SameInode ino inode s (mode, size, blocks) =
    let at = seek_inode ino s in
    let zeroed : ℕ → ℕ = λ a. if leb at a && ltb a (at + 128) then 0 else s.img a in
    let i1 = put16 at inode.i_mode zeroed in
    let i2 = put32 (at + 24) inode.i_size i1 in
    let i3 = put32 (at + 28) (inode.i_size / 2 ^ 32) i2 in
    let low : le32 (put_words 24 (at + 32) inode.i_block i3) (at + 24) ≡ inode.i_size % 2 ^ 32 =
      le32-put_words_below 24 (at + 32) (at + 24) inode.i_block i3 (omega arith)
      ∙ le32-put32_below (at + 28) (inode.i_size / 2 ^ 32) (at + 24) i2 (omega arith)
      ∙ le32-put32 (at + 24) inode.i_size i1 in
    let high : le32 (put_words 24 (at + 32) inode.i_block i3) (at + 28)
        ≡ inode.i_size / 2 ^ 32 % 2 ^ 32 =
      le32-put_words_below 24 (at + 32) (at + 28) inode.i_block i3 (omega arith)
      ∙ le32-put32 (at + 28) (inode.i_size / 2 ^ 32) i2 in
    let at28 : at + 24 + 4 ≡ at + 28 = omega arith in
    (
      le16-put_words_below 24 (at + 32) at inode.i_block i3 (omega arith)
          ∙ le16-put32_below (at + 28) (inode.i_size / 2 ^ 32) at i2 (omega arith)
          ∙ le16-put32_below (at + 24) inode.i_size at i1 (omega arith)
          ∙ le16-put16 at inode.i_mode zeroed
          ∙ omega arith,
      rw (low, at28, high) (omega arith),
      λ k h. le32-put_words 24 (at + 32) k inode.i_block i3 h ∙ omega (arith, blocks k h),
    )

-- Two images agree on the 128 bytes from o on.
abbrev Agree : ℕ → (ℕ → ℕ) → (ℕ → ℕ) → Type 0
Agree o a b = (i : ℕ) → o ≤ i → i < o + 128 → a i ≡ b i

le32-Agree : (o k : ℕ) (a b : ℕ → ℕ) → Agree o a b → k + 4 ≤ 128 → le32 a (o + k) ≡ le32 b (o + k)
le32-Agree o k a b same h =
    rw
      (
        same (o + k) (omega arith) (omega arith),
        same (o + k + 1) (omega arith) (omega arith),
        same (o + k + 2) (omega arith) (omega arith),
        same (o + k + 2 + 1) (omega arith) (omega arith),
      )
      refl

Agree-SameInode : (o : ℕ) (a b : ℕ → ℕ) → Agree o a b → SameInode (to_inode a o) (to_inode b o)
unfolding to_inode
Agree-SameInode o a b same =
    let low = le32-Agree o 24 a b same (omega arith) in
    let high = le32-Agree o 28 a b same (omega arith) in
    let at28 : o + 24 + 4 ≡ o + 28 = omega arith in
    (
      rw (same o (omega arith) (omega arith), same (o + 1) (omega arith) (omega arith)) refl,
      rw (low, at28, high) refl,
      λ k h.
          let far : o + 32 + 4 * k ≡ o + (32 + 4 * k) = omega arith in
          rw far (le32-Agree o (32 + 4 * k) a b same (omega arith)),
    )

put_words_below : (n o a : ℕ) (words img : ℕ → ℕ) → a < o → put_words n o words img a ≡ img a
unfolding put_words
put_words_below zero o a words img h = refl
put_words_below (suc n) o a words img h =
    put32_other (o + 4 * n) (words n) a (put_words n o words img) (inl (omega arith))
    ∙ put_words_below n o a words img h

update_inode_below :
    (ino a : ℕ) (inode : AxInode) (s : Mkfs)
    → a < seek_inode ino s
    → (update_inode ino inode s).img a ≡ s.img a
unfolding update_inode
update_inode_below ino a inode s below =
    let at = seek_inode ino s in
    let zeroed : ℕ → ℕ = λ k. if leb at k && ltb k (at + 128) then 0 else s.img k in
    let i1 = put16 at inode.i_mode zeroed in
    let i2 = put32 (at + 24) inode.i_size i1 in
    let i3 = put32 (at + 28) (inode.i_size / 2 ^ 32) i2 in
    put_words_below 24 (at + 32) a inode.i_block i3 (omega arith)
    ∙ put32_other (at + 28) (inode.i_size / 2 ^ 32) a i2 (inl (omega arith))
    ∙ put32_other (at + 24) inode.i_size a i1 (inl (omega arith))
    ∙ put16_other at inode.i_mode a zeroed (inl below)
    ∙ rw (nle→leb at a below) refl

-- What `write_inode` leaves: the inode is read back, its bit is the only one of the inode bitmap that
-- is changed, and the descriptor counts one free inode less.
abbrev pub Wrote : ℕ → AxInode → Mkfs → Mkfs → Type 0
Wrote ino inode s s' =
    let bg = (ino + 2 ^ 32 - 1) % 2 ^ 32 / s.super_block.s_inodes_per_group in
    let bg_ino = (ino + 2 ^ 32 - 1) % 2 ^ 32 % s.super_block.s_inodes_per_group in
    let desc = get_block_group_metadata bg s in
    SameInode (get_inode ino s') inode
    × (is_marked bg_ino (bitmap_of desc.bg_inode_bitmap s') ≡ true)
    × ((m : ℕ)
        → m < 8192
        → bg_ino ≢ m
        → is_marked m (bitmap_of desc.bg_inode_bitmap s')
          ≡ is_marked m (bitmap_of desc.bg_inode_bitmap s))
    × (get_block_group_metadata bg s'
        ≡ record desc { bg_free_inodes_count = minus_one16 desc.bg_free_inodes_count })

-- The parts of a group stand one behind the other: its descriptor, the bitmap of its inodes, which is
-- one block, and its inodes; n is the place of an inode in the group.
abbrev pub InOrder : ℕ → ℕ → Mkfs → Type 0
InOrder bg n s =
    let desc = get_block_group_metadata bg s in
    (descriptor_at bg + 16 ≤ block_at desc.bg_inode_bitmap)
    × (block_at desc.bg_inode_bitmap + 1024 ≤ block_at desc.bg_inode_table)
    × (n < 8192)

SameInode-trans : (a b c : AxInode) → SameInode a b → SameInode b c → SameInode a c
SameInode-trans a b c (m, z, k) (m', z', k') = (m ∙ m', z ∙ z', λ i h. k i h ∙ k' i h)

-- The inode of the descriptor that is written back stands where it stood.
seek_inode_kept :
    (ino : ℕ) (inode : AxInode) (s : Mkfs)
    → (get_block_group_metadata
        ((ino + 2 ^ 32 - 1) % 2 ^ 32 / s.super_block.s_inodes_per_group)
        (write_inode ino inode s)).bg_inode_table
      ≡ (get_block_group_metadata
          ((ino + 2 ^ 32 - 1) % 2 ^ 32 / s.super_block.s_inodes_per_group)
          s).bg_inode_table
    → seek_inode ino (write_inode ino inode s) ≡ seek_inode ino s
unfolding seek_inode write_inode update_block_group_metadata update_inode_bitmap mark_bit
    update_inode
seek_inode_kept ino inode s e =
    ap (λ t. (ino + 2 ^ 32 - 1) % 2 ^ 32 % s.super_block.s_inodes_per_group * 128 + block_at t) e

seek_inode_above :
    (ino : ℕ) (s : Mkfs)
    → block_at
        (get_block_group_metadata
          ((ino + 2 ^ 32 - 1) % 2 ^ 32 / s.super_block.s_inodes_per_group)
          s).bg_inode_table
      ≤ seek_inode ino s
unfolding seek_inode
seek_inode_above ino s = omega arith

-- In an image of bytes whose group of the inode has its descriptor, its inode bitmap of one block and
-- its inodes in this order, and fewer than 8193 inodes: `write_inode` with fields that fit is read back
-- by `get_inode`, the mode, the size and the 24 blocks; the inode's bit is set, every other of the 8192
-- bits of the inode bitmap is as before, and so is the descriptor except that it counts one free inode
-- less, with the wrap of 16 bits.
pub write_inode-Wrote :
    (ino : ℕ) (inode : AxInode) (s : Mkfs)
    → AreBytes s
    → InodeFits inode
    → InOrder
        ((ino + 2 ^ 32 - 1) % 2 ^ 32 / s.super_block.s_inodes_per_group)
        ((ino + 2 ^ 32 - 1) % 2 ^ 32 % s.super_block.s_inodes_per_group)
        s
    → Wrote ino inode s (write_inode ino inode s)
unfolding get_inode write_inode update_inode_bitmap
write_inode-Wrote ino inode s bytes fits (first, second, small) =
    let bg = (ino + 2 ^ 32 - 1) % 2 ^ 32 / s.super_block.s_inodes_per_group in
    let n = (ino + 2 ^ 32 - 1) % 2 ^ 32 % s.super_block.s_inodes_per_group in
    let desc = get_block_group_metadata bg s in
    let old = metadata-Fits bg s bytes in
    let desc' : AxBlockGroupDescriptor = record desc {
      bg_free_inodes_count = minus_one16 desc.bg_free_inodes_count;
    } in
    let written = update_inode ino inode s in
    let marked = mark_bit desc.bg_inode_bitmap n written in
    let marks = mark_bit-Marks desc.bg_inode_bitmap n written in
    let above = seek_inode_above ino s in
    let meta : get_block_group_metadata bg (write_inode ino inode s) ≡ desc' =
      get-update bg desc' marked (old.0, old.1, old.2, old.3, omega arith) in
    let stands : seek_inode ino (write_inode ino inode s) ≡ seek_inode ino s =
      seek_inode_kept ino inode s (ap (λ d. d.bg_inode_table) meta) in
    (
      rw stands (
          SameInode-trans _ _ inode
            (Agree-SameInode (seek_inode ino s) (write_inode ino inode s).img written.img
              (λ i lo hi.
                update_other bg i desc' marked (inr (omega arith))
                ∙ mark_bit_other desc.bg_inode_bitmap n i written (λ e. absurd (omega arith))))
            (update_inode-SameInode ino inode s fits)),
      bitmap_kept bg n desc' desc.bg_inode_bitmap marked first ∙ marks.0,
      λ m h ne.
          bitmap_kept bg m desc' desc.bg_inode_bitmap marked first
          ∙ marks.1 m ne
          ∙ ap (λ v. test_bit v (shift_one (7 - m % 8)))
              (update_inode_below ino (block_at desc.bg_inode_bitmap + m / 8) inode s
                (omega arith)),
      meta,
    )
