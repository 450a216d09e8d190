-- ===== src/Mkfs/Words.antt =====
-- tools/mkfs.c: integers in the image, and the descriptor of a block group.
use airix.Prelude.{
  ℕ, ◌+◌, ◌/◌, ◌%◌, ◌^◌, ◌≤◌, ◌<◌, ◌≡◌, refl, ◌∙◌, ◌⊎◌, inl, inr, arith, update, update_self,
  update_ne, le16, le32,
}
use airix.Mkfs.{
  put16, put32, AxBlockGroupDescriptor, get_block_group_metadata, update_block_group_metadata, Mkfs,
  descriptor_at,
}

-- A byte outside the n bytes from o on.
abbrev pub Outside : ℕ → ℕ → ℕ → Type 0
Outside o n a = (a < o) ⊎ (o + n ≤ a)

pub put16_other : (o v a : ℕ) (img : ℕ → ℕ) → Outside o 2 a → put16 o v img a ≡ img a
put16_other o v a img away =
    update_ne (update img o (v % 256)) (o + 1) a _ (λ e. one a away e)
    ∙ update_ne img o a _ (λ e. none_of a away e)
  where
    one : (a : ℕ) → Outside o 2 a → o + 1 ≡ a → ⊥
    one a (inl below) e = omega arith
    one a (inr above) e = omega arith

    none_of : (a : ℕ) → Outside o 2 a → o ≡ a → ⊥
    none_of a (inl below) e = omega arith
    none_of a (inr above) e = omega arith

pub put32_other : (o v a : ℕ) (img : ℕ → ℕ) → Outside o 4 a → put32 o v img a ≡ img a
put32_other o v a img (inl below) =
    put16_other (o + 2) (v / 65536) a (put16 o v img) (inl (omega arith))
    ∙ put16_other o v a img (inl below)
put32_other o v a img (inr above) =
    put16_other (o + 2) (v / 65536) a (put16 o v img) (inr (omega arith))
    ∙ put16_other o v a img (inr (omega arith))

pub le16-put16 : (o v : ℕ) (img : ℕ → ℕ) → le16 (put16 o v img) o ≡ v % 2 ^ 16
le16-put16 o v img =
    let low : put16 o v img o ≡ v % 256 =
      update_ne (update img o (v % 256)) (o + 1) o _ (λ e. absurd (omega arith))
      ∙ update_self img o (v % 256) in
    let high : put16 o v img (o + 1) ≡ v / 256 % 256 =
      update_self (update img o (v % 256)) (o + 1) (v / 256 % 256) in
    rw (low, high) (omega arith)

-- What is read below a place that is written.
le16-put16_below : (o v a : ℕ) (img : ℕ → ℕ) → a + 2 ≤ o → le16 (put16 o v img) a ≡ le16 img a
le16-put16_below o v a img away =
    rw (put16_other o v a img (inl (omega arith)), put16_other o v (a + 1) img (inl (omega arith)))
      refl

pub le16-put32_below : (o v a : ℕ) (img : ℕ → ℕ) → a + 2 ≤ o → le16 (put32 o v img) a ≡ le16 img a
le16-put32_below o v a img away =
    le16-put16_below (o + 2) (v / 65536) a (put16 o v img) (omega arith)
    ∙ le16-put16_below o v a img away

le32-put16_below : (o v a : ℕ) (img : ℕ → ℕ) → a + 4 ≤ o → le32 (put16 o v img) a ≡ le32 img a
le32-put16_below o v a img away =
    rw (le16-put16_below o v a img (omega arith), le16-put16_below o v (a + 2) img (omega arith))
      refl

pub le32-put32_below : (o v a : ℕ) (img : ℕ → ℕ) → a + 4 ≤ o → le32 (put32 o v img) a ≡ le32 img a
le32-put32_below o v a img away =
    rw (le16-put32_below o v a img (omega arith), le16-put32_below o v (a + 2) img (omega arith))
      refl

pub le32-put32 : (o v : ℕ) (img : ℕ → ℕ) → le32 (put32 o v img) o ≡ v % 2 ^ 32
le32-put32 o v img =
    let low : le16 (put32 o v img) o ≡ v % 65536 =
      le16-put16_below (o + 2) (v / 65536) o (put16 o v img) (omega arith) ∙ le16-put16 o v img in
    let high : le16 (put32 o v img) (o + 2) ≡ v / 65536 % 65536 =
      le16-put16 (o + 2) (v / 65536) (put16 o v img) in
    rw (low, high) (omega arith)

-- A descriptor whose fields fit.
abbrev pub Fits : AxBlockGroupDescriptor → Type 0
Fits desc =
    (desc.bg_block_bitmap < 2 ^ 32)
    × (desc.bg_inode_bitmap < 2 ^ 32)
    × (desc.bg_inode_table < 2 ^ 32)
    × (desc.bg_free_blocks_count < 2 ^ 16)
    × (desc.bg_free_inodes_count < 2 ^ 16)

-- A word below the two counts of a descriptor.
below_counts :
    (o fb fi a : ℕ) (img : ℕ → ℕ)
    → a + 4 ≤ o + 12
    → le32 (put16 (o + 14) fi (put16 (o + 12) fb img)) a ≡ le32 img a
below_counts o fb fi a img h =
    le32-put16_below (o + 14) fi a (put16 (o + 12) fb img) (omega arith)
    ∙ le32-put16_below (o + 12) fb a img h

-- A descriptor is read as it was written.
pub get-update :
    (bg_no : ℕ) (desc : AxBlockGroupDescriptor) (s : Mkfs)
    → Fits desc
    → get_block_group_metadata bg_no (update_block_group_metadata bg_no desc s) ≡ desc
unfolding get_block_group_metadata update_block_group_metadata
get-update bg_no desc s (b, i, t, fb, fi) =
    let o = descriptor_at bg_no in
    let i1 = put32 o desc.bg_block_bitmap s.img in
    let i2 = put32 (o + 4) desc.bg_inode_bitmap i1 in
    let i3 = put32 (o + 8) desc.bg_inode_table i2 in
    let i4 = put16 (o + 12) desc.bg_free_blocks_count i3 in
    let i5 = put16 (o + 14) desc.bg_free_inodes_count i4 in
    let r1 : le32 i5 o ≡ desc.bg_block_bitmap =
      below_counts o desc.bg_free_blocks_count desc.bg_free_inodes_count o i3 (omega arith)
      ∙ le32-put32_below (o + 8) desc.bg_inode_table o i2 (omega arith)
      ∙ le32-put32_below (o + 4) desc.bg_inode_bitmap o i1 (omega arith)
      ∙ le32-put32 o desc.bg_block_bitmap s.img
      ∙ omega arith in
    let r2 : le32 i5 (o + 4) ≡ desc.bg_inode_bitmap =
      below_counts o desc.bg_free_blocks_count desc.bg_free_inodes_count (o + 4) i3 (omega arith)
      ∙ le32-put32_below (o + 8) desc.bg_inode_table (o + 4) i2 (omega arith)
      ∙ le32-put32 (o + 4) desc.bg_inode_bitmap i1
      ∙ omega arith in
    let r3 : le32 i5 (o + 8) ≡ desc.bg_inode_table =
      below_counts o desc.bg_free_blocks_count desc.bg_free_inodes_count (o + 8) i3 (omega arith)
      ∙ le32-put32 (o + 8) desc.bg_inode_table i2
      ∙ omega arith in
    let r4 : le16 i5 (o + 12) ≡ desc.bg_free_blocks_count =
      le16-put16_below (o + 14) desc.bg_free_inodes_count (o + 12) i4 (omega arith)
      ∙ le16-put16 (o + 12) desc.bg_free_blocks_count i3
      ∙ omega arith in
    let r5 : le16 i5 (o + 14) ≡ desc.bg_free_inodes_count =
      le16-put16 (o + 14) desc.bg_free_inodes_count i4 ∙ omega arith in
    rw (r1, r2, r3, r4, r5) refl

-- A byte outside a descriptor.
pub update_other :
    (bg_no a : ℕ) (desc : AxBlockGroupDescriptor) (s : Mkfs)
    → Outside (descriptor_at bg_no) 16 a
    → (update_block_group_metadata bg_no desc s).img a ≡ s.img a
unfolding update_block_group_metadata
update_other bg_no a desc s away =
    let o = descriptor_at bg_no in
    let i1 = put32 o desc.bg_block_bitmap s.img in
    let i2 = put32 (o + 4) desc.bg_inode_bitmap i1 in
    let i3 = put32 (o + 8) desc.bg_inode_table i2 in
    let i4 = put16 (o + 12) desc.bg_free_blocks_count i3 in
    put16_other (o + 14) desc.bg_free_inodes_count a i4 (part o a 14 2 away (omega arith))
    ∙ put16_other (o + 12) desc.bg_free_blocks_count a i3 (part o a 12 2 away (omega arith))
    ∙ put32_other (o + 8) desc.bg_inode_table a i2 (part o a 8 4 away (omega arith))
    ∙ put32_other (o + 4) desc.bg_inode_bitmap a i1 (part o a 4 4 away (omega arith))
    ∙ put32_other o desc.bg_block_bitmap a s.img (start o a away)
  where
    part : (o a k n : ℕ) → Outside o 16 a → k + n ≤ 16 → Outside (o + k) n a
    part o a k n (inl below) h = inl (omega arith)
    part o a k n (inr above) h = inr (omega arith)

    start : (o a : ℕ) → Outside o 16 a → Outside o 4 a
    start o a (inl below) = inl below
    start o a (inr above) = inr (omega arith)
