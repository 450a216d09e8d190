-- ===== src/Mkfs/Alloc.antt =====
-- tools/mkfs.c: the blocks that are given and marked.
use airix.Prelude.{
  ℕ, ◌+◌, ◌-◌, ◌*◌, ◌/◌, ◌%◌, ◌^◌, ◌≤◌, ◌<◌, ◌≡◌, refl, sym, ap, ◌∙◌, ◌≢◌, ◌⊎◌, inl, inr, true,
  false, some, arith, ℕ_discrete, ltb, ltb→lt, Bool-cases, Option-cases, test_bit, set_bit, update,
  update_self, update_ne, le16, le32,
}
use airix.Pid.{shift_one}
use airix.Pid.Bytes.{set_at, set_other}
use airix.Mkfs.{
  Mkfs, AxBlockGroupDescriptor, ax_fs_blocks_per_group, descriptor_at, get_block_group_metadata,
  update_block_group_metadata, block_at, bitmap_of, find_byte, mark_bit, minus_one16,
  alloc_block_from_block_group, update_block_bitmap, ax_fs_super_block_no,
}
use airix.Mkfs.Bitmap.{is_marked, FirstMark, find_byte-FirstMark}
use airix.Mkfs.Words.{Outside, Fits, get-update, update_other}

abbrev pub AreBytes : Mkfs → Type 0
AreBytes s = (a : ℕ) → s.img a < 256

le16_bound : (img : ℕ → ℕ) (o : ℕ) → ((a : ℕ) → img a < 256) → le16 img o < 65536
le16_bound img o bytes = omega (arith, bytes o, bytes (o + 1))

le32_bound : (img : ℕ → ℕ) (o : ℕ) → ((a : ℕ) → img a < 256) → le32 img o < 2 ^ 32
le32_bound img o bytes = omega (arith, le16_bound img o bytes, le16_bound img (o + 2) bytes)

pub metadata-Fits : (bg : ℕ) (s : Mkfs) → AreBytes s → Fits (get_block_group_metadata bg s)
unfolding get_block_group_metadata
metadata-Fits bg s bytes =
    let o = descriptor_at bg in
    (
      le32_bound s.img o bytes,
      le32_bound s.img (o + 4) bytes,
      le32_bound s.img (o + 8) bytes,
      le16_bound s.img (o + 12) bytes,
      le16_bound s.img (o + 14) bytes,
    )

-- The bit n of a bitmap is set, and no other byte of the image and no other bit is changed.
abbrev pub Marks : ℕ → ℕ → Mkfs → Mkfs → Type 0
Marks bitmap n s s' =
    (is_marked n (bitmap_of bitmap s') ≡ true)
    × ((m : ℕ) → n ≢ m → is_marked m (bitmap_of bitmap s') ≡ is_marked m (bitmap_of bitmap s))

pub mark_bit-Marks : (bitmap n : ℕ) (s : Mkfs) → Marks bitmap n s (mark_bit bitmap n s)
unfolding mark_bit
mark_bit-Marks bitmap n s =
    let here = block_at bitmap + n / 8 in
    let w = set_bit (s.img here) (shift_one (7 - n % 8)) in
    (
      ap (λ v. test_bit v (shift_one (7 - n % 8))) (update_self s.img here w)
          ∙ set_at (s.img here) (7 - n % 8),
      λ m ne. elim (ℕ_discrete (n / 8) (m / 8)) [
        | no far ↦
            ap (λ v. test_bit v (shift_one (7 - m % 8)))
              (update_ne s.img here (block_at bitmap + m / 8) w (λ e. far (omega arith)))
        | yes near ↦
            let apart : 7 - n % 8 ≢ 7 - m % 8 = λ e. ne (omega arith) in
            ap (λ k. test_bit (update s.img here w (block_at bitmap + k)) (shift_one (7 - m % 8)))
              (sym near)
            ∙ ap (λ v. test_bit v (shift_one (7 - m % 8))) (update_self s.img here w)
            ∙ set_other (s.img here) (7 - n % 8) (7 - m % 8) apart
            ∙ ap (λ k. test_bit (s.img (block_at bitmap + k)) (shift_one (7 - m % 8))) near
      ],
    )

pub mark_bit_other :
    (bitmap n a : ℕ) (s : Mkfs)
    → block_at bitmap + n / 8 ≢ a
    → (mark_bit bitmap n s).img a ≡ s.img a
unfolding mark_bit
mark_bit_other bitmap n a s ne = update_ne s.img (block_at bitmap + n / 8) a _ ne

-- The block n of a group is taken: its bit is set, one block less is free, the rest of the descriptor
-- and of the bitmap stays, and so does every byte that is neither in the descriptor nor the byte of
-- the bit.
abbrev pub Takes : ℕ → ℕ → Mkfs → Mkfs → Type 0
Takes bg n s s' =
    let desc = get_block_group_metadata bg s in
    (get_block_group_metadata bg s'
      ≡ record desc { bg_free_blocks_count = desc.bg_free_blocks_count - 1 })
    × Marks desc.bg_block_bitmap n s s'
    × ((a : ℕ)
        → Outside (descriptor_at bg) 16 a
        → block_at desc.bg_block_bitmap + n / 8 ≢ a
        → s'.img a ≡ s.img a)

-- The number of a block of a group.
abbrev pub block_of : ℕ → ℕ → ℕ
block_of bg n = (n + bg * ax_fs_blocks_per_group + ax_fs_super_block_no) % 2 ^ 32

-- The descriptor written back leaves the bitmap.
pub bitmap_kept :
    (bg m : ℕ) (desc : AxBlockGroupDescriptor) (bitmap : ℕ) (s : Mkfs)
    → descriptor_at bg + 16 ≤ block_at bitmap
    → is_marked m (bitmap_of bitmap (update_block_group_metadata bg desc s))
      ≡ is_marked m (bitmap_of bitmap s)
bitmap_kept bg m desc bitmap s apart =
    ap (λ v. test_bit v (shift_one (7 - m % 8)))
      (update_other bg (block_at bitmap + m / 8) desc s (inr (omega arith)))

taken :
    (bg n : ℕ) (s : Mkfs)
    → AreBytes s
    → descriptor_at bg + 16 ≤ block_at (get_block_group_metadata bg s).bg_block_bitmap
    → 0 < (get_block_group_metadata bg s).bg_free_blocks_count
    → let desc = get_block_group_metadata bg s in
      Takes bg n s (
        update_block_group_metadata bg
          (record desc { bg_free_blocks_count = minus_one16 desc.bg_free_blocks_count })
          (mark_bit desc.bg_block_bitmap n s))
taken bg n s bytes apart some_free =
    let desc = get_block_group_metadata bg s in
    let fits = metadata-Fits bg s bytes in
    let less : minus_one16 desc.bg_free_blocks_count ≡ desc.bg_free_blocks_count - 1 =
      omega (arith, fits.3) in
    let desc' : AxBlockGroupDescriptor = record desc {
      bg_free_blocks_count = minus_one16 desc.bg_free_blocks_count;
    } in
    let marked = mark_bit desc.bg_block_bitmap n s in
    let marks = mark_bit-Marks desc.bg_block_bitmap n s in
    (
      get-update bg desc' marked (fits.0, fits.1, fits.2, omega (arith, fits.3, less), fits.4)
          ∙ ap (λ k. record desc { bg_free_blocks_count = k }) less,
      (
        bitmap_kept bg n desc' desc.bg_block_bitmap marked apart ∙ marks.0,
        λ m ne. bitmap_kept bg m desc' desc.bg_block_bitmap marked apart ∙ marks.1 m ne,
      ),
      λ a away ne.
          update_other bg a desc' marked away ∙ mark_bit_other desc.bg_block_bitmap n a s ne,
    )

-- `update_block_bitmap` finds the group and the bit of a block.
update-Takes :
    (bg n : ℕ) (s : Mkfs)
    → bg < 524287
    → n < 8192
    → AreBytes s
    → descriptor_at bg + 16 ≤ block_at (get_block_group_metadata bg s).bg_block_bitmap
    → 0 < (get_block_group_metadata bg s).bg_free_blocks_count
    → Takes bg n s (update_block_bitmap (block_of bg n) s)
unfolding update_block_bitmap
update-Takes bg n s few small bytes apart some_free =
    let b = block_of bg n in
    let group : (b + 2 ^ 32 - 1) % 2 ^ 32 / 8192 ≡ bg = omega arith in
    let bit : (b + 2 ^ 32 - 1) % 2 ^ 32 % 8192 ≡ n = omega arith in
    rw (group, bit) (taken bg n s bytes apart some_free)

-- What `alloc_block_from_block_group` gives of a group, and what `update_block_bitmap` does with it:
-- nothing, when the descriptor counts no free block or every bit of the bitmap is set; or the first
-- block that is clear, which is taken afterwards.
abbrev pub GivesBlock : ℕ → Mkfs → ℕ → Type 0
GivesBlock bg s block =
    let desc = get_block_group_metadata bg s in
    let bitmap = bitmap_of desc.bg_block_bitmap s in
    ((block ≡ 0)
      × ((desc.bg_free_blocks_count ≡ 0) ⊎ ((m : ℕ) → m < 8192 → is_marked m bitmap ≡ true)))
    ⊎ ((n : ℕ) × (block ≡ n + bg * 8192 + 1)
        × (n < 8192)
        × (is_marked n bitmap ≡ false)
        × ((m : ℕ) → m < n → is_marked m bitmap ≡ true)
        × Takes bg n s (update_block_bitmap block s))

-- For a group below 524287 of an image of bytes, whose block bitmap stands behind its descriptor:
-- `alloc_block_from_block_group` gives 0, and then the descriptor counts no free block or all 8192 bits
-- of the bitmap are set; or it gives the block of the first bit that is clear, and
-- `update_block_bitmap` on that block sets exactly this bit, counts one free block less in the
-- descriptor, and changes no byte but the descriptor's and the bit's.
pub alloc_block_from_block_group-GivesBlock :
    (bg : ℕ) (s : Mkfs)
    → bg < 524287
    → AreBytes s
    → descriptor_at bg + 16 ≤ block_at (get_block_group_metadata bg s).bg_block_bitmap
    → GivesBlock bg s (alloc_block_from_block_group bg s)
unfolding alloc_block_from_block_group
alloc_block_from_block_group-GivesBlock bg s few bytes apart =
    let desc = get_block_group_metadata bg s in
    let bitmap = bitmap_of desc.bg_block_bitmap s in
    let first = find_byte-FirstMark 1024 0 bitmap in
    elim (Bool-cases (ltb 0 desc.bg_free_blocks_count)) [
      | inr full ↦ rw full (inl (refl, inl (no_more desc.bg_free_blocks_count full)))
      | inl more ↦ elim (Option-cases (find_byte 1024 0 bitmap)) [
        | inl all ↦
            rw (more, all)
              (inl (refl, inr (λ m h. (rw all at first) m (omega arith) (omega arith))))
        | inr (n, found) ↦
            rw (more, found) (gives bg n s few bytes apart (ltb→lt 0 _ more) (rw found at first))
      ]
    ]
  where
    no_more : (k : ℕ) → ltb 0 k ≡ false → k ≡ 0
    no_more k h = ground arith

    gives :
        (bg n : ℕ) (s : Mkfs)
        → bg < 524287
        → AreBytes s
        → descriptor_at bg + 16 ≤ block_at (get_block_group_metadata bg s).bg_block_bitmap
        → 0 < (get_block_group_metadata bg s).bg_free_blocks_count
        → FirstMark 1024 0 (bitmap_of (get_block_group_metadata bg s).bg_block_bitmap s) (some n)
        → GivesBlock bg s (block_of bg n)
    gives bg n s few bytes apart some_free (lo, hi, clear, before) = inr (
      n,
      omega arith,
      omega arith,
      clear,
      λ m h. before m (omega arith) h,
      update-Takes bg n s few (omega arith) bytes apart some_free,
    )
