-- ===== src/Mkfs/First.antt =====
-- tools/mkfs.c: the group that is searched for a block.
use airix.Prelude.{
  ℕ, ◌+◌, ◌*◌, ◌/◌, ◌%◌, ◌^◌, ◌≤◌, ◌<◌, ◌≡◌, refl, sym, subst, ◌∙◌, ◌⊎◌, inl, inr, true, false,
  ◌&&◌, Option, none, some, arith, ltb, ◌==◌, if◌then◌else◌, ltb→lt, ==_iff, Bool-cases,
  Option-cases,
}
use airix.Axfs.{ax_fs_super_block_no}
use airix.Mkfs.{
  Mkfs, get_block_group_metadata, bitmap_of, find_byte, alloc_block_from_block_group, search_blocks,
  alloc_block,
}
use airix.Mkfs.Bitmap.{FirstMark, find_byte-FirstMark}

-- A block of the group 0 is none or one of 1 to 8192.
first_bound : (s : Mkfs) → alloc_block_from_block_group 0 s ≤ 8192
unfolding alloc_block_from_block_group
first_bound s =
    let desc = get_block_group_metadata 0 s in
    let bitmap = bitmap_of desc.bg_block_bitmap s in
    let first = find_byte-FirstMark 1024 0 bitmap in
    elim (Bool-cases (ltb 0 desc.bg_free_blocks_count)) [
      | inr full ↦ rw full (omega arith)
      | inl more ↦ elim (Option-cases (find_byte 1024 0 bitmap)) [
        | inl all ↦ rw (more, all) (omega arith)
        | inr (n, found) ↦ rw (more, found) (below n bitmap (rw found at first))
      ]
    ]
  where
    below :
        (n : ℕ) (bitmap : ℕ → ℕ)
        → FirstMark 1024 0 bitmap (some n)
        → (n + 0 * 8192 + 1) % 2 ^ 32 ≤ 8192
    below n bitmap first = omega (arith, first.1)

-- The end of the blocks that the super block counts.
abbrev pub blocks_end : Mkfs → ℕ
blocks_end s = (s.super_block.s_blocks_count + ax_fs_super_block_no) % 2 ^ 32

-- How a search ends that sees the block of the group 0 only.
abbrev pub FromFirst : Mkfs → Option ℕ → Type 0
FromFirst s none =
    let first = alloc_block_from_block_group 0 s in
    (s.super_block.s_blocks_count ≡ 0) ⊎ ((first ≡ 0) ⊎ (blocks_end s ≤ first))
FromFirst s (some block) =
    (block ≡ alloc_block_from_block_group 0 s)
    × (0 < block)
    × (block ≤ 8192)
    × (block < blocks_end s)

-- `alloc_block` looks at the group 0 only, however many blocks the super block counts: it gives the
-- block that the group 0 has, which is one of 1 to 8192 and below the end of the blocks; and it exits
-- when the super block counts no block, or when the group 0 has no block below the end.
pub alloc_block-FromFirst : (s : Mkfs) → FromFirst s (alloc_block s)
unfolding alloc_block search_blocks
alloc_block-FromFirst s =
    elim (Bool-cases
      (s.super_block.s_blocks_count / 8192 + s.super_block.s_blocks_count % 8192 == 0)) [
        | inl none_at_all ↦ rw none_at_all (inl (empty s.super_block.s_blocks_count none_at_all))
        | inr blocks ↦ rw blocks (one s (alloc_block_from_block_group 0 s) refl)
      ]
  where
    empty : (c : ℕ) → (c / 8192 + c % 8192 == 0) ≡ true → c ≡ 0
    empty c h = let e = (==_iff (c / 8192 + c % 8192) 0).0 h in omega arith

    nil_of : (k : ℕ) → ltb 0 k ≡ false → k ≡ 0
    nil_of k h = ground arith

    beyond : (a b : ℕ) → ltb a b ≡ false → b ≤ a
    beyond a b h = ground arith

    one :
        (s : Mkfs) (block : ℕ)
        → block ≡ alloc_block_from_block_group 0 s
        → FromFirst s (if ltb 0 block && ltb block (blocks_end s) then some block else none)
    one s block e = elim (Bool-cases (ltb 0 block)) [
      | inr nothing ↦ rw nothing (inr (inl (sym e ∙ nil_of block nothing)))
      | inl some_block ↦ elim (Bool-cases (ltb block (blocks_end s))) [
        | inl inside ↦
            rw (some_block, inside)
              (e, ltb→lt 0 block some_block, omega (arith, e, first_bound s), ltb→lt block _ inside)
        | inr past ↦
            rw (some_block, past)
              (inr (inr (subst (λ k. blocks_end s ≤ k) e (beyond block (blocks_end s) past))))
      ]
    ]
