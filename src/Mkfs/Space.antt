-- ===== src/Mkfs/Space.antt =====
-- tools/mkfs.c: the room that a file needs.
use airix.Prelude.{
  ℕ, zero, suc, ◌+◌, ◌-◌, ◌/◌, ◌%◌, ◌^◌, ◌<◌, ◌≡◌, refl, sym, ap, subst, ◌∙◌, inl, inr, Bool, false,
  ◌||◌, arith, dec_le, ℕ_discrete, ltb, leb, ◌==◌, if◌then◌else◌, lt→ltb, le→leb, nle→leb, ==_iff,
  Bool-cases,
}
use airix.Axfs.{ax_fs_block_size, ax_fs_direct_block_count}
use airix.Mkfs.{Mkfs}

-- The blocks that are needed for the table, and the data that is left.
abbrev less_indirect : ℕ → ℕ → ℕ
less_indirect indirect data_blocks = if leb indirect data_blocks then data_blocks - indirect else 0

-- The loops over the tables of a table: n of them are left.
two_level : ℕ → ℕ → ℕ × ℕ → ℕ × ℕ
two_level zero indirect (meta_blocks, data_blocks) = (meta_blocks, data_blocks)
two_level (suc n) indirect (meta_blocks, data_blocks) =
    let rest =
      two_level n indirect ((meta_blocks + 1) % 2 ^ 32, less_indirect indirect data_blocks) in
    if ltb 0 data_blocks then rest else (meta_blocks, data_blocks)

three_level : ℕ → ℕ → ℕ × ℕ → ℕ × ℕ
three_level zero indirect (meta_blocks, data_blocks) = (meta_blocks, data_blocks)
three_level (suc n) indirect (meta_blocks, data_blocks) =
    let rest =
      three_level n indirect
        (two_level indirect indirect ((meta_blocks + 1) % 2 ^ 32, data_blocks)) in
    if ltb 0 data_blocks then rest else (meta_blocks, data_blocks)

-- The blocks that the tables of each level add.
first_level : ℕ → ℕ → ℕ × ℕ
first_level indirect data_blocks =
    if ltb 0 data_blocks then (1, less_indirect indirect data_blocks) else (0, data_blocks)

second_level : ℕ → ℕ × ℕ → ℕ × ℕ
second_level indirect (meta_blocks, data_blocks) =
    if ltb 0 data_blocks
    then two_level indirect indirect ((meta_blocks + 1) % 2 ^ 32, data_blocks)
    else (meta_blocks, data_blocks)

third_level : ℕ → ℕ × ℕ → ℕ × ℕ
third_level indirect (meta_blocks, data_blocks) =
    if ltb 0 data_blocks
    then three_level indirect indirect ((meta_blocks + 1) % 2 ^ 32, data_blocks)
    else (meta_blocks, data_blocks)

pub meta_blocks_of : ℕ → ℕ → ℕ
meta_blocks_of indirect data_blocks =
    (third_level indirect (second_level indirect (first_level indirect data_blocks))).0

-- The remainder by the size of a word of 4 bytes is what the source writes.
pub has_enough_space : ℕ → Mkfs → Bool
has_enough_space size s =
    let whole = size / ax_fs_block_size % 2 ^ 32 in
    let indirect = ax_fs_block_size % 4 in
    let data_blocks = if size % ax_fs_block_size == 0 then whole else (whole + 1) % 2 ^ 32 in
    let left =
      if leb ax_fs_direct_block_count data_blocks
      then data_blocks - ax_fs_direct_block_count
      else data_blocks in
    leb ((data_blocks + meta_blocks_of indirect left) % 2 ^ 32) s.super_block.s_free_blocks_count

-- With tables of no entries a file that needs a table at all needs one of each level.
meta_blocks_of-zero : (left : ℕ) → 0 < left → meta_blocks_of 0 left ≡ 3
unfolding meta_blocks_of first_level second_level third_level two_level three_level
meta_blocks_of-zero left more =
    let one : first_level 0 left ≡ (1, left) =
      rw (lt→ltb 0 left more, le→leb 0 left (omega arith)) (ap (λ k. (1, k)) (omega arith)) in
    let two : second_level 0 (1, left) ≡ (2, left) = rw (lt→ltb 0 left more) refl in
    let three : third_level 0 (2, left) ≡ (3, left) = rw (lt→ltb 0 left more) refl in
    ap (λ r. (third_level 0 (second_level 0 r)).0) one
    ∙ ap (λ r. (third_level 0 r).0) two
    ∙ ap (λ r. r.0) three

-- The blocks that are asked for: none besides the data where there is no data or just as much as the
-- direct blocks hold, and 3 more else.
abbrev pub asked : ℕ → ℕ
asked blocks = if (blocks == 0) || (blocks == 21) then blocks else blocks + 3

at_zero : meta_blocks_of 0 0 ≡ 0
unfolding meta_blocks_of first_level second_level third_level
at_zero = refl

asked_lem :
    (b : ℕ)
    → b < 2 ^ 32 - 3
    → (b + meta_blocks_of 0 (if leb 21 b then b - 21 else b)) % 2 ^ 32 ≡ asked b
asked_lem b small = elim (dec_le 21 b) [
  | yes more ↦ elim (ℕ_discrete b 21) [
    | yes e ↦
        subst (λ k. (k + meta_blocks_of 0 (if leb 21 k then k - 21 else k)) % 2 ^ 32 ≡ asked k)
          (sym e) (rw at_zero refl)
    | no other ↦ rw (le→leb 21 b more, meta_blocks_of-zero (b - 21) (omega arith)) (ground arith)
  ]
  | no fewer ↦ elim (ℕ_discrete b 0) [
    | yes e ↦
        subst (λ k. (k + meta_blocks_of 0 (if leb 21 k then k - 21 else k)) % 2 ^ 32 ≡ asked k)
          (sym e) (rw at_zero refl)
    | no other ↦ rw (nle→leb 21 b (omega arith), meta_blocks_of-zero b (omega arith)) (ground arith)
  ]
]

-- For a file of less than 2 ^ 41 bytes has_enough_space says whether the blocks of its data, a broken
-- one counted, fit into the free blocks together with 3 more, which are not counted where there are no
-- blocks or 21 of them: however long the file is, 3 tables are thought to be enough.
pub has_enough_space_lem :
    (size : ℕ) (s : Mkfs)
    → size < 2 ^ 41
    → has_enough_space size s ≡ leb (asked ((size + 1023) / 1024)) s.super_block.s_free_blocks_count
unfolding has_enough_space
has_enough_space_lem size s small =
    ap
      (λ b.
        leb ((b + meta_blocks_of 0 (if leb 21 b then b - 21 else b)) % 2 ^ 32)
          s.super_block.s_free_blocks_count)
      (rounded size small)
    ∙ ap (λ k. leb k s.super_block.s_free_blocks_count)
        (asked_lem ((size + 1023) / 1024) (omega arith))
  where
    rounded :
        (size : ℕ)
        → size < 2 ^ 41
        → (if size % 1024 == 0 then size / 1024 % 2 ^ 32 else (size / 1024 % 2 ^ 32 + 1) % 2 ^ 32)
          ≡ (size + 1023) / 1024
    rounded size small = elim (Bool-cases (size % 1024 == 0)) [
      | inl even ↦ let e = (==_iff (size % 1024) 0).0 even in rw even (omega arith)
      | inr broken ↦ rw broken (omega (arith, odd (size % 1024) broken))
    ]
      where
        odd : (k : ℕ) → (k == 0) ≡ false → 0 < k
        odd k h = ground arith
