-- ===== src/Mkfs/Tests.antt =====
-- The theorems on blocks and inodes, at an image with one group.
use airix.Prelude.{
  ℕ, ◌+◌, ◌≤◌, ◌<◌, ◌≡◌, refl, subst, false, arith, ℕ_discrete, ◌==◌, if◌then◌else◌, update,
  update_self, update_ne,
}
use airix.Axfs.{AxInode}
use airix.Mkfs.{
  find_byte, find_bit, alloc_block, Mkfs, descriptor_at, get_block_group_metadata, block_at,
  alloc_block_from_block_group, write_inode,
}
use airix.Mkfs.Alloc.{AreBytes, GivesBlock, alloc_block_from_block_group-GivesBlock}
use airix.Mkfs.First.{FromFirst, alloc_block-FromFirst}
use airix.Mkfs.Space.{has_enough_space, has_enough_space_lem}
use airix.Mkfs.Inode.{InOrder, InodeFits, Wrote, write_inode-Wrote}

byte-AreBytes :
    (img : ℕ → ℕ) (o v : ℕ) → ((a : ℕ) → img a < 256) → v < 256 → (a : ℕ) → update img o v a < 256
byte-AreBytes img o v bytes small a = elim (ℕ_discrete o a) [
  | yes here ↦ subst (λ k. update img o v k < 256) here (rw (update_self img o v) small)
  | no other ↦ rw (update_ne img o a v other) (bytes a)
]

-- The descriptor of the group 0: the bitmaps are the blocks 3 and 4, the inodes start at the block 5,
-- 100 blocks and 50 inodes are free. The first 9 blocks are in use.
abbrev counted : ℕ → ℕ
counted = update (update (λ a. 0) 2060 100) 2062 50

abbrev image : ℕ → ℕ
image = update (update (update (update (update counted 2048 3) 2052 4) 2056 5) 3072 255) 3073 128

abbrev disk : Mkfs
disk = record {
  img = image;
  super_block = record {
    s_inodes_count = 64;
    s_blocks_count = 128;
    s_free_inodes_count = 50;
    s_free_blocks_count = 100;
    s_inodes_per_group = 64;
  };
}

disk-AreBytes : AreBytes disk
disk-AreBytes =
    byte-AreBytes _ 3073 128
      (byte-AreBytes _ 3072 255
        (byte-AreBytes _ 2056 5
          (byte-AreBytes _ 2052 4
            (byte-AreBytes _ 2048 3
              (byte-AreBytes _ 2062 50
                (byte-AreBytes (λ a. 0) 2060 100 (λ a. omega arith) (omega arith)) (omega arith))
              (omega arith))
            (omega arith))
          (omega arith))
        (omega arith))
      (omega arith)

gives_ten : alloc_block_from_block_group 0 disk ≡ 10
unfolding alloc_block_from_block_group get_block_group_metadata find_byte find_bit
gives_ten = refl

apart : descriptor_at 0 + 16 ≤ block_at (get_block_group_metadata 0 disk).bg_block_bitmap
unfolding get_block_group_metadata
apart = omega arith

alloc_block_from_block_group-GivesBlock_example :
    GivesBlock 0 disk (alloc_block_from_block_group 0 disk)
alloc_block_from_block_group-GivesBlock_example =
    alloc_block_from_block_group-GivesBlock 0 disk (omega arith) disk-AreBytes apart

alloc_block-FromFirst_example : FromFirst disk (alloc_block disk)
alloc_block-FromFirst_example = alloc_block-FromFirst disk

abbrev directory : AxInode
directory = record { i_mode = 16384; i_size = 1024; i_block = λ k. if k == 0 then 10 else 0 }

directory-InodeFits : InodeFits directory
directory-InodeFits = (omega arith, omega arith, λ k h. ground arith)

disk-InOrder : InOrder 0 0 disk
unfolding get_block_group_metadata
disk-InOrder = (omega arith, omega arith, omega arith)

write_inode-Wrote_example : Wrote 1 directory disk (write_inode 1 directory disk)
write_inode-Wrote_example =
    write_inode-Wrote 1 directory disk disk-AreBytes directory-InodeFits disk-InOrder

has_enough_space_lem_example : has_enough_space 102400 disk ≡ false
has_enough_space_lem_example = has_enough_space_lem 102400 disk (omega arith)
