-- ===== src/Ext2/Tests.antt =====
-- A file system with blocks of 1024 bytes and inodes of 128.
use rust_os.Prelude.{ℕ, ◌+◌, ◌*◌, ◌≤◌, ◌≡◌, refl, List, [], ◌∷◌, arith, replicate, ret}
use rust_os.Ext2.Fixture.{superblock}
use rust_os.Ext2.{block_size, inode_block_and_offset}
use rust_os.Ext2.Location.{inode_block_and_offset_lem}
use rust_os.Ext2.Bitmap.{Reserved, reserve_next_free, reserve_next_free_lem}

size_1024 : block_size superblock ≡ ret 1024
unfolding block_size
size_1024 = refl

inode_block_and_offset_lem_example :
    (block offset : ℕ) × (inode_block_and_offset superblock 82 11 ≡ ret (block, offset))
    × (block * 1024 + offset ≡ 82 * 1024 + 128 * 11)
    × (offset + 128 ≤ 1024)
inode_block_and_offset_lem_example =
    inode_block_and_offset_lem superblock 82 11 1024 8 size_1024 (omega arith) refl (omega arith)
      (omega arith)

-- A file with a hole in its second block.
abbrev direct_blocks : List ℕ
direct_blocks = 700 ∷ 0 ∷ 701 ∷ replicate 9 0

reserve_next_free_lem_example :
    Reserved
      (255 ∷ 7 ∷ 0 ∷ [])
      0
      (reserve_next_free (255 ∷ 7 ∷ 0 ∷ [])).0
      (reserve_next_free (255 ∷ 7 ∷ 0 ∷ [])).1
reserve_next_free_lem_example = reserve_next_free_lem (255 ∷ 7 ∷ 0 ∷ [])
