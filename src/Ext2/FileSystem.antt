-- ===== src/Ext2/FileSystem.antt =====
-- kernel/src/fs/ext2/file_system.rs: the mounted file system, over the driver of its device.
pub mod Inodes
pub mod Create
pub mod Fixture
mod Tests
use rust_os.Prelude.{
  ℕ, ◌+◌, ◌-◌, ◌*◌, ◌/◌, ◌^◌, Bool, true, false, not, Option, none, some, List, [], ◌∷◌, ltb, leb,
  if◌then◌else◌, length, get_elem?, Exec, ret, panic, assert, expect, div_ceil, ◌>>=◌, ◌>>◌,
}
use rust_os.Block.{BlockDeviceDriver, BlockBuffer, read_blocks, flush}
use rust_os.Transmute.{try_cast_bytes_ref_offset, try_write_bytes_offset}
use rust_os.Transmute.View
use rust_os.Ext2.{
  Superblock, Inode, BlockGroupDescriptor, magic_valid, block_size, num_block_groups,
  block_descriptor_table_start_block, inode_location, inode_block_and_offset, iter_inode_blocks,
}
use rust_os.Ext2.Layouts.{block_group_descriptor_layout, inode_layout, block_address_layout}
use rust_os.Ext2.SuperblockLayout.{superblock_layout}
use rust_os.Ext2.Bitmap.{is_used}

pub record BlockGroupDescriptorBlocks : Type 0 where
  pub descriptors : BlockBuffer
  pub num_block_groups : ℕ

-- `BlockGroupDescriptorBlocks::new`.
unfoldable pub new : BlockBuffer → ℕ → Exec BlockGroupDescriptorBlocks
new blocks num_block_groups = do
  assert (leb (num_block_groups * block_group_descriptor_layout.size_of) (length blocks.bytes))
  ret (record { descriptors = blocks; num_block_groups = num_block_groups })

unfoldable pub offset : BlockGroupDescriptorBlocks → ℕ → Option ℕ
offset blocks index =
    if leb blocks.num_block_groups index
    then none
    else some (index * block_group_descriptor_layout.size_of)

abbrev pub get_at : BlockGroupDescriptorBlocks → Option ℕ → Option BlockGroupDescriptor
get_at blocks none = none
get_at blocks (some at) =
    try_cast_bytes_ref_offset block_group_descriptor_layout blocks.descriptors.address
      blocks.descriptors.bytes at

unfoldable pub get : BlockGroupDescriptorBlocks → ℕ → Option BlockGroupDescriptor
get blocks index = get_at blocks (offset blocks index)

pub record FileSystem : Type 0 where
  pub superblock : BlockBuffer
  pub block_group_descriptors : BlockGroupDescriptorBlocks
  pub block_size : ℕ

abbrev pub add_u16 : ℕ → ℕ → Exec ℕ
add_u16 a b = if ltb (a + b) (2 ^ 16) then ret (a + b) else panic

unfoldable pub superblock_of : FileSystem → Exec Superblock
superblock_of fs = View.deref superblock_layout fs.superblock.address fs.superblock.bytes

module _ {S : Type 0} (driver : BlockDeviceDriver S) where
  -- `FileSystem::read` behind the check of the magic number.
  abbrev pub mount : S → BlockBuffer → Superblock → Exec (Option FileSystem × S)
  mount s block superblock = do
    size ← block_size superblock
    num_groups ← num_block_groups superblock
    assert (ltb 0 size)
    let start = block_descriptor_table_start_block superblock
    blocks ← read_blocks driver s size start (div_ceil num_groups size)
    descriptors ← new blocks num_groups
    count ← add_u16 superblock.mount_count 1
    bytes ←
        View.deref_mut superblock_layout block.address block.bytes
          (record superblock { mount_count = count })
    let counted = record block { bytes = bytes }
    s' ← flush driver s counted
    ret (
      some (record {
        superblock = counted;
        block_group_descriptors = descriptors;
        block_size = size;
      }),
      s',
    )

  unfoldable pub read : S → Exec (Option FileSystem × S)
  read s = do
    block ← read_blocks driver s 1024 1 1
    buffer ← expect (View.new superblock_layout block.address block.bytes)
    superblock ← View.deref superblock_layout block.address buffer
    if magic_valid superblock then mount s block superblock else ret (none, s)

  unfoldable pub inode_bitmap_block : S → FileSystem → BlockGroupDescriptor → Exec BlockBuffer
  inode_bitmap_block s fs descriptor = read_blocks driver s fs.block_size descriptor.inode_bitmap 1

  unfoldable pub block_bitmap_block : S → FileSystem → BlockGroupDescriptor → Exec BlockBuffer
  block_bitmap_block s fs descriptor = read_blocks driver s fs.block_size descriptor.block_bitmap 1

  unfoldable pub inode_block : S → FileSystem → BlockGroupDescriptor → ℕ → Exec (BlockBuffer × ℕ)
  inode_block s fs descriptor local_inode_index = do
    superblock ← superblock_of fs
    place ← inode_block_and_offset superblock descriptor.inode_table local_inode_index
    buffer ← read_blocks driver s fs.block_size place.0 1
    ret (buffer, place.1)

  -- The inode in its block, when the bitmap says that it is used.
  abbrev pub read_used :
      S → FileSystem → BlockGroupDescriptor → ℕ → Option Bool → Exec (Option Inode)
  read_used s fs descriptor local none = ret none
  read_used s fs descriptor local (some false) = ret none
  read_used s fs descriptor local (some true) = do
    inodes ← inode_block s fs descriptor local
    inode ← expect (try_cast_bytes_ref_offset inode_layout inodes.0.address inodes.0.bytes inodes.1)
    ret (some inode)

  abbrev pub read_in_group : S → FileSystem → ℕ → Option BlockGroupDescriptor → Exec (Option Inode)
  read_in_group s fs local none = ret none
  read_in_group s fs local (some descriptor) = do
    bitmap ← inode_bitmap_block s fs descriptor
    read_used s fs descriptor local (is_used bitmap.bytes local)

  unfoldable pub read_inode : S → FileSystem → ℕ → Exec (Option Inode)
  read_inode s fs inode_number = do
    superblock ← superblock_of fs
    place ← inode_location superblock inode_number
    read_in_group s fs place.1 (get fs.block_group_descriptors place.0)

  -- The root directory is inode 2.
  unfoldable pub read_root : S → FileSystem → Exec (Inode × ℕ)
  read_root s fs = do found ← read_inode s fs 2; inode ← expect found; ret (inode, 2)

  unfoldable pub write_inode : S → FileSystem → Inode → ℕ → Exec S
  write_inode s fs inode inode_number = do
    superblock ← superblock_of fs
    place ← inode_location superblock inode_number
    descriptor ← expect (get fs.block_group_descriptors place.0)
    bitmap ← inode_bitmap_block s fs descriptor
    used ← expect (is_used bitmap.bytes place.1)
    assert used
    inodes ← inode_block s fs descriptor place.1
    bytes ←
        expect (try_write_bytes_offset inode_layout inodes.0.address inodes.0.bytes inodes.1 inode)
    flush driver s (record inodes.0 { bytes = bytes })

  -- Past the direct blocks: the index of the block is not looked at.
  unfoldable pub read_indirect_block : S → FileSystem → Inode → Exec BlockBuffer
  read_indirect_block s fs inode = do
    let block_indexes_per_indirect = fs.block_size / 8
    assert (leb (length inode.direct_blocks) block_indexes_per_indirect)
    let indirect_block_index = block_indexes_per_indirect - length inode.direct_blocks
    assert (ltb indirect_block_index block_indexes_per_indirect)
    assert (ltb 0 inode.singly_indirect_block)
    indirect_block ← read_blocks driver s fs.block_size inode.singly_indirect_block 1
    block_addr ← expect (
        try_cast_bytes_ref_offset block_address_layout indirect_block.address indirect_block.bytes
          indirect_block_index)
    read_blocks driver s fs.block_size block_addr 1

  abbrev pub read_block_at : S → FileSystem → Inode → Option ℕ → Exec BlockBuffer
  read_block_at s fs inode (some block_addr) = read_blocks driver s fs.block_size block_addr 1
  read_block_at s fs inode none = read_indirect_block s fs inode

  unfoldable pub read_inode_block : S → FileSystem → Inode → ℕ → Exec BlockBuffer
  read_inode_block s fs inode index = read_block_at s fs inode (get_elem? inode.direct_blocks index)

  -- The loop of `iter_file_blocks`: the function gets the offset and the buffer of a block, and says
  -- whether to go on; `A` is what it changes. After the last block the iterator may panic.
  abbrev pub each_block :
      {A : Type 0}
      → FileSystem
      → (S → A → ℕ → BlockBuffer → Exec (Bool × S × A))
      → S
      → A
      → Bool
      → List (ℕ × ℕ)
      → Exec (S × A)
  each_block fs func s a gives_up [] = if gives_up then panic else ret (s, a)
  each_block fs func s a gives_up ((at, block_addr) ∷ blocks) = do
    buffer ← read_blocks driver s fs.block_size block_addr 1
    after ← func s a at buffer
    let again = each_block fs func after.1 after.2 gives_up blocks
    if after.0 then again else ret (after.1, after.2)

  unfoldable pub iter_file_blocks :
      {A : Type 0}
      → FileSystem
      → (S → A → ℕ → BlockBuffer → Exec (Bool × S × A))
      → S
      → A
      → Inode
      → Exec (S × A)
  iter_file_blocks fs func s a inode = do
    superblock ← superblock_of fs
    blocks ← iter_inode_blocks superblock inode
    each_block fs func s a blocks.1 blocks.0
