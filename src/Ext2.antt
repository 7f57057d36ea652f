-- ===== src/Ext2.antt =====
-- kernel/src/fs/ext2: the arithmetic of the superblock and the blocks of an inode. Addresses are
-- `u32` and offsets `u64`, with the debug profile's overflow checks.
pub mod Location
pub mod Blocks
pub mod Bitmap
pub mod Layouts
pub mod SuperblockLayout
pub mod Directory
pub mod FileSystem
pub mod VfsInode
pub mod Fixture
mod Tests
use rust_os.Prelude.{
  ℕ, ◌+◌, ◌-◌, ◌*◌, ◌/◌, ◌%◌, ◌^◌, bit_and, Bool, false, not, List, [], ◌∷◌, ltb, ◌==◌,
  if◌then◌else◌, length, set, Exec, ret, panic, assert, add_u64, div_ceil, ◌>>=◌, ◌>>◌,
}

pub record Superblock : Type 0 where
  pub inodes_count : ℕ
  pub blocks_count : ℕ
  pub reserved_blocks_count : ℕ
  pub free_blocks_count : ℕ
  pub free_inodes_count : ℕ
  pub first_data_block : ℕ
  pub log_block_size : ℕ
  pub log_frag_size : ℕ
  pub blocks_per_group : ℕ
  pub frags_per_group : ℕ
  pub inodes_per_group : ℕ
  pub mount_time : ℕ
  pub write_time : ℕ
  pub mount_count : ℕ
  pub max_mount_count : ℕ
  pub magic : ℕ
  pub state : ℕ
  pub errors : ℕ
  pub minor_rev_level : ℕ
  pub lastcheck : ℕ
  pub checkinterval : ℕ
  pub creator_os : ℕ
  pub rev_level : ℕ
  pub def_resuid : ℕ
  pub def_resgid : ℕ
  pub first_ino : ℕ
  pub inode_size : ℕ
  pub block_group_nr : ℕ
  pub feature_compat : ℕ
  pub feature_incompat : ℕ
  pub feature_ro_compat : ℕ
  pub uuid : List ℕ
  pub volume_name : List ℕ
  pub last_mounted : List ℕ
  pub algo_bitmap : ℕ
  pub prealloc_blocks : ℕ
  pub prealloc_dir_blocks : ℕ
  pub padding1 : ℕ
  pub journal_uuid : List ℕ
  pub journal_inum : ℕ
  pub journal_dev : ℕ
  pub last_orphan : ℕ
  pub hash_seed : List ℕ
  pub def_hash_version : ℕ
  pub padding2 : List ℕ
  pub default_mount_options : ℕ
  pub first_meta_bg : ℕ

unfoldable pub magic_valid : Superblock → Bool
magic_valid sb = sb.magic == 61267

abbrev pub add_u32 : ℕ → ℕ → Exec ℕ
add_u32 a b = if ltb (a + b) (2 ^ 32) then ret (a + b) else panic

-- A `u16` shift: the shift amount is checked, and bits that leave the word are lost.
unfoldable pub block_size : Superblock → Exec ℕ
block_size sb =
    if ltb sb.log_block_size 16 then ret (1024 * 2 ^ sb.log_block_size % 2 ^ 16) else panic

unfoldable pub block_descriptor_table_start_block : Superblock → ℕ
block_descriptor_table_start_block sb = sb.first_data_block + 1

unfoldable pub num_block_groups : Superblock → Exec ℕ
num_block_groups sb =
    if sb.blocks_per_group == 0 then panic else ret (div_ceil sb.blocks_count sb.blocks_per_group)

unfoldable pub inode_location : Superblock → ℕ → Exec (ℕ × ℕ)
inode_location sb inode_number = do
  assert (ltb 0 inode_number)
  let inode_index = inode_number - 1
  assert (not (sb.inodes_per_group == 0))
  ret (inode_index / sb.inodes_per_group, inode_index % sb.inodes_per_group)

unfoldable pub inode_number : Superblock → ℕ → ℕ → Exec ℕ
inode_number sb block_group_index local_inode_index = do
  assert (ltb (block_group_index * sb.inodes_per_group) (2 ^ 32))
  inode_index ← add_u32 (block_group_index * sb.inodes_per_group) local_inode_index
  add_u32 inode_index 1

-- A `u16` times a `u32` fits into a `u64`.
unfoldable pub inode_block_and_offset : Superblock → ℕ → ℕ → Exec (ℕ × ℕ)
inode_block_and_offset sb table_address local_inode_index = do
  let byte_offset = sb.inode_size * local_inode_index
  size ← block_size sb
  assert (not (size == 0))
  block_index ← add_u64 table_address (byte_offset / size)
  ret (block_index, byte_offset % size)

-- There are twelve direct blocks.
pub record Inode : Type 0 where
  pub mode : ℕ
  pub uid : ℕ
  pub size_low : ℕ
  pub atime : ℕ
  pub ctime : ℕ
  pub mtime : ℕ
  pub dtime : ℕ
  pub gid : ℕ
  pub links_count : ℕ
  pub blocks : ℕ
  pub flags : ℕ
  pub osd1 : ℕ
  pub direct_blocks : List ℕ
  pub singly_indirect_block : ℕ
  pub doubly_indirect_block : ℕ
  pub triply_indirect_block : ℕ
  pub generation : ℕ
  pub file_acl : ℕ
  pub size_high : ℕ
  pub faddr : ℕ
  pub osd2 : List ℕ

pub record BlockGroupDescriptor : Type 0 where
  pub block_bitmap : ℕ
  pub inode_bitmap : ℕ
  pub inode_table : ℕ
  pub free_blocks_count : ℕ
  pub free_inodes_count : ℕ
  pub used_dirs_count : ℕ
  pub pad : ℕ
  pub reserved : List ℕ

-- `high << 32 | low`, of two words of 32 bits.
unfoldable pub inode_size_of : Superblock → Inode → ℕ
inode_size_of sb inode =
    if sb.rev_level == 0 then inode.size_low else inode.size_high * 2 ^ 32 + inode.size_low

-- `InodeMode::contains`: all bits of the flag are set.
abbrev pub contains : ℕ → ℕ → Bool
contains mode flag = bit_and mode flag == flag

unfoldable pub is_dir : Inode → Bool
is_dir inode = contains inode.mode 16384

unfoldable pub is_file : Inode → Bool
is_file inode = contains inode.mode 32768

-- What `InodeBlockIterator` yields, the offset and the address of each block, and whether the call
-- after the last of them is the `todo!`. The list is the direct blocks from `index` on; after the
-- twelfth comes the `todo!`.
unfoldable pub iter_blocks : ℕ → ℕ → ℕ → ℕ → List ℕ → List (ℕ × ℕ) × Bool
iter_blocks block_size num_blocks seen_blocks index [] = ([], ltb seen_blocks num_blocks)
iter_blocks block_size num_blocks seen_blocks index (block ∷ rest) =
    let hole = iter_blocks block_size num_blocks seen_blocks (index + 1) rest in
    let others = iter_blocks block_size num_blocks (seen_blocks + 1) (index + 1) rest in
    let item : List (ℕ × ℕ) × Bool = ((index * block_size, block) ∷ others.0, others.1) in
    if ltb seen_blocks num_blocks then (if block == 0 then hole else item) else ([], false)

unfoldable pub iter_inode_blocks : Superblock → Inode → Exec (List (ℕ × ℕ) × Bool)
iter_inode_blocks sb inode = do
  size ← block_size sb
  assert (not (size == 0))
  ret (iter_blocks size (div_ceil (inode.blocks * 512) size) 0 0 inode.direct_blocks)

-- `InodeDirectBlocks::insert`.
unfoldable pub insert : List ℕ → ℕ → ℕ → Exec (List ℕ)
insert direct_blocks index block = do
  assert (ltb index (length direct_blocks))
  ret (set direct_blocks index block)
