-- ===== src/Ext2/FileSystem/Create.antt =====
-- kernel/src/fs/ext2/file_system.rs: the blocks of a directory, and the creation of a file in it.
pub mod Reservations
mod Tests
use rust_os.Prelude.{
  ℕ, zero, ◌+◌, ◌-◌, ◌/◌, ◌%◌, ◌^◌, Bool, true, false, not, Option, none, some, List, map, ltb,
  ◌==◌, if◌then◌else◌, length, replicate, Exec, ret, panic, assert, ◌>>=◌, ◌>>◌,
}
use mathlib.Core.Option
use rust_os.Block.{BlockDeviceDriver, BlockBuffer, flush}
use rust_os.Transmute.{try_cast_bytes_ref_mut_offset}
use rust_os.Transmute.View
use rust_os.Ext2.{
  Superblock, Inode, BlockGroupDescriptor, block_size, inode_location, inode_number, inode_size_of,
  is_dir, insert,
}
use rust_os.Ext2.Layouts.{block_group_descriptor_layout}
use rust_os.Ext2.SuperblockLayout.{superblock_layout}
use rust_os.Ext2.Bitmap.{reserve_next_free}
use rust_os.Ext2.Directory.{DirectoryBlock, from_existing_block, insert_entry, regular_file}
use rust_os.Ext2.FileSystem.{
  BlockGroupDescriptorBlocks, FileSystem, offset, get, superblock_of, inode_bitmap_block,
  block_bitmap_block, write_inode, iter_file_blocks,
}

abbrev pub sub_one : ℕ → Exec ℕ
sub_one n = if n == 0 then panic else ret (n - 1)

abbrev pub get_mut_at :
    BlockGroupDescriptorBlocks
    → Option ℕ
    → Option (BlockGroupDescriptor × (BlockGroupDescriptor → BlockGroupDescriptorBlocks))
get_mut_at blocks none = none
get_mut_at blocks (some at) =
    Option.map
      (λ r. (
        r.0,
        λ value. record blocks { descriptors = record blocks.descriptors { bytes = r.1 value } },
      ))
      (try_cast_bytes_ref_mut_offset block_group_descriptor_layout blocks.descriptors.address
        blocks.descriptors.bytes at)

-- `BlockGroupDescriptorBlocks::get_mut`: the descriptor, and the blocks after an assignment to it.
unfoldable pub get_mut :
    BlockGroupDescriptorBlocks
    → ℕ
    → Option (BlockGroupDescriptor × (BlockGroupDescriptor → BlockGroupDescriptorBlocks))
get_mut blocks index = get_mut_at blocks (offset blocks index)

-- The inode of a new file: readable by all, writable by its owner.
unfoldable pub new_file : Inode → List ℕ → ℕ → Inode
new_file parent direct_blocks blocks = record {
  mode = 33188;
  uid = parent.uid;
  size_low = 0;
  atime = 0;
  ctime = 0;
  mtime = 0;
  dtime = 0;
  gid = parent.gid;
  links_count = 1;
  blocks = blocks;
  flags = 0;
  osd1 = 0;
  direct_blocks = direct_blocks;
  singly_indirect_block = 0;
  doubly_indirect_block = 0;
  triply_indirect_block = 0;
  generation = 0;
  file_acl = 0;
  size_high = 0;
  faddr = 0;
  osd2 = replicate 12 0;
}

module _ {S : Type 0} (driver : BlockDeviceDriver S) where
  -- The value that the function changes is `none` when the loop over a block's entries has run out of
  -- fuel: a block with a distance of zero is never left.
  abbrev pub with_block_entries :
      {A : Type 0}
      → (S → A → BlockBuffer → DirectoryBlock → Exec (Bool × S × Option A))
      → S
      → A
      → BlockBuffer
      → Option DirectoryBlock
      → Exec (Bool × S × Option A)
  with_block_entries func s a buffer none = ret (false, s, none)
  with_block_entries func s a buffer (some block) = func s a buffer block

  abbrev pub on_directory_block :
      {A : Type 0}
      → (S → A → BlockBuffer → DirectoryBlock → Exec (Bool × S × Option A))
      → S
      → Option A
      → ℕ
      → BlockBuffer
      → Exec (Bool × S × Option A)
  on_directory_block func s none at buffer = ret (false, s, none)
  on_directory_block func s (some a) at buffer = do
    block ← from_existing_block (length buffer.bytes + 1) buffer.bytes
    with_block_entries func s a buffer block

  unfoldable pub iter_directory_blocks :
      {A : Type 0}
      → FileSystem
      → (S → A → BlockBuffer → DirectoryBlock → Exec (Bool × S × Option A))
      → S
      → A
      → Inode
      → Exec (S × Option A)
  iter_directory_blocks fs func s a inode = do
    assert (is_dir inode)
    superblock ← superblock_of fs
    size ← block_size superblock
    assert (ltb 0 size)
    assert (inode_size_of superblock inode % size == 0)
    iter_file_blocks driver fs (on_directory_block func) s (some a) inode

  -- The function that looks for room: the value says whether an entry was inserted.
  abbrev pub flush_inserted :
      S → BlockBuffer → Option (ℕ × DirectoryBlock) → Exec (Bool × S × Option Bool)
  flush_inserted s buffer none = ret (true, s, some false)
  flush_inserted s buffer (some (location, block)) = do
    s' ← flush driver s (record buffer { bytes = block.bytes })
    ret (false, s', some true)

  unfoldable pub add_directory_entry :
      List ℕ → ℕ → S → Bool → BlockBuffer → DirectoryBlock → Exec (Bool × S × Option Bool)
  add_directory_entry name number s found buffer block = do
    inserted ← insert_entry block name number regular_file
    flush_inserted s buffer inserted

  -- What `create_file` returns, with the device's state; `none` when it does not end.
  abbrev pub Created : Type 0
  Created = Exec (Option (Option (FileSystem × Inode × ℕ) × S))

  -- The statistics of the group and of the superblock.
  abbrev pub adjust :
      S
      → FileSystem
      → Inode
      → ℕ
      → Option (BlockGroupDescriptor × (BlockGroupDescriptor → BlockGroupDescriptorBlocks))
      → Created
  adjust s fs inode number none = ret (some (none, s))
  adjust s fs inode number (some (descriptor, assign)) = do
    free_in_group ← sub_one descriptor.free_inodes_count
    let descriptors = assign (record descriptor { free_inodes_count = free_in_group })
    s1 ← flush driver s descriptors.descriptors
    superblock ← superblock_of fs
    free ← sub_one superblock.free_inodes_count
    bytes ←
        View.deref_mut superblock_layout fs.superblock.address fs.superblock.bytes
          (record superblock { free_inodes_count = free })
    let buffer = record fs.superblock { bytes = bytes }
    s2 ← flush driver s1 buffer
    ret (
        some (
          some (
            record fs { superblock = buffer; block_group_descriptors = descriptors },
            inode,
            number,
          ),
          s2,
        ))

  abbrev pub finish : FileSystem → Inode → ℕ → ℕ → S × Option Bool → Created
  finish fs inode number group (s, none) = ret none
  finish fs inode number group (s, some false) = ret (some (none, s))
  finish fs inode number group (s, some true) =
      adjust s fs inode number (get_mut fs.block_group_descriptors group)

  -- With a reserved inode and the outcome of the reservation of a block.
  abbrev pub with_block :
      S → FileSystem → Inode → ℕ → List ℕ → ℕ → BlockBuffer → Option ℕ × List ℕ → Created
  with_block s fs parent group name local bitmap (none, bytes) = ret (some (none, s))
  with_block s fs parent group name local bitmap (some block_address, bytes) = do
    s1 ← flush driver s (record bitmap { bytes = bytes })
    direct_blocks ← insert (replicate 12 0) 0 (block_address % 2 ^ 32)
    superblock ← superblock_of fs
    size ← block_size superblock
    let inode = new_file parent direct_blocks (size / 512)
    number ← inode_number superblock group (local % 2 ^ 32)
    s2 ← write_inode driver s1 fs inode number
    after ← iter_directory_blocks fs (add_directory_entry name number) s2 false parent
    finish fs inode number group after

  -- With the outcome of the reservation of an inode.
  abbrev pub with_inode :
      S
      → FileSystem
      → Inode
      → ℕ
      → List ℕ
      → BlockGroupDescriptor
      → BlockBuffer
      → Option ℕ × List ℕ
      → Created
  with_inode s fs parent group name descriptor bitmap (none, bytes) = ret (some (none, s))
  with_inode s fs parent group name descriptor bitmap (some local, bytes) = do
    s1 ← flush driver s (record bitmap { bytes = bytes })
    block_bitmap ← block_bitmap_block driver s1 fs descriptor
    with_block s1 fs parent group name local block_bitmap (reserve_next_free block_bitmap.bytes)

  abbrev pub create_in_group :
      S → FileSystem → Inode → ℕ → List ℕ → Option BlockGroupDescriptor → Created
  create_in_group s fs parent group name none = ret (some (none, s))
  create_in_group s fs parent group name (some descriptor) = do
    bitmap ← inode_bitmap_block driver s fs descriptor
    with_inode s fs parent group name descriptor bitmap (reserve_next_free bitmap.bytes)

  unfoldable pub create_file : S → FileSystem → Inode → ℕ → List ℕ → Created
  create_file s fs parent parent_number name = do
    assert (is_dir parent)
    superblock ← superblock_of fs
    place ← inode_location superblock parent_number
    create_in_group s fs parent place.0 name (get fs.block_group_descriptors place.0)
