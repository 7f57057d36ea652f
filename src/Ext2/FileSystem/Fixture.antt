-- ===== src/Ext2/FileSystem/Fixture.antt =====
-- Data of the tests: a file system on a device in memory with sectors of 512 bytes.
use rust_os.Prelude.{ℕ, ◌≤◌, ◌≡◌, refl, true, some, List, [], ◌∷◌, arith, ret, test_bit}
use rust_os.Block.{BlockDeviceDriver, BlockBuffer}
use rust_os.Block.Memory.{memory_device, written}
use rust_os.Transmute.{is_aligned, from_prefix, try_cast_bytes_ref, try_cast_bytes_ref_offset}
use rust_os.Transmute.View.{deref}
use rust_os.Transmute.Layouts.{word, ◌⊕◌, array, as_struct, to_le_bytes, from_le_bytes}
use rust_os.Ext2.{block_size, inode_location, inode_block_and_offset}
use rust_os.Ext2.Bitmap.{is_used}
use rust_os.Ext2.Fixture.{superblock, descriptor}
use rust_os.Ext2.Layouts.{inode_layout, block_group_descriptor_layout}
use rust_os.Ext2.SuperblockLayout.{superblock_layout}
use rust_os.Ext2.FileSystem.{FileSystem, superblock_of, get, offset}
use rust_os.Ext2.FileSystem.Inodes.{IsMounted, IsSlot, block_bytes}

abbrev pub device : BlockDeviceDriver (ℕ → ℕ)
device = memory_device 512

-- The inode bitmap in block 4 has its first sixteen bits set; block 700 begins with five bytes.
abbrev pub disk : ℕ → ℕ
disk = written (written (λ _. 0) 4096 (255 ∷ 255 ∷ [])) 716800 (104 ∷ 101 ∷ 108 ∷ 108 ∷ 111 ∷ [])

abbrev pub buffer : ℕ → List ℕ → BlockBuffer
buffer start bytes = record {
  device_start_block = start;
  device_num_blocks = 2;
  address = 4096;
  bytes = bytes;
}

abbrev pub mounted : FileSystem
mounted = record {
  superblock = buffer 2 (superblock_layout.encode superblock);
  block_group_descriptors = record {
    descriptors = buffer 4 (block_group_descriptor_layout.encode descriptor);
    num_block_groups = 1;
  };
  block_size = 1024;
}

view : superblock_of mounted ≡ ret superblock
unfolding superblock_of deref try_cast_bytes_ref is_aligned from_prefix superblock_layout as_struct
    ◌⊕◌ array word to_le_bytes from_le_bytes
view = refl

size_1024 : block_size superblock ≡ ret 1024
unfolding block_size
size_1024 = refl

room : inode_layout.size_of ≤ 128
unfolding inode_layout as_struct ◌⊕◌ array word
room = omega arith

pub mounted-IsMounted : IsMounted device mounted superblock 2 8
mounted-IsMounted = record {
  view = view;
  size = size_1024;
  device = refl;
  positive = omega arith;
  inodes = refl;
  room = room;
}

pub found : get mounted.block_group_descriptors 0 ≡ some descriptor
unfolding get offset try_cast_bytes_ref_offset try_cast_bytes_ref is_aligned from_prefix
    block_group_descriptor_layout as_struct ◌⊕◌ array word to_le_bytes from_le_bytes
found = refl

location : inode_location superblock 12 ≡ ret (0, 11)
unfolding inode_location
location = refl

place : inode_block_and_offset superblock 5 11 ≡ ret (6, 384)
unfolding inode_block_and_offset block_size
place = refl

pub slot : IsSlot mounted superblock 2 12 descriptor 11 6 384
slot = record {
  group = 0;
  location = location;
  found = found;
  place = place;
  table_range = omega arith;
  bitmap_range = omega arith;
  block_range = omega arith;
  not_bitmap = λ e. absurd (omega arith);
}

pub used : is_used (block_bytes device disk 2 4) 11 ≡ some true
unfolding is_used test_bit
used = refl
