-- ===== src/Ext2/FileSystem/Tests.antt =====
-- A file system on a device in memory with sectors of 512 bytes.
use rust_os.Prelude.{ℕ, ◌≡◌, refl, ◌≢◌, true, some, ret}
use rust_os.Transmute.Layouts.{word, ◌⊕◌, array, as_struct}
use rust_os.Ext2.Fixture.{superblock, descriptor, file}
use rust_os.Ext2.Layouts.{inode_layout}
use rust_os.Ext2.FileSystem.{read_inode, write_inode}
use rust_os.Ext2.FileSystem.Fixture.{device, disk, mounted, mounted-IsMounted, slot, used}
use rust_os.Ext2.FileSystem.Inodes.{IsSlot, block_bytes, read_inode-write_inode}

value : inode_layout.is_value file ≡ true
unfolding inode_layout as_struct ◌⊕◌ array word
value = refl

read_inode-write_inode_example :
    (t : ℕ → ℕ) × (write_inode device disk mounted file 12 ≡ ret t)
    × (read_inode device t mounted 12 ≡ ret (some file))
    × ((n' local' block' at' : ℕ)
        → IsSlot mounted superblock 2 n' descriptor local' block' at'
        → local' ≢ 11
        → read_inode device t mounted n' ≡ read_inode device disk mounted n')
    × ((b : ℕ) → b ≢ 6 → block_bytes device t 2 b ≡ block_bytes device disk 2 b)
read_inode-write_inode_example =
    read_inode-write_inode device mounted superblock 2 8 mounted-IsMounted disk 12 descriptor 11 6
      384 file slot used value
