-- ===== src/Ext2/FileSystem/Create/Tests.antt =====
-- A file in the root directory of the file system of the tests.
use rust_os.Prelude.{ℕ, ◌≡◌, refl, ◌≢◌, true, false, none, some, List, [], ◌∷◌, arith, ret}
use rust_os.Ext2.{Inode, inode_location, is_dir}
use rust_os.Ext2.Fixture.{superblock, descriptor, file}
use rust_os.Ext2.Bitmap.{is_used, reserve_next_free}
use rust_os.Ext2.FileSystem.Fixture.{device, disk, mounted, mounted-IsMounted, found}
use rust_os.Ext2.FileSystem.Inodes.{block_bytes}
use rust_os.Ext2.FileSystem.Create.{create_file}
use rust_os.Ext2.FileSystem.Create.Reservations.{create_file-refused}

abbrev parent : Inode
parent = record file { mode = 16877 }

directory : is_dir parent ≡ true
unfolding is_dir
directory = refl

location : inode_location superblock 2 ≡ ret (0, 1)
unfolding inode_location
location = refl

create_file-refused_example :
    (reserve_next_free (block_bytes device disk 2 4) ≡ (none, block_bytes device disk 2 4)
      → create_file device disk mounted parent 2 (97 ∷ []) ≡ ret (some (none, disk)))
    × ((i : ℕ) (bytes : List ℕ)
        → reserve_next_free (block_bytes device disk 2 4) ≡ (some i, bytes)
        → descriptor.block_bitmap ≢ descriptor.inode_bitmap
        → reserve_next_free (block_bytes device disk 2 3) ≡ (none, block_bytes device disk 2 3)
        → (t : ℕ → ℕ) × (create_file device disk mounted parent 2 (97 ∷ []) ≡ ret (some (none, t)))
          × (is_used (block_bytes device disk 2 4) i ≡ some false)
          × (is_used (block_bytes device t 2 4) i ≡ some true))
create_file-refused_example =
    create_file-refused device mounted superblock 2 8 mounted-IsMounted disk parent 2 (97 ∷ []) 0 1
      descriptor directory location found (omega arith) (omega arith)
