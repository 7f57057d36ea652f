-- ===== src/Ext2/VfsInode/Tests.antt =====
-- A file of five bytes on the file system of the tests.
use rust_os.Prelude.{
  ℕ, zero, suc, ◌+◌, ◌-◌, ◌*◌, ◌^◌, ◌<◌, ◌≡◌, refl, subst, true, some, List, [], ◌∷◌, arith, ltb,
  ◌==◌, if◌then◌else◌, take, replicate, ret, panic, slice, splice,
}
use rust_os.Vfs.{success, done, read_all}
use rust_os.Ext2.{is_file, inode_size_of}
use rust_os.Transmute.Layouts.{as_struct, ◌⊕◌, array, word}
use rust_os.Ext2.Fixture.{superblock, descriptor, file}
use rust_os.Ext2.Layouts.{inode_layout}
use rust_os.Ext2.FileSystem.{read_inode}
use rust_os.Ext2.VfsInode.Write.{sized, read_all-write}
use rust_os.Ext2.FileSystem.Fixture.{device, disk, mounted, mounted-IsMounted, slot, used}
use rust_os.Ext2.VfsInode.{read, write}
use rust_os.Ext2.VfsInode.Contents.{contents}
use rust_os.Ext2.VfsInode.Read.{InRange}
use rust_os.Ext2.VfsInode.Unaligned.{read_unaligned}
use rust_os.Ext2.VfsInode.Whole.{read_all-read}

InRange-cons :
    (ratio block : ℕ) (blocks : List ℕ)
    → (block + 1) * ratio < 2 ^ 64
    → InRange ratio blocks
    → InRange ratio (block ∷ blocks)
InRange-cons ratio block blocks h rest zero b e =
    subst (λ (x : ℕ). (x + 1) * ratio < 2 ^ 64) (same e) h
  where
    same : some block ≡ some b → block ≡ b
    same e = cc
InRange-cons ratio block blocks h rest (suc i) b e = rest i b e

InRange-zeros : (n : ℕ) → InRange 2 (replicate n 0)
InRange-zeros zero i b e = cc
InRange-zeros (suc n) i b e = InRange-cons 2 0 (replicate n 0) (omega arith) (InRange-zeros n) i b e

range : InRange 2 file.direct_blocks
range = InRange-cons 2 700 (replicate 11 0) (omega arith) (InRange-zeros 11)

regular : is_file file ≡ true
unfolding is_file
regular = refl

five : inode_size_of superblock file ≡ 5
unfolding inode_size_of
five = refl

-- Three bytes from the second on: one is lost.
read_unaligned_example : read device disk mounted file (replicate 3 0) (0 * 1024 + 1) ≡ (
    if ltb 3 1
    then panic
    else ret (
      splice
          (replicate 3 0)
          0
          (slice (contents device disk 2 file.direct_blocks) (0 * 1024 + 1) (3 - 1)),
      if 0 * 1024 + 1 + 3 == inode_size_of superblock file then done (3 - 1) else success,
    ))
read_unaligned_example =
    read_unaligned device mounted superblock 2 8 mounted-IsMounted disk file range 0 1
      (replicate 3 0) regular (omega arith) (omega arith) (omega (arith, five)) (omega arith) 3
      (omega arith) (omega (arith, five)) (omega arith)

read_all-read_example :
    read_all (read device disk mounted file) 1
    ≡ ret (some (take (inode_size_of superblock file) (contents device disk 2 file.direct_blocks)))
read_all-read_example =
    read_all-read device mounted superblock 2 8 mounted-IsMounted disk file range 4 0 refl regular
      (omega (arith, five)) (omega (arith, five)) (omega (arith, five))

abbrev greeting : List ℕ
greeting = 72 ∷ 101 ∷ 121 ∷ []

value : inode_layout.is_value (sized file greeting) ≡ true
unfolding inode_layout as_struct ◌⊕◌ array word
value = refl

read_all-write_example :
    (t : ℕ → ℕ) × (write device disk mounted file 12 greeting ≡ ret (sized file greeting, t))
    × (read_inode device t mounted 12 ≡ ret (some (sized file greeting)))
    × (read_all (read device t mounted (sized file greeting)) 1 ≡ ret (some greeting))
read_all-write_example =
    read_all-write device mounted superblock 2 8 mounted-IsMounted disk 12 descriptor 11 6 384 file
      (700 ∷ []) (replicate 11 0) greeting 4 0 slot used regular refl range (tt, tt)
      ((λ e. absurd (omega arith)), tt) ((λ e. absurd (omega arith)), tt)
      ((λ e. absurd (omega arith)), tt) refl (omega arith) (omega arith) refl value refl
      (omega arith)
