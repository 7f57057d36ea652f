-- ===== src/Ext2/FileSystem/Create/Reservations.antt =====
-- What is left when the creation of a file is refused.
use rust_os.Prelude.{
  ℕ, ◌+◌, ◌*◌, ◌^◌, ◌<◌, ◌≡◌, refl, subst, ◌∙◌, ◌≢◌, true, false, Option, none, some, List, arith,
  ◌==◌, length, ret,
}
use rust_os.Block.{BlockDeviceDriver}
use rust_os.Ext2.{Superblock, Inode, BlockGroupDescriptor, inode_location, is_dir}
use rust_os.Ext2.Bitmap.{Reserved, full, got, is_used, reserve_next_free, reserve_next_free_lem}
use rust_os.Ext2.FileSystem.{FileSystem, get, inode_bitmap_block, block_bitmap_block}
use rust_os.Ext2.FileSystem.Inodes.{
  IsMounted, block_bytes, read_block, length-block_bytes, flush_block, block_bytes-write,
  block_bytes-write_ne,
}
use rust_os.Ext2.FileSystem.Create.{create_file}

-- A reserved bit was clear and is set, and the number of bytes is the same.
reserved_bit :
    (bytes : List ℕ) (i : ℕ) (bytes' : List ℕ)
    → reserve_next_free bytes ≡ (some i, bytes')
    → (is_used bytes i ≡ some false)
      × (is_used bytes' i ≡ some true)
      × (length bytes' ≡ length bytes)
reserved_bit bytes i bytes' e =
    from
      (subst (λ (r : Option ℕ × List ℕ). Reserved bytes 0 r.0 r.1) e (reserve_next_free_lem bytes))
  where
    from :
        Reserved bytes 0 (some i) bytes'
        → (is_used bytes i ≡ some false)
          × (is_used bytes' i ≡ some true)
          × (length bytes' ≡ length bytes)
    from (full nothing same all) = cc
    from (got j found clear below change size) =
        let none_before : 0 * 8 + j ≡ j = omega arith in
        let same : i ≡ j = some_same found ∙ none_before in
        let t : (j == j) ≡ true = ground arith in rw same (clear, change j ∙ rw t refl, size)
      where
        some_same : {x y : ℕ} → some x ≡ some y → x ≡ y
        some_same e = cc

module _ {S : Type 0} (driver : BlockDeviceDriver S) (fs : FileSystem) (sb : Superblock)
    (ratio per_block : ℕ) (m : IsMounted driver fs sb ratio per_block) (s : S) (parent : Inode)
    (parent_number : ℕ) (name : List ℕ) (group local : ℕ) (d : BlockGroupDescriptor)
    (directory : is_dir parent ≡ true)
    (location : inode_location sb parent_number ≡ ret (group, local))
    (found : get fs.block_group_descriptors group ≡ some d)
    (inode_range : (d.inode_bitmap + 1) * ratio < 2 ^ 64)
    (block_range : (d.block_bitmap + 1) * ratio < 2 ^ 64) where
  -- Creating a file in a group without a free inode returns nothing and changes nothing. With a free
  -- inode but without a free block it returns nothing either, and the inode stays reserved: its bit was
  -- clear and is set in the bitmap on the device afterwards.
  pub create_file-refused :
      (reserve_next_free (block_bytes driver s ratio d.inode_bitmap)
          ≡ (none, block_bytes driver s ratio d.inode_bitmap)
        → create_file driver s fs parent parent_number name ≡ ret (some (none, s)))
      × ((i : ℕ) (bytes : List ℕ)
          → reserve_next_free (block_bytes driver s ratio d.inode_bitmap) ≡ (some i, bytes)
          → d.block_bitmap ≢ d.inode_bitmap
          → reserve_next_free (block_bytes driver s ratio d.block_bitmap)
            ≡ (none, block_bytes driver s ratio d.block_bitmap)
          → (t : S) × (create_file driver s fs parent parent_number name ≡ ret (some (none, t)))
            × (is_used (block_bytes driver s ratio d.inode_bitmap) i ≡ some false)
            × (is_used (block_bytes driver t ratio d.inode_bitmap) i ≡ some true))
  unfolding create_file inode_bitmap_block block_bitmap_block
  create_file-refused = (
    (λ nothing.
        rw
          (
            directory,
            m.view,
            location,
            found,
            read_block driver fs sb ratio per_block m s d.inode_bitmap inode_range,
            nothing,
          )
          refl),
    λ i bytes some_inode apart nothing.
        let (clear, used, size) =
          reserved_bit (block_bytes driver s ratio d.inode_bitmap) i bytes some_inode in
        let whole : length bytes ≡ fs.block_size =
          size ∙ length-block_bytes driver fs sb ratio per_block m s d.inode_bitmap in
        let t = driver.write_device_blocks s (d.inode_bitmap * ratio) bytes in
        let here = block_bytes-write driver fs sb ratio per_block m s d.inode_bitmap bytes whole in
        let other =
          block_bytes-write_ne driver fs sb ratio per_block m s d.inode_bitmap bytes whole
            d.block_bitmap apart in
        (
          t,
          rw
              (
                directory,
                m.view,
                location,
                found,
                read_block driver fs sb ratio per_block m s d.inode_bitmap inode_range,
                some_inode,
                flush_block driver fs sb ratio per_block m s d.inode_bitmap bytes whole,
                read_block driver fs sb ratio per_block m t d.block_bitmap block_range,
                other,
                nothing,
              )
              refl,
          clear,
          rw here used,
        ),
  )
