-- ===== src/Ext2/FileSystem/Inodes.antt =====
-- Inodes written to the device and read back.
use rust_os.Prelude.{
  ℕ, ◌+◌, ◌*◌, ◌%◌, ◌^◌, ◌≤◌, ◌<◌, ◌≡◌, refl, sym, subst, ◌∙◌, ◌≢◌, ◌⊎◌, inl, inr, Bool, true,
  false, Option, none, some, List, arith, dec_lt, ℕ_discrete, ltb, ◌==◌, lt→ltb, length, ret,
}
use native.Mathlib.Nat.{mul-le-mul_left, mul-le-mul_right, mul-mod_left}
use rust_os.Block.{BlockDeviceDriver, BlockBuffer, read_blocks, flush}
use rust_os.Block.Buffers.{read_blocks_lem}
use rust_os.Transmute.{from_prefix_offset, try_cast_bytes_ref_offset}
use rust_os.Transmute.Layouts.{◌⊕◌, as_struct}
use rust_os.Transmute.Access.{packed-is_aligned, cast_packed, cast_offset-write_offset}
use rust_os.Ext2.{
  Superblock, Inode, BlockGroupDescriptor, block_size, inode_location, inode_block_and_offset,
}
use rust_os.Ext2.Location.{inode_block_and_offset_lem}
use rust_os.Ext2.Layouts.{inode_layout}
use rust_os.Ext2.Bitmap.{is_used}
use rust_os.Ext2.FileSystem.{
  FileSystem, superblock_of, get, inode_bitmap_block, inode_block, read_used, read_inode,
  write_inode,
}

-- A file system with this superblock: its blocks are a number of device blocks and a number of
-- inodes, and an inode of the source fits into an inode of the disk.
pub record IsMounted {S : Type 0} (driver : BlockDeviceDriver S) (fs : FileSystem) (sb : Superblock)
    (ratio per_block : ℕ) : Type 0 where
  pub view : superblock_of fs ≡ ret sb
  pub size : block_size sb ≡ ret fs.block_size
  pub device : fs.block_size ≡ ratio * driver.device_block_size
  pub positive : 0 < fs.block_size
  pub inodes : fs.block_size ≡ per_block * sb.inode_size
  pub room : inode_layout.size_of ≤ sb.inode_size

-- The inode with this number is at this place of its group's table, and the block is not the bitmap's.
pub record IsSlot (fs : FileSystem) (sb : Superblock) (ratio n : ℕ) (d : BlockGroupDescriptor)
    (local block at : ℕ) : Type 0 where
  pub group : ℕ
  pub location : inode_location sb n ≡ ret (group, local)
  pub found : get fs.block_group_descriptors group ≡ some d
  pub place : inode_block_and_offset sb d.inode_table local ≡ ret (block, at)
  pub table_range : d.inode_table + sb.inode_size * local < 2 ^ 64
  pub bitmap_range : (d.inode_bitmap + 1) * ratio < 2 ^ 64
  pub block_range : (block + 1) * ratio < 2 ^ 64
  pub not_bitmap : d.inode_bitmap ≢ block

-- One block of the file system.
abbrev pub block_bytes : {S : Type 0} → BlockDeviceDriver S → S → ℕ → ℕ → List ℕ
block_bytes driver s ratio block = driver.read_device_blocks s (block * ratio) (1 * ratio)

abbrev pub block_buffer : {S : Type 0} → BlockDeviceDriver S → S → ℕ → ℕ → BlockBuffer
block_buffer driver s ratio block = record {
  device_start_block = block * ratio;
  device_num_blocks = 1 * ratio;
  address = driver.read_address s (block * ratio) (1 * ratio);
  bytes = block_bytes driver s ratio block;
}

inode_is_packed : inode_layout.align_of ≡ 1
unfolding inode_layout as_struct ◌⊕◌
inode_is_packed = refl

-- The address of a buffer does not matter for an inode.
inode_cast :
    (address : ℕ) (bytes : List ℕ) (at : ℕ)
    → try_cast_bytes_ref_offset inode_layout address bytes at
      ≡ from_prefix_offset inode_layout bytes at
inode_cast address bytes at = cast_packed inode_layout address bytes at inode_is_packed

module _ {S : Type 0} (driver : BlockDeviceDriver S) (fs : FileSystem) (sb : Superblock)
    (ratio per_block : ℕ) (m : IsMounted driver fs sb ratio per_block) where
  pub device_positive : 0 < driver.device_block_size
  device_positive = grind (arith, m.device, m.positive)

  pub read_block :
      (s : S) (block : ℕ)
      → (block + 1) * ratio < 2 ^ 64
      → read_blocks driver s fs.block_size block 1 ≡ ret (block_buffer driver s ratio block)
  read_block s block range =
      rw m.device (read_blocks_lem driver s ratio block 1 device_positive range s)

  pub length-block_bytes :
      (s : S) (block : ℕ) → length (block_bytes driver s ratio block) ≡ fs.block_size
  length-block_bytes s block =
      driver.length-read s (block * ratio) (1 * ratio) ∙ grind (arith, m.device)

  module _ (n : ℕ) (d : BlockGroupDescriptor) (local block at : ℕ)
      (slot : IsSlot fs sb ratio n d local block at) where
    -- The inode is inside its block, at its index times the size of an inode.
    slot_fits :
        (block * fs.block_size + at ≡ d.inode_table * fs.block_size + sb.inode_size * local)
        × (at + sb.inode_size ≤ fs.block_size)
    slot_fits =
        let some_bytes : 0 < sb.inode_size = grind (arith, m.inodes, m.positive) in
        let (block', at', place, sum, fits) =
          inode_block_and_offset_lem sb d.inode_table local fs.block_size per_block m.size
            m.positive m.inodes some_bytes slot.table_range in
        let one : (block', at') ≡ (block, at) = ret_same (sym place ∙ slot.place) in
        subst
          (λ (p : ℕ × ℕ).
            (p.0 * fs.block_size + p.1 ≡ d.inode_table * fs.block_size + sb.inode_size * local)
            × (p.1 + sb.inode_size ≤ fs.block_size))
          one (sum, fits)
      where
        ret_same : {x y : ℕ × ℕ} → ret x ≡ ret y → x ≡ y
        ret_same e = cc

    slot_inode_block :
        (s : S) → inode_block driver s fs d local ≡ ret (block_buffer driver s ratio block, at)
    unfolding inode_block
    slot_inode_block s = rw (m.view, slot.place, read_block s block slot.block_range)

    slot_read :
        (s : S)
        → read_inode driver s fs n
          ≡ read_used driver s fs d local
              (is_used (block_bytes driver s ratio d.inode_bitmap) local)
    unfolding read_inode inode_bitmap_block
    slot_read s =
        rw (m.view, slot.location, slot.found, read_block s d.inode_bitmap slot.bitmap_range)

  -- A changed block is written, and only it has changed.
  pub flush_block :
      (s : S) (block : ℕ) (bytes : List ℕ)
      → length bytes ≡ fs.block_size
      → flush driver s (record (block_buffer driver s ratio block) { bytes = bytes })
        ≡ ret (driver.write_device_blocks s (block * ratio) bytes)
  unfolding flush
  flush_block s block bytes h =
      let p : ltb 0 driver.device_block_size ≡ true =
        lt→ltb 0 driver.device_block_size device_positive in
      let z : length bytes % driver.device_block_size ≡ 0 =
        rw (h, m.device) (mul-mod_left ratio driver.device_block_size) in
      let t : (length bytes % driver.device_block_size == 0) ≡ true = rw z refl in rw (p, t)

  module _ (s : S) (block : ℕ) (bytes : List ℕ) (whole : length bytes ≡ fs.block_size) where
    in_device_blocks : length bytes ≡ 1 * ratio * driver.device_block_size
    in_device_blocks = grind (arith, whole, m.device)

    pub block_bytes-write :
        block_bytes driver (driver.write_device_blocks s (block * ratio) bytes) ratio block ≡ bytes
    block_bytes-write = driver.read-write s (block * ratio) (1 * ratio) bytes in_device_blocks

    pub block_bytes-write_ne :
        (other : ℕ)
        → other ≢ block
        → block_bytes driver (driver.write_device_blocks s (block * ratio) bytes) ratio other
          ≡ block_bytes driver s ratio other
    block_bytes-write_ne other ne =
        driver.read-write_apart s (block * ratio) (1 * ratio) bytes (other * ratio) (1 * ratio)
          in_device_blocks apart
      where
        apart :
            other * ratio + 1 * ratio ≤ block * ratio ⊎ block * ratio + 1 * ratio ≤ other * ratio
        apart = elim (dec_lt other block) [
          | yes low ↦
              inl (grind (arith, mul-le-mul_right {m = other + 1} {n = block} ratio (omega arith)))
          | no high ↦
              inr (grind (arith, mul-le-mul_right {m = block + 1} {n = other} ratio (omega arith)))
        ]

  -- Two inodes of a table that lie in the same block do not overlap.
  slots_apart :
      (n : ℕ) (d : BlockGroupDescriptor) (local block at n' local' at' : ℕ)
      → IsSlot fs sb ratio n d local block at
      → IsSlot fs sb ratio n' d local' block at'
      → local' ≢ local
      → at' + inode_layout.size_of ≤ at ⊎ at + inode_layout.size_of ≤ at'
  slots_apart n d local block at n' local' at' slot slot' ne =
      let sum = (slot_fits n d local block at slot).0 in
      let sum' = (slot_fits n' d local' block at' slot').0 in
      let room = m.room in
      let size = sb.inode_size in
      elim (dec_lt local' local) [
        | yes low ↦
            let step : size * (local' + 1) ≤ size * local = mul-le-mul_left size (omega arith) in
            let one : size * (local' + 1) ≡ size * local' + size = grind arith in inl (omega arith)
        | no high ↦
            let step : size * (local + 1) ≤ size * local' = mul-le-mul_left size (omega arith) in
            let one : size * (local + 1) ≡ size * local + size = grind arith in inr (omega arith)
      ]

  -- States whose device holds the same inode at a place are read in the same way.
  read_used_same :
      (s t : S) (n : ℕ) (d : BlockGroupDescriptor) (local block at : ℕ)
      → IsSlot fs sb ratio n d local block at
      → from_prefix_offset inode_layout (block_bytes driver t ratio block) at
        ≡ from_prefix_offset inode_layout (block_bytes driver s ratio block) at
      → (used : Option Bool)
      → read_used driver t fs d local used ≡ read_used driver s fs d local used
  read_used_same s t n d local block at slot same none = refl
  read_used_same s t n d local block at slot same (some false) = refl
  read_used_same s t n d local block at slot same (some true) =
      rw
        (
          slot_inode_block n d local block at slot t,
          slot_inode_block n d local block at slot s,
          inode_cast (block_buffer driver t ratio block).address
              (block_buffer driver t ratio block).bytes at,
          inode_cast (block_buffer driver s ratio block).address
              (block_buffer driver s ratio block).bytes at,
          same,
        )
        refl

  -- An inode's number is marked as used and its fields fit into their words: then writing it does
  -- not panic, reading the number gives the inode, any other inode of the table is read as before, and
  -- no block but the inode's has changed.
  pub read_inode-write_inode :
      (s : S) (n : ℕ) (d : BlockGroupDescriptor) (local block at : ℕ) (inode : Inode)
      → IsSlot fs sb ratio n d local block at
      → is_used (block_bytes driver s ratio d.inode_bitmap) local ≡ some true
      → inode_layout.is_value inode ≡ true
      → (t : S) × (write_inode driver s fs inode n ≡ ret t)
        × (read_inode driver t fs n ≡ ret (some inode))
        × ((n' local' block' at' : ℕ)
            → IsSlot fs sb ratio n' d local' block' at'
            → local' ≢ local
            → read_inode driver t fs n' ≡ read_inode driver s fs n')
        × ((b : ℕ) → b ≢ block → block_bytes driver t ratio b ≡ block_bytes driver s ratio b)
  unfolding write_inode inode_bitmap_block
  read_inode-write_inode s n d local block at inode slot used value =
      let raw = block_bytes driver s ratio block in
      let size = length-block_bytes s block in
      let (sum, fits) = slot_fits n d local block at slot in
      let room = m.room in
      let from = (block_buffer driver s ratio block).address in
      let even = packed-is_aligned inode_layout (from + at) inode_is_packed in
      let (bytes, wrote, same, back, others) =
        (cast_offset-write_offset inode_layout from raw at inode value).0 even (omega arith) in
      let t = driver.write_device_blocks s (block * ratio) bytes in
      let there = (block_buffer driver t ratio block).address in
      let again : try_cast_bytes_ref_offset inode_layout there bytes at ≡ some inode =
        inode_cast there bytes at ∙ sym (inode_cast from bytes at) ∙ back in
      let whole : length bytes ≡ fs.block_size = same ∙ size in
      let here = block_bytes-write s block bytes whole in
      let bitmap = block_bytes-write_ne s block bytes whole d.inode_bitmap slot.not_bitmap in
      (
        t,
        rw
            (
              m.view,
              slot.location,
              slot.found,
              read_block s d.inode_bitmap slot.bitmap_range,
              used,
              slot_inode_block n d local block at slot s,
              wrote,
            )
            (flush_block s block bytes whole),
        rw
            (
              slot_read n d local block at slot t,
              bitmap,
              used,
              slot_inode_block n d local block at slot t,
              here,
              again,
            )
            refl,
        λ n' local' block' at' slot' ne.
            let unchanged : from_prefix_offset inode_layout (block_bytes driver t ratio block') at'
                ≡ from_prefix_offset inode_layout (block_bytes driver s ratio block') at' =
              elim (ℕ_discrete block' block) [
                | yes one ↦
                    let slot2 : IsSlot fs sb ratio n' d local' block at' =
                      subst (λ (b : ℕ). IsSlot fs sb ratio n' d local' b at') one slot' in
                    rw (one, here)
                      (sym (inode_cast from bytes at')
                        ∙ others Inode inode_layout at'
                            (slots_apart n d local block at n' local' at' slot slot2 ne)
                        ∙ inode_cast from raw at')
                | no other ↦ rw (block_bytes-write_ne s block bytes whole block' other) refl
              ] in
            rw
              (
                slot_read n' d local' block' at' slot' t,
                slot_read n' d local' block' at' slot' s,
                bitmap,
              )
              (read_used_same s t n' d local' block' at' slot' unchanged
                (is_used (block_bytes driver s ratio d.inode_bitmap) local')),
        block_bytes-write_ne s block bytes whole,
      )
