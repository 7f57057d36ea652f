-- ===== src/Ext2/VfsInode/Unaligned.antt =====
-- Reads that begin inside a block.
use rust_os.Prelude.{
  ℕ, ◌+◌, ◌-◌, ◌*◌, ◌/◌, ◌%◌, ◌^◌, ◌≤◌, ◌<◌, min, ◌≡◌, refl, ◌≢◌, inl, inr, true, false, ◌&&◌, List,
  arith, dec_lt, ltb, leb, ◌==◌, if◌then◌else◌, lt→ltb, Bool-cases, length, get_elem?-some, ret,
  panic, div_ceil, slice, splice, length-slice,
}
use native.Mathlib.Nat.{div-add-mod, mod-lt}
use rust_os.Block.{BlockDeviceDriver}
use rust_os.Vfs.{success, done}
use rust_os.Ext2.{Superblock, Inode, inode_size_of, is_file}
use rust_os.Ext2.FileSystem.{FileSystem}
use rust_os.Ext2.FileSystem.Inodes.{IsMounted, length-block_bytes}
use rust_os.Ext2.VfsInode.{read_file_blocks, read}
use rust_os.Ext2.VfsInode.Contents.{
  contents, read_inode_block_lem, length-contents, slice-block_bytes_from,
}
use rust_os.Ext2.VfsInode.Read.{InRange}

module _ {S : Type 0} (driver : BlockDeviceDriver S) (fs : FileSystem) (sb : Superblock)
    (ratio per_block : ℕ) (m : IsMounted driver fs sb ratio per_block) (s : S) (inode : Inode)
    (range : InRange ratio inode.direct_blocks) where
  abbrev content : List ℕ
  content = contents driver s ratio inode.direct_blocks

  one_block :
      (end block r : ℕ)
      → block * fs.block_size + r < end
      → end ≤ block * fs.block_size + fs.block_size
      → div_ceil end fs.block_size ≡ block + 1
  one_block end block r low high = elim (Bool-cases (end % fs.block_size == 0)) [
    | inl exact ↦
        let zero_rest : end % fs.block_size ≡ 0 = ground (arith, exact) in
        let split = div-add-mod end fs.block_size in rw exact (grind arith)
    | inr more ↦
        let some_rest : end % fs.block_size ≢ 0 = ground (arith, more) in
        let split = div-add-mod end fs.block_size in
        let part : end % fs.block_size < fs.block_size = mod-lt end m.positive in
        rw more (grind arith)
  ]

  -- A read of `count` bytes of a regular file, up to its end or the buffer's, that begins `r` bytes
  -- inside a block and ends in the same block. The code takes the length as the end of the part of
  -- the block: it panics if fewer than `r` bytes are to be read, and otherwise reads `r` bytes too few.
  pub read_unaligned :
      (block r : ℕ) (buffer : List ℕ)
      → is_file inode ≡ true
      → 0 < r
      → r < fs.block_size
      → inode_size_of sb inode ≤ length inode.direct_blocks * fs.block_size
      → block * fs.block_size + r + length buffer < 2 ^ 64
      → (count : ℕ) → 0 < count
      → count ≡ min (inode_size_of sb inode - (block * fs.block_size + r)) (length buffer)
      → r + count ≤ fs.block_size
      → read driver s fs inode buffer (block * fs.block_size + r) ≡ (
          if ltb count r
          then panic
          else ret (
            splice buffer 0 (slice content (block * fs.block_size + r) (count - r)),
            if block * fs.block_size + r + count == inode_size_of sb inode
                then done (count - r)
                else success,
          ))
  unfolding read read_file_blocks
  read_unaligned block r buffer regular some_bytes low inside small count more is_count one =
      let size = fs.block_size in
      let offset = block * size + r in
      let file_size = inode_size_of sb inode in
      let end = min file_size (offset + length buffer) in
      let is_end : end ≡ offset + count = omega arith in
      let t1 : ltb (offset + length buffer) (2 ^ 64) ≡ true = ground arith in
      let t2 : ltb 0 size ≡ true = lt→ltb 0 size m.positive in
      let first : offset / size ≡ block = grind arith in
      let at : offset % size ≡ r = grind arith in
      let last : div_ceil (offset + count) size ≡ block + 1 =
        one_block (offset + count) block r (omega arith) (omega arith) in
      let left : block + 1 - block ≡ 1 = omega arith in
      let direct : block < length inode.direct_blocks = grind arith in
      let (a, e) = get_elem?-some inode.direct_blocks block direct in
      let len = length-block_bytes driver fs sb ratio per_block m s a in
      let t3 : leb offset (offset + count) ≡ true = ground arith in
      let rest : offset + count - offset ≡ count = omega arith in
      let slice_end : min size count ≡ count = omega arith in
      let block_read =
        read_inode_block_lem driver fs sb ratio per_block m s inode block e (range block a e) in
      elim (dec_lt count r) [
        | yes short ↦
            let t4 : (leb r count && leb count size) ≡ false = ground arith in
            let t5 : ltb count r ≡ true = ground arith in
            rw
              (
                regular, m.view, m.size, t1, t2, is_end, first, last, left, block_read, t3, at,
                rest, slice_end, len, t4, t5,
              )
              refl
        | no long ↦
            let t4 : (leb r count && leb count size) ≡ true = ground arith in
            let t5 : ltb count r ≡ false = ground arith in
            let part =
              slice-block_bytes_from driver fs sb ratio per_block m s inode.direct_blocks block r
                (count - r) e (omega arith) in
            let part_len : length (slice content offset (count - r)) ≡ count - r =
              length-slice content offset (count - r) (
                omega
                  (arith, length-contents driver fs sb ratio per_block m s inode.direct_blocks)) in
            let t6 : leb (0 + (count - r)) (length buffer) ≡ true = ground arith in
            let none_before : 0 + (count - r) ≡ count - r = omega arith in
            rw
              (
                regular, m.view, m.size, t1, t2, is_end, first, last, left, block_read, t3, at,
                rest, slice_end, len, t4, t5, part, part_len, t6, none_before,
              )
              refl
      ]
