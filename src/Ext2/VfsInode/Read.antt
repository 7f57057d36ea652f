-- ===== src/Ext2/VfsInode/Read.antt =====
-- What a read of a file returns.
use rust_os.Prelude.{
  ℕ, zero, suc, ◌+◌, ◌-◌, ◌*◌, ◌/◌, ◌%◌, ◌^◌, ◌≤◌, ◌<◌, min, ◌≡◌, refl, sym, ap, ◌∙◌, ◌≢◌, inl, inr,
  true, ◌&&◌, some, List, arith, ltb, leb, ◌==◌, if◌then◌else◌, Bool-cases, length, get_elem?,
  get_elem?-some, ret, div_ceil, slice, splice, length-slice, length-splice, slice-append,
  splice_nil, splice-splice,
}
use native.Mathlib.Nat.{mul-mod_left, div-add-mod, mod-lt}
use rust_os.Block.{BlockDeviceDriver}
use rust_os.Vfs.{success, done}
use rust_os.Ext2.{Superblock, Inode, inode_size_of, is_file}
use rust_os.Ext2.FileSystem.{FileSystem}
use rust_os.Ext2.FileSystem.Inodes.{IsMounted, length-block_bytes}
use rust_os.Ext2.VfsInode.{read_file_blocks, read}
use rust_os.Ext2.VfsInode.Contents.{
  contents, read_inode_block_lem, slice-block_bytes, length-contents,
}

-- The direct blocks are inside the device's range.
abbrev pub InRange : ℕ → List ℕ → Type 0
InRange ratio blocks =
    (index block : ℕ) → get_elem? blocks index ≡ some block → (block + 1) * ratio < 2 ^ 64

div_ceil_bounds : (a b : ℕ) → 0 < b → (a ≤ div_ceil a b * b) × (div_ceil a b * b < a + b)
div_ceil_bounds a b h = elim (Bool-cases (a % b == 0)) [
  | inl exact ↦
      let zero_rest : a % b ≡ 0 = ground (arith, exact) in
      let whole : a / b * b ≡ a = grind (arith, div-add-mod a b) in
      rw exact (omega arith, omega arith)
  | inr more ↦
      let some_rest : a % b ≢ 0 = ground (arith, more) in
      let split : (a / b + 1) * b + a % b ≡ a + b = grind (arith, div-add-mod a b) in
      let part : a % b < b = mod-lt a h in rw more (omega arith, omega arith)
]

module _ {S : Type 0} (driver : BlockDeviceDriver S) (fs : FileSystem) (sb : Superblock)
    (ratio per_block : ℕ) (m : IsMounted driver fs sb ratio per_block) (s : S) (inode : Inode)
    (range : InRange ratio inode.direct_blocks) where
  abbrev content : List ℕ
  content = contents driver s ratio inode.direct_blocks

  -- One round of the loop, from the first byte of a block on.
  read_one :
      (left block bytes_read end : ℕ) (buffer : List ℕ)
      → block * fs.block_size < end
      → end ≤ length inode.direct_blocks * fs.block_size
      → bytes_read + (end - block * fs.block_size) ≤ length buffer
      → (k : ℕ) → k ≡ min fs.block_size (end - block * fs.block_size)
      → read_file_blocks driver s fs inode fs.block_size end
          (suc left)
          block
          (block * fs.block_size)
          bytes_read
          buffer
        ≡ read_file_blocks driver s fs inode fs.block_size end left
            (block + 1)
            (block * fs.block_size + k)
            (bytes_read + k)
            (splice buffer bytes_read (slice content (block * fs.block_size) k))
  unfolding read_file_blocks
  read_one left block bytes_read end buffer more inside room k is_min =
      let cur = block * fs.block_size in
      let direct : block < length inode.direct_blocks = grind arith in
      let (a, e) = get_elem?-some inode.direct_blocks block direct in
      let size = length-block_bytes driver fs sb ratio per_block m s a in
      let aligned : cur % fs.block_size ≡ 0 = mul-mod_left block fs.block_size in
      let rest : k - 0 ≡ k = omega arith in
      let part =
        slice-block_bytes driver fs sb ratio per_block m s inode.direct_blocks block k e
          (omega arith) in
      let len : length (slice content cur k) ≡ k =
        length-slice content cur k
          (omega (arith, length-contents driver fs sb ratio per_block m s inode.direct_blocks)) in
      let t1 : leb cur end ≡ true = ground arith in
      let t2 : (leb 0 k && leb k fs.block_size) ≡ true = ground arith in
      let t3 : leb (bytes_read + k) (length buffer) ≡ true = ground arith in
      rw
        (
          read_inode_block_lem driver fs sb ratio per_block m s inode block e (range block a e),
          t1,
          aligned,
          ← is_min,
          rest,
          size,
          t2,
          part,
          len,
          t3,
        )
        refl

  -- The loop from a block's first byte on: so many blocks are left that the last one holds the end.
  read_file_blocks_lem :
      (left block bytes_read end : ℕ) (buffer : List ℕ)
      → block * fs.block_size ≤ end
      → end ≤ (block + left) * fs.block_size
      → (0 < left → (block + left) * fs.block_size < end + fs.block_size)
      → end ≤ length inode.direct_blocks * fs.block_size
      → bytes_read + (end - block * fs.block_size) ≤ length buffer
      → read_file_blocks driver s fs inode fs.block_size end left block
          (block * fs.block_size)
          bytes_read
          buffer
        ≡ ret (
          splice buffer bytes_read
              (slice content (block * fs.block_size) (end - block * fs.block_size)),
          bytes_read + (end - block * fs.block_size),
        )
  unfolding read_file_blocks
  read_file_blocks_lem zero block bytes_read end buffer start last tight inside room =
      let whole : block + 0 ≡ block = omega arith in
      let low : end ≤ block * fs.block_size =
        ground (arith, last, ap (λ (b : ℕ). b * fs.block_size) whole) in
      let nothing : end - block * fs.block_size ≡ 0 = omega arith in
      let none_read : bytes_read + 0 ≡ bytes_read = omega arith in
      rw (nothing, none_read, splice_nil buffer bytes_read (omega arith)) refl
  read_file_blocks_lem (suc zero) block bytes_read end buffer start last tight inside room =
      let here : (block + 1) * fs.block_size ≡ block * fs.block_size + fs.block_size =
        grind arith in
      let close = tight (omega arith) in
      let k = end - block * fs.block_size in
      let is_min : k ≡ min fs.block_size (end - block * fs.block_size) = omega arith in
      read_one zero block bytes_read end buffer (omega arith) inside room k is_min
  read_file_blocks_lem (suc (suc left)) block bytes_read end buffer start last tight inside room =
      let size = fs.block_size in
      let cur = block * size in
      let blocks : (block + suc (suc left)) * size ≡ cur + size + size + left * size =
        grind arith in
      let next : (block + 1) * size ≡ cur + size = grind arith in
      let same : block + suc (suc left) ≡ block + 1 + suc left = omega arith in
      let close = tight (omega arith) in
      let part = slice content cur size in
      let len : length part ≡ size =
        length-slice content cur size
          (omega (arith, length-contents driver fs sb ratio per_block m s inode.direct_blocks)) in
      let kept = length-splice buffer bytes_read part (omega arith) in
      let again =
        read_file_blocks_lem (suc left) (block + 1) (bytes_read + size) end
          (splice buffer bytes_read part) (omega arith) (rw (← same) last) (λ _. rw (← same) close)
          inside (omega arith) in
      let rest : size + (end - (cur + size)) ≡ end - cur = omega arith in
      let count : bytes_read + size + (end - (cur + size)) ≡ bytes_read + (end - cur) =
        omega arith in
      let whole : splice (splice buffer bytes_read part) (bytes_read + size)
            (slice content (cur + size) (end - (cur + size)))
          ≡ splice buffer bytes_read (slice content cur (end - cur)) =
        ap
          (λ (n : ℕ).
            splice (splice buffer bytes_read part) (bytes_read + n)
              (slice content (cur + size) (end - (cur + size))))
          (sym len)
        ∙ splice-splice buffer bytes_read part (slice content (cur + size) (end - (cur + size)))
        ∙ ap (splice buffer bytes_read) (slice-append content cur size (end - (cur + size)))
        ∙ ap (λ (n : ℕ). splice buffer bytes_read (slice content cur n)) rest in
      read_one (suc left) block bytes_read end buffer (omega arith) inside room size (omega arith)
      ∙ ap
          (λ (c : ℕ).
            read_file_blocks driver s fs inode size end (suc left) (block + 1) c (bytes_read + size)
              (splice buffer bytes_read part))
          (sym next)
      ∙ again
      ∙ rw (next, count, whole) refl

  -- A read of a regular file from the beginning of a block on, with the end of the content in direct
  -- blocks: it does not panic, the buffer begins with exactly the bytes of the file from the offset to
  -- its end or the buffer's, the bytes behind them are as before, and the result says whether that was
  -- the end of the file, with the number of bytes that were read.
  pub read_lem :
      (block : ℕ) (buffer : List ℕ)
      → is_file inode ≡ true
      → block * fs.block_size ≤ inode_size_of sb inode
      → inode_size_of sb inode ≤ length inode.direct_blocks * fs.block_size
      → block * fs.block_size + length buffer < 2 ^ 64
      → (count : ℕ) → count ≡ min (inode_size_of sb inode - block * fs.block_size) (length buffer)
      → read driver s fs inode buffer (block * fs.block_size)
        ≡ ret (
          splice buffer 0 (slice content (block * fs.block_size) count),
          if block * fs.block_size + count == inode_size_of sb inode then done count else success,
        )
  unfolding read
  read_lem block buffer regular start inside small count is_count =
      let size = fs.block_size in
      let offset = block * size in
      let file_size = inode_size_of sb inode in
      let end = min file_size (offset + length buffer) in
      let positive = m.positive in
      let is_end : end ≡ offset + count = omega arith in
      let (high, low) = div_ceil_bounds end size positive in
      let first : offset / size ≡ block = grind arith in
      let blocks : block ≤ div_ceil end size = grind arith in
      let left = div_ceil end size - block in
      let sum : block + left ≡ div_ceil end size = omega arith in
      let t1 : ltb (offset + length buffer) (2 ^ 64) ≡ true = ground arith in
      let t2 : ltb 0 size ≡ true = ground arith in
      let rest : end - offset ≡ count = omega arith in
      let none_before : 0 + count ≡ count = omega arith in
      let loop =
        read_file_blocks_lem left block 0 end buffer (omega arith) (rw sum high) (λ _. rw sum low)
          (omega arith) (omega arith) in
      rw (regular, m.view, m.size, t1, t2, first, loop, rest, none_before, is_end) refl
