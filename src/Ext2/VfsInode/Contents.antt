-- ===== src/Ext2/VfsInode/Contents.antt =====
-- The content of a file: the bytes of its direct blocks, one after the other.
use rust_os.Prelude.{
  ℕ, zero, suc, ◌+◌, ◌*◌, ◌^◌, ◌≤◌, ◌<◌, ◌≡◌, refl, sym, ap, ◌∙◌, some, List, [], ◌∷◌, ◌++◌, arith,
  length, get_elem?, length-append, drop, ret, slice, get_elem?-drop, get_elem?-append_left,
  take-append_left, drop-append, slice_ext, drop-drop,
}
use rust_os.Block.{BlockDeviceDriver}
use rust_os.Ext2.{Superblock, Inode}
use rust_os.Ext2.FileSystem.{FileSystem, read_inode_block}
use rust_os.Ext2.FileSystem.Inodes.{
  IsMounted, block_bytes, block_buffer, read_block, length-block_bytes,
}

abbrev pub contents : {S : Type 0} → BlockDeviceDriver S → S → ℕ → List ℕ → List ℕ
contents driver s ratio [] = []
contents driver s ratio (block ∷ blocks) =
    block_bytes driver s ratio block ++ contents driver s ratio blocks

module _ {S : Type 0} (driver : BlockDeviceDriver S) (fs : FileSystem) (sb : Superblock)
    (ratio per_block : ℕ) (m : IsMounted driver fs sb ratio per_block) (s : S) where
  pub length-contents :
      (blocks : List ℕ) → length (contents driver s ratio blocks) ≡ length blocks * fs.block_size
  length-contents [] = omega arith
  length-contents (block ∷ blocks) =
      let one = length-block_bytes driver fs sb ratio per_block m s block in
      let rest = length-contents blocks in
      length-append (block_bytes driver s ratio block) (contents driver s ratio blocks)
      ∙ rw (one, rest) (grind arith)

  -- A block of the content.
  pub drop-contents :
      (blocks : List ℕ) (index : ℕ) {block : ℕ}
      → get_elem? blocks index ≡ some block
      → drop (index * fs.block_size) (contents driver s ratio blocks)
        ≡ block_bytes driver s ratio block
          ++ drop ((index + 1) * fs.block_size) (contents driver s ratio blocks)
  drop-contents [] index e = cc
  drop-contents (b ∷ blocks) zero {block} e =
      let one = length-block_bytes driver fs sb ratio per_block m s b in
      let same : b ≡ block = some_same e in
      let start : 0 * fs.block_size ≡ 0 = omega arith in
      let end : (0 + 1) * fs.block_size ≡ fs.block_size = omega arith in
      rw
        (
          start,
          end,
          ← one,
          drop-append (block_bytes driver s ratio b) (contents driver s ratio blocks),
          same,
        )
        refl
    where
      some_same : {x y : ℕ} → some x ≡ some y → x ≡ y
      some_same e = cc
  drop-contents (b ∷ blocks) (suc index) e =
      let one = length-block_bytes driver fs sb ratio per_block m s b in
      let whole = block_bytes driver s ratio b ++ contents driver s ratio blocks in
      let rest = drop-append (block_bytes driver s ratio b) (contents driver s ratio blocks) in
      let skip : (k : ℕ)
          → drop (suc k * fs.block_size) whole
            ≡ drop (k * fs.block_size) (contents driver s ratio blocks) =
        (λ k.
          let sum : suc k * fs.block_size
              ≡ length (block_bytes driver s ratio b) + k * fs.block_size =
            grind arith in
          rw sum (
            sym (drop-drop (k * fs.block_size) (length (block_bytes driver s ratio b)) whole)
            ∙ ap (drop (k * fs.block_size)) rest)) in
      let next : suc index + 1 ≡ suc (index + 1) = omega arith in
      rw (next, skip index, skip (index + 1)) (drop-contents blocks index e)

  -- Reading a block of the file gives its part of the content.
  pub read_inode_block_lem :
      (inode : Inode) (index : ℕ) {block : ℕ}
      → get_elem? inode.direct_blocks index ≡ some block
      → (block + 1) * ratio < 2 ^ 64
      → read_inode_block driver s fs inode index ≡ ret (block_buffer driver s ratio block)
  unfolding read_inode_block
  read_inode_block_lem inode index {block} e range =
      rw e (read_block driver fs sb ratio per_block m s block range)

  pub slice-block_bytes :
      (blocks : List ℕ) (index num : ℕ) {block : ℕ}
      → get_elem? blocks index ≡ some block
      → num ≤ fs.block_size
      → slice (block_bytes driver s ratio block) 0 num
        ≡ slice (contents driver s ratio blocks) (index * fs.block_size) num
  slice-block_bytes blocks index num {block} e h =
      let one = length-block_bytes driver fs sb ratio per_block m s block in
      rw (drop-contents blocks index e) (
        sym (
          take-append_left num (block_bytes driver s ratio block)
            (drop ((index + 1) * fs.block_size) (contents driver s ratio blocks)) (omega arith)))

  -- The same from a byte inside the block on.
  pub slice-block_bytes_from :
      (blocks : List ℕ) (index start num : ℕ) {block : ℕ}
      → get_elem? blocks index ≡ some block
      → start + num ≤ fs.block_size
      → slice (block_bytes driver s ratio block) start num
        ≡ slice (contents driver s ratio blocks) (index * fs.block_size + start) num
  slice-block_bytes_from blocks index start num {block} e h =
      let one = length-block_bytes driver fs sb ratio per_block m s block in
      let bytes = block_bytes driver s ratio block in
      let all = contents driver s ratio blocks in
      let rest = drop ((index + 1) * fs.block_size) all in
      slice_ext bytes all start (index * fs.block_size + start) num (λ i low.
        let sum : index * fs.block_size + start + i ≡ index * fs.block_size + (start + i) =
          omega arith in
        sym (get_elem?-append_left bytes rest (start + i) (omega arith))
        ∙ ap (λ (l : List ℕ). get_elem? l (start + i)) (sym (drop-contents blocks index e))
        ∙ get_elem?-drop (index * fs.block_size) (start + i) all
        ∙ ap (get_elem? all) (sym sum))
