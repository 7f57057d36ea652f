-- ===== src/Ext2/VfsInode/Whole.antt =====
-- Reading a whole file by the loop of kernel/src/vfs/fs.rs.
use rust_os.Prelude.{
  ℕ, zero, suc, ◌+◌, ◌-◌, ◌*◌, ◌^◌, ◌≤◌, ◌<◌, ◌≡◌, refl, sym, ap, subst, ◌∙◌, true, false, Option,
  some, List, [], ◌++◌, append-nil, append_assoc, arith, dec_le, leb, ◌==◌, length, drop_all, take,
  drop, replicate, length-replicate, Exec, ret, slice, splice, take-append, length-slice,
  length-splice, slice-append,
}
use rust_os.Block.{BlockDeviceDriver}
use rust_os.Vfs.{read_step, read_loop, read_all}
use rust_os.Ext2.{Superblock, Inode, inode_size_of, is_file}
use rust_os.Ext2.FileSystem.{FileSystem}
use rust_os.Ext2.FileSystem.Inodes.{IsMounted}
use rust_os.Ext2.VfsInode.{read}
use rust_os.Ext2.VfsInode.Contents.{contents, length-contents}
use rust_os.Ext2.VfsInode.Read.{InRange, read_lem}

module _ {S : Type 0} (driver : BlockDeviceDriver S) (fs : FileSystem) (sb : Superblock)
    (ratio per_block : ℕ) (m : IsMounted driver fs sb ratio per_block) (s : S) (inode : Inode)
    (range : InRange ratio inode.direct_blocks) where
  abbrev content : List ℕ
  content = contents driver s ratio inode.direct_blocks

  module _ (chunk per_chunk : ℕ) (is_chunk : chunk ≡ per_chunk * fs.block_size)
      (some_bytes : 0 < chunk) (regular : is_file inode ≡ true)
      (small : inode_size_of sb inode + chunk < 2 ^ 64)
      (inside : inode_size_of sb inode ≤ length inode.direct_blocks * fs.block_size) where
    length-part :
        (offset num : ℕ)
        → offset + num ≤ inode_size_of sb inode
        → length (slice content offset num) ≡ num
    length-part offset num h =
        length-slice content offset num
          (omega (arith, length-contents driver fs sb ratio per_block m s inode.direct_blocks))

    abbrev result : List ℕ → ℕ → Exec (Option (List ℕ))
    result buffer offset =
        ret (some (buffer ++ slice content offset (inode_size_of sb inode - offset)))

    abbrev zeros : List ℕ
    zeros = replicate chunk 0

    length-zeros : length zeros ≡ chunk
    length-zeros = length-replicate {A = ℕ} chunk 0

    last_round :
        (fuel block : ℕ) (buffer : List ℕ)
        → block * fs.block_size ≤ inode_size_of sb inode
        → inode_size_of sb inode - block * fs.block_size ≤ chunk
        → read_loop (read driver s fs inode) chunk (suc fuel) buffer (block * fs.block_size)
          ≡ result buffer (block * fs.block_size)
    unfolding read_loop read_step
    last_round fuel block buffer start last =
        let file_size = inode_size_of sb inode in
        let offset = block * fs.block_size in
        let count = file_size - offset in
        let len = length-zeros in
        let one =
          read_lem driver fs sb ratio per_block m s inode range block zeros regular start inside
            (ground (arith, len)) count (ground (arith, len)) in
        let part = slice content offset count in
        let part_len : length part ≡ count = length-part offset count (omega arith) in
        let end : (offset + count == file_size) ≡ true = ground arith in
        let kept : length (splice zeros 0 part) ≡ length zeros =
          length-splice zeros 0 part (ground (arith, len, part_len)) in
        let t : leb count (length (splice zeros 0 part)) ≡ true = ground (arith, kept, len) in
        let cut : take count (splice zeros 0 part) ≡ part =
          ap (λ (n : ℕ). take n (splice zeros 0 part)) (sym part_len)
          ∙ take-append part (drop (length part) zeros) in
        rw (one, end, t, cut) refl

    full_round :
        (fuel block : ℕ) (buffer : List ℕ)
        → chunk < inode_size_of sb inode - block * fs.block_size
        → read_loop (read driver s fs inode) chunk (suc fuel) buffer (block * fs.block_size)
          ≡ read_loop
              (read driver s fs inode)
              chunk
              fuel
              (buffer ++ slice content (block * fs.block_size) chunk)
              (block * fs.block_size + chunk)
    unfolding read_loop read_step
    full_round fuel block buffer more =
        let file_size = inode_size_of sb inode in
        let offset = block * fs.block_size in
        let len = length-zeros in
        let start : offset ≤ file_size = omega arith in
        let one =
          read_lem driver fs sb ratio per_block m s inode range block zeros regular start inside
            (ground (arith, len)) chunk (ground (arith, len)) in
        let part = slice content offset chunk in
        let part_len : length part ≡ chunk = length-part offset chunk (omega arith) in
        let end : (offset + chunk == file_size) ≡ false = ground arith in
        let nothing : drop (length part) zeros ≡ [] =
          drop_all (length part) zeros (ground (arith, len, part_len)) in
        let filled : splice zeros 0 part ≡ part =
          ap (λ (l : List ℕ). part ++ l) nothing ∙ append-nil part in
        rw (one, end, filled, part_len) refl

    read_loop_lem :
        (fuel block : ℕ) (buffer : List ℕ)
        → block * fs.block_size ≤ inode_size_of sb inode
        → inode_size_of sb inode ≤ block * fs.block_size + suc fuel * chunk
        → read_loop (read driver s fs inode) chunk (suc fuel) buffer (block * fs.block_size)
          ≡ result buffer (block * fs.block_size)
    read_loop_lem zero block buffer start enough = last_round zero block buffer start (omega arith)
    read_loop_lem (suc fuel) block buffer start enough =
        elim (dec_le (inode_size_of sb inode - block * fs.block_size) chunk) [
          | yes last ↦ last_round (suc fuel) block buffer start last
          | no more ↦
              let file_size = inode_size_of sb inode in
              let offset = block * fs.block_size in
              let part = slice content offset chunk in
              let next : (block + per_chunk) * fs.block_size ≡ offset + chunk = grind arith in
              let rounds : offset + suc (suc fuel) * chunk ≡ offset + chunk + suc fuel * chunk =
                grind arith in
              let left : chunk + (file_size - (offset + chunk)) ≡ file_size - offset =
                omega arith in
              let again =
                read_loop_lem fuel (block + per_chunk) (buffer ++ part) (rw next (omega arith))
                  (rw next (omega arith)) in
              full_round (suc fuel) block buffer (omega arith)
              ∙ subst
                  (λ (n : ℕ).
                    read_loop (read driver s fs inode) chunk (suc fuel) (buffer ++ part) n
                    ≡ result (buffer ++ part) n)
                  next again
              ∙ ap (λ (l : List ℕ). ret (some l))
                  (append_assoc buffer part
                      (slice content (offset + chunk) (file_size - (offset + chunk)))
                    ∙ ap (λ (l : List ℕ). buffer ++ l)
                        (slice-append content offset chunk (file_size - (offset + chunk)))
                    ∙ ap (λ (n : ℕ). buffer ++ slice content offset n) left)
        ]

  -- Reading a whole regular file whose content lies in direct blocks, on a file system whose blocks
  -- divide the 4096 bytes of the loop's buffer, with one round for each 4096 bytes and at least one,
  -- always comes to an end and returns the first bytes of the file's blocks, as many as its size.
  pub read_all-read :
      (per_chunk fuel : ℕ)
      → 4096 ≡ per_chunk * fs.block_size
      → is_file inode ≡ true
      → inode_size_of sb inode < 2 ^ 63
      → inode_size_of sb inode ≤ length inode.direct_blocks * fs.block_size
      → inode_size_of sb inode ≤ suc fuel * 4096
      → read_all (read driver s fs inode) (suc fuel)
        ≡ ret (some (take (inode_size_of sb inode) content))
  unfolding read_all
  read_all-read per_chunk fuel is_chunk regular small inside enough =
      let none : 0 * fs.block_size ≡ 0 = omega arith in
      let all : inode_size_of sb inode - 0 ≡ inode_size_of sb inode = omega arith in
      let loop =
        read_loop_lem 4096 per_chunk is_chunk (omega arith) regular (omega arith) inside fuel 0 []
          (omega arith) (omega arith) in
      subst
        (λ (n : ℕ).
          read_loop (read driver s fs inode) 4096 (suc fuel) [] n
          ≡ ret (some (slice content n (inode_size_of sb inode - n))))
        none loop
      ∙ ap (λ (n : ℕ). ret (some (take n content))) all
