-- ===== src/Ext2/VfsInode.antt =====
-- kernel/src/fs/ext2/vfs.rs: the content of a file behind the file system's lock. The state of the
-- device is `S`; the calls hold the lock from their beginning to their end.
pub mod Contents
pub mod Read
pub mod Unaligned
pub mod Written
pub mod Write
pub mod Whole
mod Tests
use rust_os.Prelude.{
  ℕ, zero, suc, ◌+◌, ◌-◌, ◌/◌, ◌%◌, ◌^◌, min, Bool, true, false, ◌&&◌, some, List, [], ◌∷◌, ltb,
  leb, ◌==◌, if◌then◌else◌, length, drop, Exec, ret, panic, ◌>>=◌, assert, expect, add_u64,
  div_ceil, slice, splice, ◌>>◌,
}
use rust_os.Block.{BlockDeviceDriver, BlockBuffer, flush}
use rust_os.Vfs.{FileInodeReadResult, success, done, InodeType, file, directory}
use rust_os.Ext2.{Inode, block_size, inode_size_of, is_file, is_dir}
use rust_os.Ext2.FileSystem.{
  FileSystem, superblock_of, read_inode, read_root, write_inode, read_inode_block, iter_file_blocks,
}

-- The bytes of a block after the loop over them: data as far as there is some, then zeros.
abbrev pub fill_block : List ℕ → List ℕ → List ℕ
fill_block input [] = []
fill_block [] (byte ∷ bytes) = 0 ∷ fill_block [] bytes
fill_block (d ∷ input) (byte ∷ bytes) = d ∷ fill_block input bytes

module _ {S : Type 0} (driver : BlockDeviceDriver S) where
  -- The loop of `read` over so many blocks.
  unfoldable pub read_file_blocks :
      S
      → FileSystem
      → Inode
      → (block_size end left block current_offset bytes_read : ℕ) → List ℕ
      → Exec (List ℕ × ℕ)
  read_file_blocks s fs inode block_size end zero block current_offset bytes_read buffer =
      ret (buffer, bytes_read)
  read_file_blocks s fs inode block_size end (suc left) block current_offset bytes_read buffer = do
    block_buffer ← read_inode_block driver s fs inode block
    assert (leb current_offset end)
    let slice_start = current_offset % block_size
    let slice_end = min block_size (end - current_offset)
    assert (leb slice_start slice_end && leb slice_end (length block_buffer.bytes))
    let part = slice block_buffer.bytes slice_start (slice_end - slice_start)
    assert (leb (bytes_read + length part) (length buffer))
    read_file_blocks s fs inode block_size end left (block + 1) (current_offset + length part)
        (bytes_read + length part) (splice buffer bytes_read part)

  unfoldable pub read : S → FileSystem → Inode → List ℕ → ℕ → Exec (List ℕ × FileInodeReadResult)
  read s fs inode buffer offset = do
    assert (is_file inode)
    superblock ← superblock_of fs
    size ← block_size superblock
    let file_size = inode_size_of superblock inode
    last ← add_u64 offset (length buffer)
    let end = min file_size last
    assert (ltb 0 size)
    let start_block = offset / size
    let end_block = div_ceil end size
    after ←
        read_file_blocks s fs inode size end (end_block - start_block) start_block offset 0 buffer
    ret (after.0, if end == file_size then done after.1 else success)

  -- The function that `write` passes to `iter_file_blocks`; it changes the number of written bytes.
  unfoldable pub write_block : List ℕ → S → ℕ → ℕ → BlockBuffer → Exec (Bool × S × ℕ)
  write_block input s written_bytes at block_buf =
      let bytes = fill_block (drop written_bytes input) block_buf.bytes in
      let more = flush driver s (record block_buf { bytes = bytes }) >>= λ s'.
      ret (true, s', min (written_bytes + length block_buf.bytes) (length input)) in
      if leb (length input) written_bytes then ret (false, s, written_bytes) else more

  -- The size of the file is cut to 32 bits.
  unfoldable pub write : S → FileSystem → Inode → ℕ → List ℕ → Exec (Inode × S)
  write s fs inode inode_number input = do
    assert (is_file inode)
    after ← iter_file_blocks driver fs (write_block input) s 0 inode
    assert (after.1 == length input)
    let inode' = record inode { size_low = length input % 2 ^ 32 }
    s' ← write_inode driver after.0 fs inode' inode_number
    ret (inode', s')

  -- An inode as the file system's interface sees it, for `read_root` and `get_inode`.
  abbrev pub inode_type : Inode → ℕ → Exec (InodeType (Inode × ℕ) (Inode × ℕ))
  inode_type inode inode_number =
      if is_file inode
      then ret (file (inode, inode_number))
      else (if is_dir inode then ret (directory (inode, inode_number)) else panic)

  unfoldable pub get_inode : S → FileSystem → ℕ → Exec (InodeType (Inode × ℕ) (Inode × ℕ))
  get_inode s fs inode_number = do
    found ← read_inode driver s fs inode_number
    inode ← expect found
    inode_type inode inode_number

  unfoldable pub root : S → FileSystem → Exec (InodeType (Inode × ℕ) (Inode × ℕ))
  root s fs = do found ← read_root driver s fs; inode_type found.0 found.1
