-- ===== src/Block.antt =====
-- kernel/src/block.rs: buffers of blocks on top of a device with its own block size. The driver of the
-- device is a parameter.
pub mod Buffers
pub mod Memory
mod Tests
use rust_os.Prelude.{
  ℕ, zero, ◌+◌, ◌*◌, ◌/◌, ◌%◌, ◌^◌, ◌≤◌, ◌≡◌, ◌⊎◌, not, List, ltb, ◌==◌, if◌then◌else◌, length,
  Exec, ret, panic, assert, div_ceil, ◌>>=◌, ◌>>◌,
}

-- The trait `BlockDeviceDriver`, over the state of the device, with the address at which the bytes
-- of a read are allocated, of which nothing is assumed: a read of whole device blocks has their
-- length, finds what was written last at the same place, and does not see a write to other blocks.
pub record BlockDeviceDriver (S : Type 0) : Type 0 where
  pub device_block_size : ℕ
  pub read_device_blocks : S → ℕ → ℕ → List ℕ
  pub read_address : S → ℕ → ℕ → ℕ
  pub write_device_blocks : S → ℕ → List ℕ → S
  pub length-read :
      (s : S) (start num : ℕ) → length (read_device_blocks s start num) ≡ num * device_block_size
  pub read-write :
      (s : S) (start num : ℕ) (bytes : List ℕ)
      → length bytes ≡ num * device_block_size
      → read_device_blocks (write_device_blocks s start bytes) start num ≡ bytes
  pub read-write_apart :
      (s : S) (start num : ℕ) (bytes : List ℕ) (at count : ℕ)
      → length bytes ≡ num * device_block_size
      → at + count ≤ start ⊎ start + num ≤ at
      → read_device_blocks (write_device_blocks s start bytes) at count
        ≡ read_device_blocks s at count

pub record BlockBuffer : Type 0 where
  pub device_start_block : ℕ
  pub device_num_blocks : ℕ
  pub address : ℕ
  pub bytes : List ℕ

unfoldable pub mul_u64 : ℕ → ℕ → Exec ℕ
mul_u64 a b = if ltb (a * b) (2 ^ 64) then ret (a * b) else panic

module _ {S : Type 0} (driver : BlockDeviceDriver S) where
  -- Both divisions panic for a device block size of zero.
  unfoldable pub read_blocks : S → ℕ → ℕ → ℕ → Exec BlockBuffer
  read_blocks s block_size start_block num_blocks = do
    assert (ltb 0 driver.device_block_size)
    device_start_block ← mul_u64 start_block (block_size / driver.device_block_size)
    device_num_blocks ← mul_u64 num_blocks (div_ceil block_size driver.device_block_size)
    let bytes = driver.read_device_blocks s device_start_block device_num_blocks
    ret (record {
      device_start_block = device_start_block;
      device_num_blocks = device_num_blocks;
      address = driver.read_address s device_start_block device_num_blocks;
      bytes = bytes;
    })

  unfoldable pub flush : S → BlockBuffer → Exec S
  flush s b = do
    assert (ltb 0 driver.device_block_size)
    assert (length b.bytes % driver.device_block_size == 0)
    ret (driver.write_device_blocks s b.device_start_block b.bytes)
