-- ===== src/Block/Buffers.antt =====
-- A changed buffer comes back from the device.
use rust_os.Prelude.{
  ℕ, ◌+◌, ◌*◌, ◌/◌, ◌%◌, ◌^◌, ◌<◌, ◌≡◌, refl, sym, ap, ◌∙◌, true, List, arith, ltb, ◌==◌, length,
  ret,
}
use native.Mathlib.Nat.{mul-mod_left}
use rust_os.Block.{BlockDeviceDriver, BlockBuffer, mul_u64, read_blocks, flush}

module _ {S : Type 0} (driver : BlockDeviceDriver S) (s : S) (ratio start num : ℕ)
    (positive : 0 < driver.device_block_size) (last : (start + num) * ratio < 2 ^ 64) where
  abbrev pub buffer : S → List ℕ → BlockBuffer
  buffer t l = record {
    device_start_block = start * ratio;
    device_num_blocks = num * ratio;
    address = driver.read_address t (start * ratio) (num * ratio);
    bytes = l;
  }

  pub read_blocks_lem :
      (t : S)
      → read_blocks driver t (ratio * driver.device_block_size) start num
        ≡ ret (buffer t (driver.read_device_blocks t (start * ratio) (num * ratio)))
  unfolding read_blocks mul_u64
  read_blocks_lem t =
      let size = driver.device_block_size in
      let r : ratio * size / size ≡ ratio = grind arith in
      let z : ratio * size % size ≡ 0 = mul-mod_left ratio size in
      let m : (ratio * size % size == 0) ≡ true = ground (arith, z) in
      let p : ltb 0 size ≡ true = ground arith in
      let t1 : ltb (start * ratio) (2 ^ 64) ≡ true = grind arith in
      let t2 : ltb (num * ratio) (2 ^ 64) ≡ true = grind arith in rw (p, m, r, t1, t2)

  -- For a block size that is a multiple of the device's, blocks whose device indices fit into 64 bits
  -- are read with no panic: the read covers exactly the bytes of the device from `start` block sizes
  -- on, `num` block sizes long. A buffer that is changed and has kept its length can be flushed, and
  -- reading the same blocks from the device gives the changed buffer.
  pub read_blocks-flush :
      (bytes : List ℕ)
      → length bytes ≡ num * (ratio * driver.device_block_size)
      → (read_blocks driver s (ratio * driver.device_block_size) start num
          ≡ ret (buffer s (driver.read_device_blocks s (start * ratio) (num * ratio))))
        × (start * ratio * driver.device_block_size ≡ start * (ratio * driver.device_block_size))
        × (length (driver.read_device_blocks s (start * ratio) (num * ratio))
            ≡ num * (ratio * driver.device_block_size))
        × (t : S) × (flush driver s (buffer s bytes) ≡ ret t)
        × (read_blocks driver t (ratio * driver.device_block_size) start num ≡ ret (buffer t bytes))
  unfolding flush
  read_blocks-flush bytes same =
      let size = driver.device_block_size in
      let shape : num * (ratio * size) ≡ num * ratio * size = grind arith in
      let p : ltb 0 size ≡ true = ground arith in
      let z : length bytes % size ≡ 0 =
        ap (λ (x : ℕ). x % size) (same ∙ shape) ∙ mul-mod_left (num * ratio) size in
      let m : (length bytes % size == 0) ≡ true = ground (arith, z) in
      let t = driver.write_device_blocks s (start * ratio) bytes in
      (
        read_blocks_lem s,
        grind arith,
        driver.length-read s (start * ratio) (num * ratio) ∙ sym shape,
        t,
        rw (p, m) refl,
        read_blocks_lem t
            ∙ ap (λ (l : List ℕ). ret (buffer t l))
                (driver.read-write s (start * ratio) (num * ratio) bytes (same ∙ shape)),
      )
