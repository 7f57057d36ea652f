-- ===== src/Block/Tests.antt =====
-- A device in memory with blocks of two bytes.
use rust_os.Prelude.{ℕ, ◌*◌, ◌≡◌, refl, [], ◌∷◌, arith, length, ret}
use rust_os.Block.Memory.{memory_device}
use rust_os.Block.{BlockDeviceDriver, read_blocks, flush}
use rust_os.Block.Buffers.{read_blocks-flush}

abbrev device : BlockDeviceDriver (ℕ → ℕ)
device = memory_device 2

abbrev empty : ℕ → ℕ
empty _ = 0

-- One block of four bytes.
read_blocks-flush_example :
    (read_blocks device empty 4 3 1
      ≡ ret (record {
        device_start_block = 6;
        device_num_blocks = 2;
        address = 4096;
        bytes = 0 ∷ 0 ∷ 0 ∷ 0 ∷ [];
      }))
    × (3 * 2 * 2 ≡ 3 * (2 * 2))
    × (length (device.read_device_blocks empty 6 2) ≡ 1 * (2 * 2))
    × (t : ℕ → ℕ) × (flush device empty (record {
      device_start_block = 6;
      device_num_blocks = 2;
      address = 4096;
      bytes = 1 ∷ 2 ∷ 3 ∷ 4 ∷ [];
    })
        ≡ ret t)
    × (read_blocks device t 4 3 1
        ≡ ret (record {
          device_start_block = 6;
          device_num_blocks = 2;
          address = 4096;
          bytes = 1 ∷ 2 ∷ 3 ∷ 4 ∷ [];
        }))
read_blocks-flush_example =
    read_blocks-flush device empty 2 3 1 (omega arith) (omega arith) (1 ∷ 2 ∷ 3 ∷ 4 ∷ []) refl
