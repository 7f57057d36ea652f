-- ===== src/Ext2/Location.antt =====
-- Inode numbers and the places they stand for.
use rust_os.Prelude.{
  ℕ, ◌+◌, ◌-◌, ◌*◌, ◌/◌, ◌%◌, ◌^◌, ◌≤◌, ◌<◌, ◌≡◌, ◌∙◌, true, false, arith, ℕ_discrete, ltb, ◌==◌,
  ret,
}
use native.Mathlib.Nat.{div-add-mod, mod-lt, mod-eq_of_lt, add-mul-mod_self_right}
use rust_os.Ext2.{Superblock, inode_location, inode_number, block_size, inode_block_and_offset}

-- Every inode number has a location whose index is inside its group, and the number of that
-- location is the inode number again.
pub inode_number-inode_location :
    (sb : Superblock) (n : ℕ)
    → 0 < sb.inodes_per_group
    → 0 < n
    → n < 2 ^ 32
    → (group local : ℕ) × (inode_location sb n ≡ ret (group, local))
      × (local < sb.inodes_per_group)
      × (inode_number sb group local ≡ ret n)
unfolding inode_location inode_number
inode_number-inode_location sb n some_inodes positive small =
    let per = sb.inodes_per_group in
    let i = n - 1 in
    let parts : i / per * per + i % per ≡ i = grind (arith, div-add-mod i per) in
    let t1 : ltb 0 n ≡ true = ground arith in
    let t2 : (per == 0) ≡ false = ground arith in
    let t3 : ltb (i / per * per) (2 ^ 32) ≡ true = grind arith in
    let t4 : ltb i (2 ^ 32) ≡ true = ground arith in
    let t5 : ltb (i + 1) (2 ^ 32) ≡ true = ground arith in
    let back : i + 1 ≡ n = omega arith in
    (i / per, i % per, rw (t1, t2), mod-lt i some_inodes, rw (t3, parts, t4, t5, back))

-- Two locations inside their groups with the same inode number are the same.
pub inode_location-inode_number :
    (sb : Superblock) (group local : ℕ)
    → local < sb.inodes_per_group
    → group * sb.inodes_per_group + local + 1 < 2 ^ 32
    → (n : ℕ) × (inode_number sb group local ≡ ret n) × (inode_location sb n ≡ ret (group, local))
unfolding inode_location inode_number
inode_location-inode_number sb group local inside small =
    let per = sb.inodes_per_group in
    let base = group * per in
    let t1 : ltb base (2 ^ 32) ≡ true = grind arith in
    let t2 : ltb (base + local) (2 ^ 32) ≡ true = grind arith in
    let t3 : ltb (base + local + 1) (2 ^ 32) ≡ true = grind arith in
    let t4 : ltb 0 (base + local + 1) ≡ true = grind arith in
    let t5 : (per == 0) ≡ false = ground arith in
    let back : base + local + 1 - 1 ≡ base + local = omega arith in
    let quotient : (base + local) / per ≡ group = grind arith in
    let remainder : (base + local) % per ≡ local = grind arith in
    (base + local + 1, rw (t1, t2, t3), rw (t4, t5, back, quotient, remainder))

-- Records of a size that divides the block size do not straddle blocks.
record_fits : (a l p : ℕ) → 0 < p → a * l % (p * a) + a ≤ p * a
record_fits a l p some_records =
    let r_lt : l % p < p = mod-lt l some_records in
    let split : a * l ≡ a * (l % p) + l / p * (p * a) = grind (arith, div-add-mod l p) in
    let bound : a * (l % p) + a ≤ p * a = grind arith in
    elim (ℕ_discrete a 0) [
      | yes zero_size ↦ rw zero_size (omega arith)
      | no some_size ↦
          let small : a * (l % p) < p * a = grind arith in
          let same : a * l % (p * a) ≡ a * (l % p) =
            rw split (add-mul-mod_self_right (a * (l % p)) (l / p) (p * a) ∙ mod-eq_of_lt small) in
          rw same bound
    ]

-- An inode of the table lies where its index times the inode size points to, its offset is inside
-- the block, and when the inode size divides the block size it does not reach into the next block.
pub inode_block_and_offset_lem :
    (sb : Superblock) (table local size per_block : ℕ)
    → block_size sb ≡ ret size
    → 0 < size
    → size ≡ per_block * sb.inode_size
    → 0 < sb.inode_size
    → table + sb.inode_size * local < 2 ^ 64
    → (block offset : ℕ) × (inode_block_and_offset sb table local ≡ ret (block, offset))
      × (block * size + offset ≡ table * size + sb.inode_size * local)
      × (offset + sb.inode_size ≤ size)
unfolding inode_block_and_offset
inode_block_and_offset_lem sb table local size per_block is_size positive divides some_bytes fits =
    let at = sb.inode_size * local in
    let t1 : (size == 0) ≡ false = ground arith in
    let t2 : ltb (table + at / size) (2 ^ 64) ≡ true = grind arith in
    (
      table + at / size,
      at % size,
      rw (is_size, t1, t2),
      grind (arith, div-add-mod at size),
      rw divides (record_fits sb.inode_size local per_block (ground (arith, divides))),
    )
