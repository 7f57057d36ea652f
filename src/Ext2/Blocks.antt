-- ===== src/Ext2/Blocks.antt =====
-- The blocks of an inode: what the iterator yields, and when it gives up.
use rust_os.Prelude.{
  ℕ, suc, ◌+◌, ◌-◌, ◌*◌, ◌≤◌, ◌<◌, ◌≡◌, ◌≢◌, true, false, List, [], ◌∷◌, arith, dec_lt, ℕ_discrete,
  ltb, ◌==◌, if◌then◌else◌, length, take,
}
use rust_os.Ext2.{iter_blocks}

-- The allocated direct blocks with their offsets in the file; a zero address is a hole.
abbrev pub allocated : ℕ → ℕ → List ℕ → List (ℕ × ℕ)
allocated block_size index [] = []
allocated block_size index (block ∷ rest) =
    let others = allocated block_size (index + 1) rest in
    if block == 0 then others else (index * block_size, block) ∷ others

iter_done :
    (bs num seen index : ℕ) (l : List ℕ)
    → num ≤ seen
    → iter_blocks bs num seen index l ≡ ([], false)
unfolding iter_blocks
iter_done bs num seen index [] h = let t : ltb seen num ≡ false = ground arith in rw t
iter_done bs num seen index (b ∷ l) h = let t : ltb seen num ≡ false = ground arith in rw t

module _ (bs num seen index block : ℕ) (l : List ℕ) (more : seen < num) where
  iter_hole :
      block ≡ 0 → iter_blocks bs num seen index (block ∷ l) ≡ iter_blocks bs num seen (index + 1) l
  unfolding iter_blocks
  iter_hole zero_block =
      let t : ltb seen num ≡ true = ground arith in
      let z : (block == 0) ≡ true = ground arith in rw (t, z)

  iter_item :
      block ≢ 0
      → iter_blocks bs num seen index (block ∷ l) ≡ (
        (index * bs, block) ∷ (iter_blocks bs num (seen + 1) (index + 1) l).0,
        (iter_blocks bs num (seen + 1) (index + 1) l).1,
      )
  unfolding iter_blocks
  iter_item some_block =
      let t : ltb seen num ≡ true = ground arith in
      let z : (block == 0) ≡ false = ground arith in rw (t, z)

iter_stuck : (bs num seen index : ℕ) → seen < num → iter_blocks bs num seen index [] ≡ ([], true)
unfolding iter_blocks
iter_stuck bs num seen index h = let t : ltb seen num ≡ true = ground arith in rw t

-- With enough allocated direct blocks the loop yields the first of them, as many as are left to
-- see. With too few it yields all of them and then comes to the indirect blocks, which are not
-- implemented.
pub iter_blocks_lem :
    (l : List ℕ) (bs num seen index : ℕ)
    → (num ≤ seen + length (allocated bs index l)
        → iter_blocks bs num seen index l ≡ (take (num - seen) (allocated bs index l), false))
      × (seen + length (allocated bs index l) < num
          → iter_blocks bs num seen index l ≡ (allocated bs index l, true))
iter_blocks_lem [] bs num seen index = (
  (λ h.
      let nothing : num - seen ≡ 0 = omega arith in
      rw nothing (iter_done bs num seen index [] (omega arith))),
  λ h. iter_stuck bs num seen index (omega arith),
)
iter_blocks_lem (block ∷ l) bs num seen index = elim (dec_lt seen num) [
  | no h ↦ (
    (λ enough.
        let nothing : num - seen ≡ 0 = omega arith in
        rw nothing (iter_done bs num seen index (block ∷ l) (omega arith))),
    λ few. absurd (omega arith),
  )
  | yes more ↦ elim (ℕ_discrete block 0) [
    | yes zero_block ↦
        let z : (block == 0) ≡ true = ground arith in
        let (enough, few) = iter_blocks_lem l bs num seen (index + 1) in
        rw (z, iter_hole bs num seen index block l more zero_block) (enough, few)
    | no some_block ↦
        let z : (block == 0) ≡ false = ground arith in
        let (enough, few) = iter_blocks_lem l bs num (seen + 1) (index + 1) in
        let one_more : num - seen ≡ suc (num - (seen + 1)) = omega arith in
        rw (z, iter_item bs num seen index block l more some_block)
          ((λ h. rw (one_more, enough (omega arith))), λ h. rw (few (omega arith)))
  ]
]
