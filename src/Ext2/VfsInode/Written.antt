-- ===== src/Ext2/VfsInode/Written.antt =====
-- The blocks of a file after a write.
use rust_os.Prelude.{
  ℕ, suc, ◌+◌, ◌-◌, ◌*◌, ◌^◌, ◌≤◌, ◌<◌, min, ◌≡◌, refl, sym, ap, ap₂, ◌∙◌, ◌≢◌, true, false, List,
  [], ◌∷◌, ◌++◌, arith, dec_le, leb, length, drop_all, take, drop, take-append-drop, length-drop,
  ret, drop-drop,
}
use rust_os.Block.{BlockDeviceDriver}
use rust_os.Ext2.{Superblock}
use rust_os.Ext2.FileSystem.{FileSystem, each_block}
use rust_os.Ext2.FileSystem.Inodes.{
  IsMounted, block_bytes, read_block, length-block_bytes, flush_block, block_bytes-write,
  block_bytes-write_ne,
}
use rust_os.Ext2.VfsInode.{fill_block, write_block}
use rust_os.Ext2.VfsInode.Contents.{contents}

-- Blocks that are all different.
abbrev pub Misses : ℕ → List ℕ → Type 0
Misses b [] = Unit {0}
Misses b (x ∷ l) = (b ≢ x) × Misses b l

abbrev pub Distinct : List ℕ → Type 0
Distinct [] = Unit {0}
Distinct (x ∷ l) = Misses x l × Distinct l

abbrev pub InDevice : ℕ → List ℕ → Type 0
InDevice ratio [] = Unit {0}
InDevice ratio (b ∷ l) = ((b + 1) * ratio < 2 ^ 64) × InDevice ratio l

-- The items of a file without holes.
abbrev pub items : ℕ → ℕ → List ℕ → List (ℕ × ℕ)
items size index [] = []
items size index (b ∷ l) = (index * size, b) ∷ items size (index + 1) l

length-fill_block : (d b : List ℕ) → length (fill_block d b) ≡ length b
length-fill_block d [] = refl
length-fill_block [] (x ∷ b) = ap suc (length-fill_block [] b)
length-fill_block (y ∷ d) (x ∷ b) = ap suc (length-fill_block d b)

fill_block-short :
    (d b rest : List ℕ) → length d ≤ length b → take (length d) (fill_block d b ++ rest) ≡ d
fill_block-short [] b rest h = refl
fill_block-short (y ∷ d) [] rest h = absurd (omega arith)
fill_block-short (y ∷ d) (x ∷ b) rest h =
    ap (λ (l : List ℕ). y ∷ l) (fill_block-short d b rest (omega arith))

fill_block-long : (d b : List ℕ) → length b ≤ length d → fill_block d b ≡ take (length b) d
fill_block-long d [] h = refl
fill_block-long [] (x ∷ b) h = absurd (omega arith)
fill_block-long (y ∷ d) (x ∷ b) h = ap (λ (l : List ℕ). y ∷ l) (fill_block-long d b (omega arith))

take-append_past : (xs ys : List ℕ) (n : ℕ) → take (length xs + n) (xs ++ ys) ≡ xs ++ take n ys
take-append_past [] ys n = let same : 0 + n ≡ n = omega arith in rw same
take-append_past (x ∷ xs) ys n =
    let next : suc (length xs) + n ≡ suc (length xs + n) = omega arith in
    rw next (ap (λ (l : List ℕ). x ∷ l) (take-append_past xs ys n))

fill_block-append :
    (d old rest : List ℕ)
    → take (length d - length old) rest ≡ drop (length old) d
    → take (length d) (fill_block d old ++ rest) ≡ d
fill_block-append d old rest h = elim (dec_le (length d) (length old)) [
  | yes short ↦ fill_block-short d old rest short
  | no long ↦
      let more : length old ≤ length d = omega arith in
      let size = length-fill_block d old in
      let split : length d ≡ length (fill_block d old) + (length d - length old) = omega arith in
      ap (λ (n : ℕ). take n (fill_block d old ++ rest)) split
      ∙ take-append_past (fill_block d old) rest (length d - length old)
      ∙ ap₂ (λ (x y : List ℕ). x ++ y) (fill_block-long d old more) h
      ∙ take-append-drop (length old) d
]

-- The data from `w` on fill the block and go on behind it.
fill_block-next :
    (input old rest : List ℕ) (w w1 size : ℕ)
    → length old ≡ size
    → w1 ≡ min (w + size) (length input)
    → take (length input - w1) rest ≡ drop w1 input
    → take (length input - w) (fill_block (drop w input) old ++ rest) ≡ drop w input
fill_block-next input old rest w w1 size is_size is_next h =
    let count = length-drop w input in
    let left : length (drop w input) - length old ≡ length input - w1 = omega arith in
    let behind : drop w1 input ≡ drop (length old) (drop w input) =
      elim (dec_le (w + size) (length input)) [
        | yes inside ↦
            let next : w1 ≡ w + length old = omega arith in
            rw next (sym (drop-drop (length old) w input))
        | no past ↦
            drop_all w1 input (omega arith)
            ∙ sym (drop_all (length old) (drop w input) (omega arith))
      ] in
    ap (λ (n : ℕ). take n (fill_block (drop w input) old ++ rest)) (sym count)
    ∙ fill_block-append (drop w input) old rest (ap (λ (n : ℕ). take n rest) left ∙ h ∙ behind)

module _ {S : Type 0} (driver : BlockDeviceDriver S) (fs : FileSystem) (sb : Superblock)
    (ratio per_block : ℕ) (m : IsMounted driver fs sb ratio per_block) (input : List ℕ) where
  -- One round, with data left.
  one_block :
      (s : S) (w at b : ℕ) (rest : List (ℕ × ℕ))
      → (b + 1) * ratio < 2 ^ 64
      → w < length input
      → each_block driver fs (write_block driver input) s w false ((at, b) ∷ rest)
        ≡ each_block driver fs
            (write_block driver input)
            (driver.write_device_blocks s
              (b * ratio)
              (fill_block (drop w input) (block_bytes driver s ratio b)))
            (min (w + fs.block_size) (length input))
            false
            rest
  unfolding write_block
  one_block s w at b rest range more =
      let t1 : leb (length input) w ≡ false = ground arith in
      let old = block_bytes driver s ratio b in
      let size : length old ≡ fs.block_size =
        length-block_bytes driver fs sb ratio per_block m s b in
      let bytes = fill_block (drop w input) old in
      let whole : length bytes ≡ fs.block_size = length-fill_block (drop w input) old ∙ size in
      rw
        (
          read_block driver fs sb ratio per_block m s b range,
          t1,
          flush_block driver fs sb ratio per_block m s b bytes whole,
          size,
        )
        refl

  -- The loop over the blocks from the byte `w` of the data on.
  pub each_block_lem :
      (used : List ℕ) (s : S) (w index : ℕ)
      → InDevice ratio used
      → Distinct used
      → w ≤ length input
      → length input ≤ w + length used * fs.block_size
      → (t : S) × (each_block driver fs
            (write_block driver input)
            s
            w
            false
            (items fs.block_size index used)
          ≡ ret (t, length input))
        × (take (length input - w) (contents driver t ratio used) ≡ drop w input)
        × ((b : ℕ) → Misses b used → block_bytes driver t ratio b ≡ block_bytes driver s ratio b)
  unfolding write_block
  each_block_lem [] s w index range distinct low high =
      let all : w ≡ length input = omega arith in
      let none_left : length input - w ≡ 0 = omega arith in
      (s, rw all refl, rw none_left (sym (drop_all w input (omega arith))), λ b _. refl)
  each_block_lem (b ∷ used) s w index (range, ranges) (misses, distinct) low high =
      elim (dec_le (length input) w) [
        | yes done ↦
            let all : w ≡ length input = omega arith in
            let none_left : length input - w ≡ 0 = omega arith in
            let t1 : leb (length input) w ≡ true = ground arith in
            (
              s,
              rw (read_block driver fs sb ratio per_block m s b range, t1, all) refl,
              rw none_left (sym (drop_all w input (omega arith))),
              λ x _. refl,
            )
        | no more ↦
            let t1 : leb (length input) w ≡ false = ground arith in
            let old = block_bytes driver s ratio b in
            let size : length old ≡ fs.block_size =
              length-block_bytes driver fs sb ratio per_block m s b in
            let bytes = fill_block (drop w input) old in
            let whole : length bytes ≡ fs.block_size =
              length-fill_block (drop w input) old ∙ size in
            let s1 = driver.write_device_blocks s (b * ratio) bytes in
            let w1 = min (w + fs.block_size) (length input) in
            let left : (length used + 1) * fs.block_size
                ≡ length used * fs.block_size + fs.block_size =
              grind arith in
            let count : suc (length used) ≡ length used + 1 = omega arith in
            let high' : length input ≤ w + (length used + 1) * fs.block_size = rw (← count) high in
            let (t, e, took, same) =
              each_block_lem used s1 w1 (index + 1) ranges distinct (omega arith) (omega arith) in
            let here : block_bytes driver t ratio b ≡ bytes =
              same b misses ∙ block_bytes-write driver fs sb ratio per_block m s b bytes whole in
            (
              t,
              one_block s w (index * fs.block_size) b (items fs.block_size (index + 1) used) range
                    (omega arith)
                  ∙ e,
              rw here (
                  fill_block-next input old (contents driver t ratio used) w w1 fs.block_size size
                    refl took),
              λ x (ne, misses').
                  same x misses'
                  ∙ block_bytes-write_ne driver fs sb ratio per_block m s b bytes whole x ne,
            )
      ]
