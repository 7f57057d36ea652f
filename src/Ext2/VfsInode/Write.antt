-- ===== src/Ext2/VfsInode/Write.antt =====
-- A file that is written and read.
use rust_os.Prelude.{
  ℕ, suc, ◌+◌, ◌-◌, ◌*◌, ◌%◌, ◌^◌, ◌≤◌, ◌<◌, ◌≡◌, refl, sym, ap, ap₂, subst, ◌∙◌, ◌≢◌, inl, inr,
  true, false, some, List, [], ◌∷◌, ◌++◌, append_assoc, arith, ◌==◌, Bool-cases, length,
  length-append, take, ret, div_ceil, take-append, take-append_left,
}
use rust_os.Block.{BlockDeviceDriver}
use rust_os.Vfs.{read_all}
use rust_os.Ext2.{
  Superblock, Inode, BlockGroupDescriptor, is_file, inode_size_of, iter_inode_blocks,
}
use rust_os.Ext2.Blocks.{allocated, iter_blocks_lem}
use rust_os.Ext2.Bitmap.{is_used}
use rust_os.Ext2.Layouts.{inode_layout}
use rust_os.Ext2.FileSystem.{FileSystem, read_inode, iter_file_blocks}
use rust_os.Ext2.FileSystem.Inodes.{IsMounted, IsSlot, block_bytes, read_inode-write_inode}
use rust_os.Ext2.VfsInode.{read, write}
use rust_os.Ext2.VfsInode.Contents.{contents, length-contents}
use rust_os.Ext2.VfsInode.Read.{InRange}
use rust_os.Ext2.VfsInode.Whole.{read_all-read}
use rust_os.Ext2.VfsInode.Written.{Misses, Distinct, InDevice, items, each_block_lem}

-- A file whose first direct blocks are there has no holes in them.
allocated-items :
    (size index : ℕ) (used rest : List ℕ)
    → Misses 0 used
    → allocated size index (used ++ rest)
      ≡ items size index used ++ allocated size (index + length used) rest
allocated-items size index [] rest _ = let same : index + 0 ≡ index = omega arith in rw same refl
allocated-items size index (b ∷ used) rest (some_block, more) =
    let test : (b == 0) ≡ false = ground (arith, λ (e : b ≡ 0). some_block (sym e)) in
    let next : index + suc (length used) ≡ index + 1 + length used = omega arith in
    rw (test, next)
      (ap (λ (l : List (ℕ × ℕ)). (index * size, b) ∷ l)
        (allocated-items size (index + 1) used rest more))

length-items : (size index : ℕ) (used : List ℕ) → length (items size index used) ≡ length used
length-items size index [] = refl
length-items size index (b ∷ used) = ap suc (length-items size (index + 1) used)

in_device : (ratio : ℕ) (used rest : List ℕ) → InRange ratio (used ++ rest) → InDevice ratio used
in_device ratio [] rest range = tt
in_device ratio (b ∷ used) rest range =
    (range 0 b refl, in_device ratio used rest (λ i. range (suc i)))

module _ {S : Type 0} (driver : BlockDeviceDriver S) (ratio : ℕ) where
  contents-append :
      (s : S) (used rest : List ℕ)
      → contents driver s ratio (used ++ rest)
        ≡ contents driver s ratio used ++ contents driver s ratio rest
  contents-append s [] rest = refl
  contents-append s (b ∷ used) rest = rw (contents-append s used rest) (
      sym (
        append_assoc (block_bytes driver s ratio b) (contents driver s ratio used)
          (contents driver s ratio rest)))

  contents_same :
      (s t : S) (block : ℕ) (used : List ℕ)
      → Misses block used
      → ((b : ℕ) → b ≢ block → block_bytes driver t ratio b ≡ block_bytes driver s ratio b)
      → contents driver t ratio used ≡ contents driver s ratio used
  contents_same s t block [] _ same = refl
  contents_same s t block (b ∷ used) (ne, more) same =
      ap₂ (λ (x y : List ℕ). x ++ y) (same b (λ e. ne (sym e)))
        (contents_same s t block used more same)

abbrev pub sized : Inode → List ℕ → Inode
sized inode input = record inode { size_low = length input }

is_file-sized : (inode : Inode) (n : ℕ) → is_file (record inode { size_low = n }) ≡ is_file inode
unfolding is_file
is_file-sized inode n = refl

inode_size_of-sized :
    (sb : Superblock) (inode : Inode) (n : ℕ)
    → inode.size_high ≡ 0
    → inode_size_of sb (record inode { size_low = n }) ≡ n
unfolding inode_size_of
inode_size_of-sized sb inode n h = elim (Bool-cases (sb.rev_level == 0)) [
  | inl old ↦ rw old refl
  | inr new ↦ rw (new, h) (omega arith)
]

module _ {S : Type 0} (driver : BlockDeviceDriver S) (fs : FileSystem) (sb : Superblock)
    (ratio per_block : ℕ) (m : IsMounted driver fs sb ratio per_block) where
  iter_inode_blocks_lem :
      (inode : Inode) (used rest : List ℕ)
      → inode.direct_blocks ≡ used ++ rest
      → Misses 0 used
      → div_ceil (inode.blocks * 512) fs.block_size ≡ length used
      → iter_inode_blocks sb inode ≡ ret (items fs.block_size 0 used, false)
  unfolding iter_inode_blocks
  iter_inode_blocks_lem inode used rest split some_blocks count =
      let size = fs.block_size in
      let positive = m.positive in
      let test : (size == 0) ≡ false = ground arith in
      let there = allocated-items size 0 used rest some_blocks in
      let len = length-items size 0 used in
      let more : length (allocated size 0 (used ++ rest))
          ≡ length used + length (allocated size (0 + length used) rest) =
        ap length there
        ∙ length-append (items size 0 used) (allocated size (0 + length used) rest)
        ∙ rw len refl in
      let all = (iter_blocks_lem (used ++ rest) size (length used) 0 0).0 (omega arith) in
      let whole : length used - 0 ≡ length (items size 0 used) = omega arith in
      let cut : take (length used - 0) (allocated size 0 (used ++ rest)) ≡ items size 0 used =
        ap₂ (λ (n : ℕ) (l : List (ℕ × ℕ)). take n l) whole there
        ∙ take-append (items size 0 used) (allocated size (0 + length used) rest) in
      rw (m.size, test, split, count) (ap ret all ∙ ap (λ (l : List (ℕ × ℕ)). ret (l, false)) cut)

  -- The block size divides the 4096 bytes of a round of `read_all`. A regular file has an inode that
  -- is marked as used, fits into its words and has a zero high word of its size. Its direct blocks lie in
  -- the range of the device; the first of them, as many as its number of sectors says, are not zero, all
  -- different, and none is the block of the inode or that of the inode bitmap. The data fit into these
  -- blocks and are shorter than 2^32 bytes. Then writing the data does not panic; afterwards the inode is
  -- on the device with the length of the data, and reading the whole file, with a round for each 4096
  -- bytes, comes to an end and returns the data.
  pub read_all-write :
      (s : S) (n : ℕ) (d : BlockGroupDescriptor) (local block at : ℕ) (inode : Inode)
      (used rest input : List ℕ) (per_chunk fuel : ℕ)
      → IsSlot fs sb ratio n d local block at
      → is_used (block_bytes driver s ratio d.inode_bitmap) local ≡ some true
      → is_file inode ≡ true
      → inode.direct_blocks ≡ used ++ rest
      → InRange ratio inode.direct_blocks
      → Distinct used
      → Misses 0 used
      → Misses block used
      → Misses d.inode_bitmap used
      → div_ceil (inode.blocks * 512) fs.block_size ≡ length used
      → length input ≤ length used * fs.block_size
      → length input < 2 ^ 32
      → inode.size_high ≡ 0
      → inode_layout.is_value (sized inode input) ≡ true
      → 4096 ≡ per_chunk * fs.block_size
      → length input ≤ suc fuel * 4096
      → (t : S) × (write driver s fs inode n input ≡ ret (sized inode input, t))
        × (read_inode driver t fs n ≡ ret (some (sized inode input)))
        × (read_all (read driver t fs (sized inode input)) (suc fuel) ≡ ret (some input))
  unfolding write iter_file_blocks
  read_all-write s n d local block at inode used rest input per_chunk fuel slot bit regular split
        range distinct some_blocks not_inode not_bitmap count fits small no_high value is_chunk
        enough =
      let range' : InRange ratio (used ++ rest) = subst (InRange ratio) split range in
      let loop = iter_inode_blocks_lem inode used rest split some_blocks count in
      let (s1, e1, took, same1) =
        each_block_lem driver fs sb ratio per_block m input used s 0 0
          (in_device ratio used rest range') distinct (omega arith) (omega arith) in
      let bitmap = same1 d.inode_bitmap not_bitmap in
      let bit1 : is_used (block_bytes driver s1 ratio d.inode_bitmap) local ≡ some true =
        ap (λ (l : List ℕ). is_used l local) bitmap ∙ bit in
      let (t, e2, back, others, same2) =
        read_inode-write_inode driver fs sb ratio per_block m s1 n d local block at
          (sized inode input) slot bit1 value in
      let word_size : length input % 2 ^ 32 ≡ length input = omega arith in
      let whole : (length input == length input) ≡ true = ground arith in
      let size = inode_size_of-sized sb inode (length input) no_high in
      let file = is_file-sized inode (length input) ∙ regular in
      let room : length inode.direct_blocks ≡ length used + length rest =
        ap length split ∙ length-append used rest in
      let more : length used * fs.block_size ≤ length inode.direct_blocks * fs.block_size =
        grind arith in
      let read_back =
        read_all-read driver fs sb ratio per_block m t (sized inode input) range per_chunk fuel
          is_chunk file (rw size (omega arith)) (rw size (omega arith)) (rw size enough) in
      let len = length-contents driver fs sb ratio per_block m t used in
      let all : length input - 0 ≡ length input = omega arith in
      let content : take (length input) (contents driver t ratio inode.direct_blocks) ≡ input =
        ap (λ (l : List ℕ). take (length input) (contents driver t ratio l)) split
        ∙ ap (take (length input)) (contents-append driver ratio t used rest)
        ∙ take-append_left (length input) (contents driver t ratio used)
            (contents driver t ratio rest) (omega arith)
        ∙ ap (take (length input)) (contents_same driver ratio s1 t block used not_inode same2)
        ∙ ap (λ (k : ℕ). take k (contents driver s1 ratio used)) (sym all)
        ∙ took in
      (
        t,
        rw (regular, m.view, loop, e1, whole, word_size, e2) refl,
        back,
        read_back
            ∙ ap (λ (k : ℕ). ret (some (take k (contents driver t ratio inode.direct_blocks)))) size
            ∙ ap (λ (l : List ℕ). ret (some l)) content,
      )
