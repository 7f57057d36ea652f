-- ===== src/Vfs/ReadAll.antt =====
-- Reading a whole file of sysfs.
use rust_os.Prelude.{
  ℕ, zero, suc, ◌+◌, ◌-◌, ◌*◌, ◌^◌, ◌≤◌, ◌<◌, min, ◌≡◌, refl, ap, ◌∙◌, inl, inr, true, false, ◌&&◌,
  some, List, [], ◌∷◌, ◌++◌, arith, ltb, leb, ◌==◌, if◌then◌else◌, Bool-cases, length,
  length-append, take, drop, replicate, length-take, length-drop, length-replicate, ret, panic,
}
use rust_os.Vfs.{
  success, done, read_step, read_loop, read_all, slice, copy_from_slice, sysfs_read_file,
}

-- The bytes of a chunk of `size`, at `offset`.
abbrev chunk : List ℕ → ℕ → ℕ → List ℕ
chunk content size offset =
    take (min (offset + size) (length content) - min offset (length content))
      (drop (min offset (length content)) content)

take_all-append : (xs ys : List ℕ) → take (length xs) (xs ++ ys) ≡ xs
take_all-append [] ys = refl
take_all-append (x ∷ xs) ys = ap (λ (l : List ℕ). x ∷ l) (take_all-append xs ys)

take_all : (xs : List ℕ) → take (length xs) xs ≡ xs
take_all [] = refl
take_all (x ∷ xs) = ap (λ (l : List ℕ). x ∷ l) (take_all xs)

module _ (content : List ℕ) (size : ℕ) (positive : 0 < size)
    (small : length content + size < 2 ^ 64) where
  length-chunk : (offset : ℕ) → offset ≤ length content → length (chunk content size offset) ≤ size
  length-chunk offset inside =
      let start = min offset (length content) in
      omega (arith, length-take (min (offset + size) (length content) - start) (drop start content))

  abbrev filled : ℕ → List ℕ
  filled offset =
      chunk content size offset ++ drop (length (chunk content size offset)) (replicate size 0)

  length-filled : (offset : ℕ) → offset ≤ length content → length (filled offset) ≡ size
  length-filled offset inside =
      let c = chunk content size offset in
      omega (
        arith,
        length-chunk offset inside,
        length-append c (drop (length c) (replicate size 0)),
        length-drop {A = ℕ} (length c) (replicate size 0),
        length-replicate {A = ℕ} size 0,
      )

  sysfs_read_file_lem :
      (offset : ℕ)
      → offset ≤ length content
      → sysfs_read_file content (replicate size 0) offset
        ≡ ret (
          filled offset,
          if min (offset + size) (length content) == length content
              then done (length content)
              else success,
        )
  unfolding sysfs_read_file slice copy_from_slice
  sysfs_read_file_lem offset inside =
      let n = length content in
      let start = min offset n in
      let t1 : ltb (offset + size) (2 ^ 64) ≡ true = ground (arith, small) in
      let t2 : (leb start (min (offset + size) n) && leb (min (offset + size) n) n) ≡ true =
        ground arith in
      let t3 : leb (length (chunk content size offset)) size ≡ true =
        ground (arith, length-chunk offset inside) in
      rw (length-replicate {A = ℕ} size 0, t1, t2, t3) refl

  -- A file that is longer than the buffer.
  too_long :
      (fuel : ℕ) (buffer : List ℕ) (offset : ℕ)
      → size < length content
      → offset < length content
      → length content ≤ offset + fuel * size
      → read_loop (sysfs_read_file content) size fuel buffer offset ≡ panic
  unfolding read_loop read_step
  too_long zero buffer offset long inside enough = absurd (omega arith)
  too_long (suc fuel) buffer offset long inside enough =
      elim (Bool-cases (min (offset + size) (length content) == length content)) [
        | inl last ↦
            let t : leb (length content) (length (filled offset)) ≡ false =
              ground (arith, length-filled offset, long, inside) in
            rw (sysfs_read_file_lem offset (omega arith), last, t)
        | inr more ↦
            let next : offset + size < length content = ground (arith, more) in
            let fewer : length content ≤ offset + size + fuel * size = grind arith in
            let ih = too_long fuel (buffer ++ filled offset) (offset + size) long next fewer in
            rw (sysfs_read_file_lem offset (omega arith), more, length-filled offset (omega arith))
              ih
      ]

  -- A file that fits into the buffer.
  fits :
      (fuel : ℕ)
      → length content ≤ size
      → read_loop (sysfs_read_file content) size (suc fuel) [] 0 ≡ ret (some content)
  unfolding read_loop read_step
  fits fuel short =
      let last : (min (0 + size) (length content) == length content) ≡ true =
        ground (arith, short) in
      let t : leb (length content) (length (filled 0)) ≡ true =
        ground (arith, length-filled 0, short) in
      let whole : chunk content size 0 ≡ content =
        (let m : min (0 + size) (length content) - min 0 (length content) ≡ length content =
            omega arith in
          let z : min 0 (length content) ≡ 0 = omega arith in rw (m, z) (take_all content)) in
      let same : take (length content) (filled 0) ≡ content =
        rw whole (take_all-append content (drop (length content) (replicate size 0))) in
      rw (sysfs_read_file_lem 0 (omega arith), last, t, same)

-- Reading a whole file of sysfs, with one round for each 4096 bytes and at least one, always comes to
-- an end. It returns the file's bytes if there are at most 4096 of them. Every longer file makes it
-- panic: the last read reports the length of the whole file as the number of bytes that it read, and
-- the buffer of 4096 bytes is cut there.
pub read_all-sysfs_read_file :
    (content : List ℕ) (fuel : ℕ)
    → length content < 2 ^ 63
    → length content ≤ suc fuel * 4096
    → read_all (sysfs_read_file content) (suc fuel)
      ≡ (if leb (length content) 4096 then ret (some content) else panic)
unfolding read_all
read_all-sysfs_read_file content fuel small enough = elim (Bool-cases (leb (length content) 4096)) [
  | inl short ↦
      fits content 4096 (omega arith) (omega arith) fuel (ground (arith, short)) ∙ rw short
  | inr long ↦
      too_long content 4096 (omega arith) (omega arith) (suc fuel) [] 0 (ground (arith, long))
        (ground (arith, long)) (omega arith)
      ∙ rw long
]
