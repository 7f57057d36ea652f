-- ===== src/Transmute/Tests.antt =====
-- A word of two bytes in five bytes at the address 4096.
use rust_os.Prelude.{
  ℕ, ◌+◌, ◌≤◌, ◌<◌, ◌≡◌, refl, ◌⊎◌, true, false, none, some, List, length, replicate,
}
use rust_os.Transmute.{
  Layout, is_aligned, try_cast_bytes_ref_mut, try_cast_bytes_ref_mut_offset, try_write_bytes_offset,
  try_cast_bytes_ref_offset,
}
use rust_os.Transmute.Layouts.{word}
use rust_os.Transmute.Access.{cast_offset-write_offset}

abbrev five : List ℕ
five = replicate 5 0

fits : (word 2).is_value 513 ≡ true
unfolding word
fits = refl

cast_offset-write_offset_example :
    (is_aligned (word 2) (4096 + 2) ≡ true
      → 2 + (word 2).size_of ≤ 5
      → (bytes' : List ℕ) × (try_write_bytes_offset (word 2) 4096 five 2 513 ≡ some bytes')
        × (length bytes' ≡ 5)
        × (try_cast_bytes_ref_offset (word 2) 4096 bytes' 2 ≡ some 513)
        × ((U : Type 0) (other : Layout U) (at : ℕ)
            → at + other.size_of ≤ 2 ⊎ 2 + (word 2).size_of ≤ at
            → try_cast_bytes_ref_offset other 4096 bytes' at
              ≡ try_cast_bytes_ref_offset other 4096 five at))
    × (is_aligned (word 2) (4096 + 2) ≡ false ⊎ 5 < 2 + (word 2).size_of
        → (try_write_bytes_offset (word 2) 4096 five 2 513 ≡ none)
          × (try_cast_bytes_ref_offset (word 2) 4096 five 2 ≡ none))
cast_offset-write_offset_example = cast_offset-write_offset (word 2) 4096 five 2 513 fits

-- The same word at an odd address is refused.
odd_write : try_write_bytes_offset (word 2) 4096 five 1 513 ≡ none
unfolding try_write_bytes_offset try_cast_bytes_ref_mut_offset try_cast_bytes_ref_mut is_aligned
    word
odd_write = refl
