-- ===== src/Memory/Tests.antt =====
-- Physical pages of a small bitmap, with the address functions as the x86_64 crate documents them.
use rust_os.Prelude.{
  ℕ, ◌-◌, ◌%◌, ◌^◌, ◌<◌, ◌≡◌, refl, true, Option, none, some, [], ◌∷◌, arith, ltb, if◌then◌else◌,
  ret, panic, test_bit, set_bit,
}
use mathlib.Core.Option
use rust_os.BitmapAlloc.{
  BitmapAllocator, mark_used, for_pages, scan_bits, scan_chunks, find_next_contiguous, take_found,
  allocate_contiguous,
}
use rust_os.BitmapAlloc.Pages.{is_used}
use rust_os.BitmapAlloc.Search.{IsValid}
use rust_os.BitmapAlloc.Allocate.{Outcome}
use rust_os.Memory.{
  AddressLibrary, Page, size2_mib, allocate_pages, free_pages, kernel_physical_mapping_start,
}
use rust_os.Memory.Physical.{range_of, allocate_pages_lem, free_pages-allocate_pages}
use rust_os.Memory.Ranges.{InRange}

pub checked_phys_addr : (a : ℕ) → a < 2 ^ 52 → (if ltb a (2 ^ 52) then ret a else panic) ≡ ret a
checked_phys_addr a h = let t : ltb a (2 ^ 52) ≡ true = ground arith in rw t

abbrev pub addresses : AddressLibrary
addresses = record {
  align_down = λ a n. a - a % n;
  phys_addr = λ a. if ltb a (2 ^ 52) then ret a else panic;
  align_down_lem = λ a k. refl;
  phys_addr_lem = checked_phys_addr;
}

-- Pages 0 to 2 are used, and page 4 is.
abbrev frames : BitmapAllocator
frames = record { bitmap = 0b10111 ∷ 0 ∷ []; last_single_page_allocation = none }

abbrev frames' : BitmapAllocator
frames' = record { bitmap = 0b11110111 ∷ 0 ∷ []; last_single_page_allocation = none }

frames-IsValid : IsValid frames
frames-IsValid = record { words = omega arith; hint = λ p lt. absurd (omega arith) }

zero_used : is_used frames.bitmap 0 ≡ true
unfolding test_bit
zero_used = refl

allocate_frames : allocate_contiguous frames 3 ≡ ret (some 5, frames')
unfolding allocate_contiguous find_next_contiguous scan_chunks scan_bits take_found for_pages
    mark_used test_bit set_bit
allocate_frames = refl

allocate_pages_lem_example :
    (r : Option ℕ) × (b : BitmapAllocator) × (allocate_pages addresses frames 3
      ≡ ret (Option.map (λ s. range_of s 3) r, b))
    × Outcome frames 3 r b
allocate_pages_lem_example =
    allocate_pages_lem addresses frames 3 frames-IsValid (omega arith) zero_used (omega arith)

free_pages-allocate_pages_example :
    (c : BitmapAllocator) × (allocate_pages addresses frames 3 ≡ ret (some (range_of 5 3), frames'))
    × (free_pages addresses frames' (range_of 5 3) ≡ ret c)
    × ((q : ℕ) → is_used c.bitmap q ≡ is_used frames.bitmap q)
    × IsValid c
free_pages-allocate_pages_example =
    free_pages-allocate_pages addresses frames 3 frames-IsValid (omega arith) zero_used
      (omega arith) 5 frames' allocate_frames

five_pages-InRange : InRange (range_of 5 3)
five_pages-InRange = record { low = omega arith; high = omega arith }

abbrev large_page : Page
large_page = record { start_addr = kernel_physical_mapping_start; size = size2_mib }
