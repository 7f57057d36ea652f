-- ===== src/BitmapAlloc/Tests.antt =====
-- Runs of the allocator, after the tests of crates/bitmap-alloc, and the theorems at them.
use rust_os.Prelude.{
  ℕ, zero, suc, ◌<◌, ◌≡◌, refl, true, false, not, ◌||◌, Option, none, some, List, [], ◌∷◌, arith,
  replicate, ret, test_bit, set_bit, clear_bit,
}
use rust_os.BitmapAlloc.{
  BitmapAllocator, new, mark_used, mark_unused, for_pages, scan_bits, scan_chunks,
  find_next_contiguous, take_found, allocate_contiguous, free_contiguous,
}
use rust_os.BitmapAlloc.Pages.{is_used, run_used}
use rust_os.BitmapAlloc.Search.{IsValid}
use rust_os.BitmapAlloc.Allocate.{Outcome, allocate_contiguous-Outcome}
use rust_os.BitmapAlloc.Free.{Freed, free_contiguous-Freed, free-allocate}
use rust_os.BitmapAlloc.Bootstrap.{
  MemoryRegion, shift_up_page_size, shift_down_page_size, page_aligned_start_end_address,
  mark_region, max_end, find_bitmap_start, mark_free_regions, bootstrap_allocator, bitmap_region,
}
use rust_os.BitmapAlloc.Bootstrap.Regions.{touches}
use rust_os.BitmapAlloc.Bootstrap.Startup.{
  free_page, bitmap_len, bootstrap_allocator_lem, bitmap_storage_not_reserved,
}

-- Pages 0 to 2 are used, page 4 is used, and the hint is page 2.
abbrev busy : BitmapAllocator
busy = record { bitmap = 0b10111 ∷ 0 ∷ []; last_single_page_allocation = some 2 }

abbrev busier : BitmapAllocator
busier = record { bitmap = 0b11110111 ∷ 0 ∷ []; last_single_page_allocation = some 2 }

busy-IsValid : IsValid busy
unfolding test_bit
busy-IsValid = record { words = omega arith; hint = low }
  where
    low : (p : ℕ) → p < 2 → is_used busy.bitmap p ≡ true
    low zero h = refl
    low (suc zero) h = refl
    low (suc (suc p)) h = absurd (omega arith)

allocate_run : allocate_contiguous busy 3 ≡ ret (some 5, busier)
unfolding allocate_contiguous find_next_contiguous scan_chunks scan_bits take_found for_pages
    mark_used test_bit set_bit
allocate_run = refl

hint_run :
    allocate_contiguous busy 1
    ≡ ret (some 3, record { bitmap = 0b11111 ∷ 0 ∷ []; last_single_page_allocation = some 3 })
unfolding allocate_contiguous find_next_contiguous scan_chunks scan_bits take_found for_pages
    mark_used test_bit set_bit
hint_run = refl

too_long : allocate_contiguous busy 124 ≡ ret (none, busy)
unfolding allocate_contiguous find_next_contiguous scan_chunks scan_bits take_found for_pages
    mark_used test_bit set_bit
too_long = refl

allocate_contiguous-Outcome_example :
    (r : Option ℕ) × (b : BitmapAllocator) × (allocate_contiguous busy 3 ≡ ret (r, b))
    × Outcome busy 3 r b
allocate_contiguous-Outcome_example = allocate_contiguous-Outcome busy 3 busy-IsValid (omega arith)

free_contiguous-Freed_example :
    (b : BitmapAllocator) × (free_contiguous busy 1 2 ≡ ret b) × Freed busy 1 2 b
unfolding run_used test_bit
free_contiguous-Freed_example = free_contiguous-Freed busy 1 2 busy-IsValid (omega arith) refl

free-allocate_example :
    (c : BitmapAllocator) × (free_contiguous busier 5 3 ≡ ret c)
    × ((q : ℕ) → is_used c.bitmap q ≡ is_used busy.bitmap q)
    × IsValid c
free-allocate_example = free-allocate busy busier 3 5 busy-IsValid (omega arith) allocate_run

-- A memory of 3072 bytes in pages of 16 bytes: 192 pages, three chunks, 24 bytes of bitmap.
abbrev memory_map : List MemoryRegion
memory_map = record { start_address = 0; len_bytes = 3072; free = true } ∷ []

abbrev blank_bitmap : ℕ → ℕ → List ℕ
blank_bitmap address len = replicate len 0

-- Only page 0 is reserved for the bitmap.
abbrev started : BitmapAllocator
started = record { bitmap = 1 ∷ 0 ∷ 0 ∷ []; last_single_page_allocation = none }

bootstrap_run : bootstrap_allocator 16 memory_map blank_bitmap ≡ ret started
unfolding bootstrap_allocator max_end find_bitmap_start page_aligned_start_end_address
    shift_up_page_size shift_down_page_size mark_free_regions mark_region for_pages mark_used
    mark_unused test_bit set_bit clear_bit new
bootstrap_run = refl

bootstrap_allocator_lem_example :
    IsValid started
    × (is_used started.bitmap 7
        ≡ (touches 16 (bitmap_region 0 (bitmap_len 16 3072)) 7 || not (free_page 16 memory_map 7)))
unfolding max_end find_bitmap_start page_aligned_start_end_address shift_up_page_size
    shift_down_page_size
bootstrap_allocator_lem_example =
    bootstrap_allocator_lem 16 memory_map blank_bitmap started 3072 0 bootstrap_run refl refl 7

bitmap_storage_not_reserved_example : is_used started.bitmap 1 ≡ false
unfolding max_end find_bitmap_start page_aligned_start_end_address shift_up_page_size
    shift_down_page_size free_page
bitmap_storage_not_reserved_example =
    bitmap_storage_not_reserved 16 memory_map blank_bitmap started 3072 0 bootstrap_run refl refl 1
      (omega arith) (omega arith) refl
