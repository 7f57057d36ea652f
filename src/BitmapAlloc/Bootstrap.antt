-- ===== src/BitmapAlloc/Bootstrap.antt =====
-- crates/bitmap-alloc/src/bootstrap.rs: the allocator's start from a memory map.
pub mod Regions
pub mod Startup
use rust_os.Prelude.{
  ℕ, ◌-◌, ◌/◌, ◌^◌, max, Bool, true, false, not, Option, none, some, List, [], ◌∷◌, map, leb, ◌==◌,
  if◌then◌else◌, length, Exec, ret, ◌>>=◌, assert, expect, add_u64, rem_u64, div_ceil, ◌>>◌,
}
use rust_os.BitmapAlloc.{BitmapAllocator, new, mark_used, mark_unused, for_pages}

pub record MemoryRegion : Type 0 where
  pub start_address : ℕ
  pub len_bytes : ℕ
  pub free : Bool

unfoldable pub shift_up_page_size : ℕ → ℕ → Exec ℕ
shift_up_page_size value page_size = do
  rest ← rem_u64 value page_size
  add_u64 value (if rest == 0 then 0 else page_size - rest)

unfoldable pub shift_down_page_size : ℕ → ℕ → Exec ℕ
shift_down_page_size value page_size = do rest ← rem_u64 value page_size; ret (value - rest)

unfoldable pub page_aligned_start_end_address : MemoryRegion → ℕ → Exec (Option (ℕ × ℕ))
page_aligned_start_end_address region page_size =
    if region.free
    then (do
      aligned_start ← shift_up_page_size region.start_address page_size
      end ← add_u64 region.start_address region.len_bytes
      aligned_end ← shift_down_page_size end page_size
      ret (if leb aligned_end aligned_start then none else some (aligned_start, aligned_end)))
    else (do
      aligned_start ← shift_down_page_size region.start_address page_size
      end ← add_u64 region.start_address region.len_bytes
      aligned_end ← shift_up_page_size end page_size
      ret (some (aligned_start, aligned_end)))

unfoldable pub mark_region : Bool → MemoryRegion → ℕ → BitmapAllocator → Exec BitmapAllocator
mark_region used region page_size a = page_aligned_start_end_address region page_size >>= elim [
  | none ↦ ret a
  | some (start_addr, end_addr) ↦
      let start = start_addr / page_size in
      let end = end_addr / page_size in
      for_pages (if used then mark_used else mark_unused) start (end - start) a
]

-- The end of the highest region.
unfoldable pub max_end : List MemoryRegion → Exec (Option ℕ)
max_end [] = ret none
max_end (region ∷ regions) = do
  end ← add_u64 region.start_address region.len_bytes
  highest ← max_end regions
  ret (some (elim highest [ none ↦ end | some m ↦ max end m ]))

-- The first free region that the bitmap fits into, by its aligned start.
unfoldable pub find_bitmap_start : ℕ → ℕ → List MemoryRegion → Exec (Option ℕ)
find_bitmap_start page_size bitmap_bytes [] = ret none
find_bitmap_start page_size bitmap_bytes (region ∷ regions) =
    let later = find_bitmap_start page_size bitmap_bytes regions in
    if region.free
    then (page_aligned_start_end_address region page_size >>= elim [
      | none ↦ later
      | some (start, end) ↦ if leb bitmap_bytes (end - start) then ret (some start) else later
    ])
    else later

-- The loop that marks the free regions as unused.
unfoldable pub mark_free_regions : ℕ → List MemoryRegion → BitmapAllocator → Exec BitmapAllocator
mark_free_regions page_size [] a = ret a
mark_free_regions page_size (region ∷ regions) a =
    let rest = mark_free_regions page_size regions in
    if not region.free then rest a else (mark_region false region page_size a >>= rest)

-- `bitmap.fill(u64::MAX)`.
abbrev pub fill : List ℕ → List ℕ
fill = map (λ _. 2 ^ 64 - 1)

abbrev pub bitmap_region : ℕ → ℕ → MemoryRegion
bitmap_region bitmap_start bitmap_bytes = record {
  start_address = bitmap_start;
  len_bytes = bitmap_bytes;
  free = false;
}

-- `allocate_bitmap` is the caller's: the slice of the given length at the given address.
unfoldable pub bootstrap_allocator :
    (page_size : ℕ) (regions : List MemoryRegion) (allocate_bitmap : ℕ → ℕ → List ℕ)
    → Exec BitmapAllocator
bootstrap_allocator page_size regions allocate_bitmap = do
  highest ← max_end regions
  total_memory ← expect highest
  assert (not (page_size == 0))
  let bitmap_bits = div_ceil total_memory page_size
  let bitmap_bytes = div_ceil bitmap_bits 64
  fitting ← find_bitmap_start page_size bitmap_bytes regions
  bitmap_start ← expect fitting
  a ← mark_free_regions page_size regions (new (fill (allocate_bitmap bitmap_start bitmap_bytes)))
  mark_region true (bitmap_region bitmap_start bitmap_bytes) page_size a
