-- ===== src/BitmapAlloc.antt =====
-- crates/bitmap-alloc/src/alloc.rs: the bitmap allocator, with its loops over chunks, bits and
-- pages. A chunk is a `u64`, bit 0 first. Page numbers are plain numbers: a page that the loops
-- reach lies inside the bitmap, so no `usize` computation on one wraps.
pub mod Pages
pub mod Marks
pub mod Sweep
pub mod Search
pub mod Allocate
pub mod Free
pub mod Bootstrap
mod Tests
use rust_os.Prelude.{
  ℕ, zero, suc, ◌+◌, ◌-◌, ◌*◌, ◌/◌, ◌%◌, ◌<◌, Bool, true, false, not, List, Option, none, some,
  Exec, ret, panic, ◌>>=◌, ◌>>◌, assert, expect, get_elem?, set, length, drop, ltb, ◌==◌,
  if◌then◌else◌, test_bit, set_bit, clear_bit, [], ◌∷◌,
}

abbrev pub bits_per_chunk : ℕ
bits_per_chunk = 64

pub record BitmapAllocator : Type 0 where
  pub bitmap : List ℕ
  pub last_single_page_allocation : Option ℕ

unfoldable pub new : List ℕ → BitmapAllocator
new bitmap = record { bitmap = bitmap; last_single_page_allocation = none }

unfoldable pub mark_used : BitmapAllocator → ℕ → Exec BitmapAllocator
mark_used a page = do
  let index = page / bits_per_chunk
  let bit = page % bits_per_chunk
  chunk ← expect (get_elem? a.bitmap index)
  assert (not (test_bit chunk bit))
  ret (record a { bitmap = set a.bitmap index (set_bit chunk bit) })

unfoldable pub mark_unused : BitmapAllocator → ℕ → Exec BitmapAllocator
mark_unused a page = do
  let index = page / bits_per_chunk
  let bit = page % bits_per_chunk
  chunk ← expect (get_elem? a.bitmap index)
  assert (test_bit chunk bit)
  ret (record a { bitmap = set a.bitmap index (clear_bit bits_per_chunk chunk bit) })

-- `for page in page..page + left { mark(page) }`.
unfoldable pub for_pages :
    (BitmapAllocator → ℕ → Exec BitmapAllocator) → ℕ → ℕ → BitmapAllocator → Exec BitmapAllocator
for_pages mark page zero a = ret a
for_pages mark page (suc left) a = mark a page >>= λ b. for_pages mark (page + 1) left b

-- What the bit loop leaves behind: the early return, or `start` and `current_len`.
pub data Scan : Type 0 where
  found : ℕ → Scan
  unfinished : ℕ → ℕ → Scan

-- `for bit in bit..bit + left` over the chunk `byte` of index `i`.
unfoldable pub scan_bits : ℕ → ℕ → ℕ → ℕ → ℕ → ℕ → ℕ → Scan
scan_bits num_pages i byte zero bit start current_len = unfinished start current_len
scan_bits num_pages i byte (suc left) bit start current_len =
    let rest = scan_bits num_pages i byte left (bit + 1) in
    let after_free =
      if current_len + 1 == num_pages then found start else rest start (current_len + 1) in
    let after_used = rest (i * bits_per_chunk + bit + 1) 0 in
    if test_bit byte bit then after_used else after_free

-- `for i in i..bitmap.len()`; the list is `bitmap[i..]`.
unfoldable pub scan_chunks : ℕ → List ℕ → ℕ → ℕ → ℕ → Option ℕ
scan_chunks num_pages [] i start current_len = none
scan_chunks num_pages (byte ∷ chunks) i start current_len =
    elim (scan_bits num_pages i byte bits_per_chunk 0 start current_len) [
      | found s ↦ some s
      | unfinished s l ↦ scan_chunks num_pages chunks (i + 1) s l
    ]

abbrev pub unwrap_or_zero : Option ℕ → ℕ
unwrap_or_zero none = 0
unwrap_or_zero (some n) = n

unfoldable pub find_next_contiguous : BitmapAllocator → ℕ → Option ℕ
find_next_contiguous a num_pages =
    let start = if num_pages == 1 then unwrap_or_zero a.last_single_page_allocation else 0 in
    let byte_idx = start / bits_per_chunk in
    scan_chunks num_pages (drop byte_idx a.bitmap) byte_idx start 0

-- The search result and the allocator with its hint updated, before the pages are marked.
unfoldable pub take_found : BitmapAllocator → ℕ → Option ℕ → Exec (Option ℕ × BitmapAllocator)
take_found a num_pages none = ret (none, a)
take_found a num_pages (some start) =
    for_pages mark_used start num_pages a >>= λ b. ret (some start, b)

unfoldable pub allocate_contiguous : BitmapAllocator → ℕ → Exec (Option ℕ × BitmapAllocator)
allocate_contiguous a num_pages = do
  assert (ltb 0 num_pages)
  let start = find_next_contiguous a num_pages
  let b = if num_pages == 1 then record a { last_single_page_allocation = start } else a
  take_found b num_pages start

-- The hint after a block that starts at `start_page` is freed.
unfoldable pub lower_hint : ℕ → Option ℕ → Option ℕ
lower_hint start_page none = none
lower_hint start_page (some last) = if ltb start_page last then some start_page else some last

unfoldable pub free_contiguous : BitmapAllocator → ℕ → ℕ → Exec BitmapAllocator
free_contiguous a start_page num_pages = do
  assert (ltb 0 num_pages)
  b ← for_pages mark_unused start_page num_pages a
  ret (record b {
    last_single_page_allocation = lower_hint start_page b.last_single_page_allocation;
  })
