-- ===== src/Memory/Ranges.antt =====
-- The pages of a range, one after the other.
use rust_os.Prelude.{
  ℕ, ◌+◌, ◌*◌, ◌^◌, ◌≤◌, ◌<◌, ◌≡◌, true, false, ◌&&◌, none, some, arith, dec_lt, ltb, leb,
  if◌then◌else◌, ret,
}
use native.Mathlib.Nat.{div-add-mod, mod-lt}
use rust_os.Memory.{
  Page, PageRange, PageSize, size_bytes, size4_kib, size2_mib, size1_gib, next_page, add_usize,
  kern_phys_addr, kernel_physical_mapping_start, kernel_physical_mapping_end, from_num_bytes,
}

-- A range that lies in the kernel's window.
pub record InRange (r : PageRange) : Type 0 where
  pub low : kernel_physical_mapping_start ≤ r.start.start_addr
  pub high :
      r.start.start_addr + r.num_pages * size_bytes r.start.size ≤ kernel_physical_mapping_end + 1

abbrev pub page_at : PageRange → ℕ → Page
page_at r i = record {
  start_addr = r.start.start_addr + i * size_bytes r.start.size;
  size = r.start.size;
}

size_bytes-pos : (s : PageSize) → 0 < size_bytes s
size_bytes-pos size4_kib = omega arith
size_bytes-pos size2_mib = omega arith
size_bytes-pos size1_gib = omega arith

-- Over a range in the kernel's window the iterator never panics: at position `i` it yields the page
-- that begins `i` page sizes after the start, as long as `i` is below the number of pages, and then
-- it ends.
pub next_page_lem :
    (r : PageRange) (i : ℕ)
    → InRange r
    → next_page r i ≡ ret (if ltb i r.num_pages then (some (page_at r i), i + 1) else (none, i))
unfolding next_page add_usize kern_phys_addr
next_page_lem r i w = elim (dec_lt i r.num_pages) [
  | no h ↦
      let t1 : ltb i r.num_pages ≡ false = ground arith in
      let t2 : leb r.num_pages i ≡ true = ground arith in rw (t1, t2)
  | yes h ↦
      let t1 : ltb i r.num_pages ≡ true = ground arith in
      let t2 : leb r.num_pages i ≡ false = ground arith in
      let size = size_bytes r.start.size in
      let positive = size_bytes-pos r.start.size in
      let below : i * size + size ≤ r.num_pages * size = grind arith in
      let at = r.start.start_addr + i * size in
      let t3 : ltb (i * size) (2 ^ 64) ≡ true = ground (arith, w.high) in
      let t4 : ltb at (2 ^ 64) ≡ true = ground (arith, w.high) in
      let t5 : (leb kernel_physical_mapping_start at && leb at kernel_physical_mapping_end) ≡ true =
        ground (arith, w.low, w.high) in
      rw (t1, t2, t3, t4, t5)
]

-- A range made from a number of bytes covers them, and has less than a page to spare.
pub from_num_bytes_lem :
    (start : Page) (bytes : ℕ)
    → (bytes ≤ (from_num_bytes start bytes).num_pages * size_bytes start.size)
      × ((from_num_bytes start bytes).num_pages * size_bytes start.size
          < bytes + size_bytes start.size)
unfolding from_num_bytes
from_num_bytes_lem start bytes =
    let positive = size_bytes-pos start.size in
    let size = size_bytes start.size in
    (
      grind (arith, div-add-mod bytes size, mod-lt bytes positive),
      grind (arith, div-add-mod bytes size, mod-lt bytes positive),
    )
