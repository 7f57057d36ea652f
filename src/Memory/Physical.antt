-- ===== src/Memory/Physical.antt =====
-- Allocating and freeing physical pages, on top of the bitmap allocator.
use rust_os.Prelude.{
  ℕ, ◌+◌, ◌-◌, ◌*◌, ◌/◌, ◌%◌, ◌^◌, ◌≤◌, ◌<◌, ◌≡◌, refl, ◌∙◌, true, false, ◌&&◌, Option, none, some,
  List, arith, dec_lt, ℕ_discrete, ltb, leb, ◌==◌, length, get_elem?, get_elem?-none, ret,
}
use mathlib.Core.Option
use rust_os.BitmapAlloc.{BitmapAllocator, allocate_contiguous}
use rust_os.BitmapAlloc.Pages.{is_used, run_free-in}
use rust_os.BitmapAlloc.Search.{IsValid}
use rust_os.BitmapAlloc.Allocate.{
  Allocated, Outcome, allocate_contiguous-Outcome, allocate_contiguous-Allocated,
}
use rust_os.BitmapAlloc.Free.{free-allocate}
use rust_os.Memory.{
  AddressLibrary, PageRange, size4_kib, page_size, kernel_physical_mapping_start,
  kernel_physical_mapping_end, kern_phys_addr, from_phys_addr, to_phys_addr, from_start_addr,
  page_range_at, allocate_pages, free_pages,
}

-- The pages `[s, s + num)` in the kernel's window.
abbrev pub range_of : ℕ → ℕ → PageRange
range_of s num = record {
  start = record { start_addr = s * page_size + kernel_physical_mapping_start; size = size4_kib };
  num_pages = num;
}

-- The bitmap's pages fit into the window.
abbrev pub InWindow : BitmapAllocator → Type 0
InWindow a =
    length a.bitmap * 64 * page_size
    ≤ kernel_physical_mapping_end + 1 - kernel_physical_mapping_start

module _ (lib : AddressLibrary) (s : ℕ)
    (small : s * page_size ≤ kernel_physical_mapping_end - kernel_physical_mapping_start) where
  abbrev pub address : ℕ
  address = s * page_size + kernel_physical_mapping_start

  pub aligned : lib.align_down address 4096 ≡ address
  aligned =
      let whole : address % 4096 ≡ 0 = omega arith in
      lib.align_down_lem address 12 ∙ omega (arith, whole)

  in_window :
      (leb kernel_physical_mapping_start address && leb address kernel_physical_mapping_end) ≡ true
  in_window = ground arith

  pub from_phys_addr_lem : from_phys_addr (s * page_size) ≡ ret address
  unfolding from_phys_addr kern_phys_addr
  from_phys_addr_lem = let t : ltb address (2 ^ 64) ≡ true = ground arith in rw (t, in_window)

  pub to_phys_addr_lem : to_phys_addr lib address ≡ ret (s * page_size)
  unfolding to_phys_addr
  to_phys_addr_lem =
      let back : address - kernel_physical_mapping_start ≡ s * page_size = omega arith in
      rw (in_window, back) (lib.phys_addr_lem (s * page_size) (omega arith))

  page_range_at_lem :
      (a : BitmapAllocator) (num : ℕ)
      → 0 < s
      → page_range_at lib a num (some s) ≡ ret (some (range_of s num), a)
  unfolding page_range_at from_start_addr
  page_range_at_lem a num positive =
      let t1 : ltb 0 s ≡ true = ground arith in
      let t2 : ltb (s * page_size) (2 ^ 64) ≡ true = ground arith in
      let t3 : (address == address) ≡ true = ground arith in
      let phys = lib.phys_addr_lem (s * page_size) (omega arith) in
      rw (t1, t2, phys, from_phys_addr_lem, aligned, t3)

-- A free page lies inside the bitmap.
pub free_inside : (bitmap : List ℕ) (p : ℕ) → is_used bitmap p ≡ false → p < length bitmap * 64
free_inside bitmap p free = elim (dec_lt (p / 64) (length bitmap)) [
  | yes h ↦ omega arith
  | no h ↦
      let beyond : get_elem? bitmap (p / 64) ≡ none =
        get_elem?-none bitmap (p / 64) (omega arith) in
      absurd (ground (arith, beyond, free))
]

module _ (lib : AddressLibrary) (a : BitmapAllocator) (num : ℕ) (valid : IsValid a)
    (some_pages : 0 < num) (zero_page : is_used a.bitmap 0 ≡ true) (window : InWindow a) where
  start_facts :
      (s : ℕ) (b : BitmapAllocator)
      → Allocated a num s b
      → (0 < s) × (s * page_size ≤ kernel_physical_mapping_end - kernel_physical_mapping_start)
  start_facts s b o =
      let first : is_used a.bitmap s ≡ false =
        run_free-in (is_used a.bitmap) s num s o.was_free (omega arith) (omega arith) in
      let inside = free_inside a.bitmap s first in
      (
        elim (ℕ_discrete s 0) [
          | yes same ↦
              let both : is_used a.bitmap 0 ≡ false = rw (← same) first in
              absurd (ground (arith, both, zero_page))
          | no ne ↦ omega arith
        ],
        omega arith,
      )

  pages_of-Outcome :
      (r : Option ℕ) (b : BitmapAllocator)
      → Outcome a num r b
      → page_range_at lib b num r ≡ ret (Option.map (λ s. range_of s num) r, b)
  unfolding page_range_at
  pages_of-Outcome none b o = refl
  pages_of-Outcome (some s) b o =
      let facts = start_facts s b o in page_range_at_lem lib s facts.1 b num facts.0

  -- When page zero is not free and the bitmap's pages fit into the kernel's window, a valid
  -- allocator never panics on a request for at least one page. It returns the lowest free run of
  -- pages, at its address in the window, and marks it; or nothing when there is no such run.
  pub allocate_pages_lem :
      (r : Option ℕ) × (b : BitmapAllocator) × (allocate_pages lib a num
        ≡ ret (Option.map (λ s. range_of s num) r, b))
      × Outcome a num r b
  unfolding allocate_pages
  allocate_pages_lem =
      let (r, b, run, o) = allocate_contiguous-Outcome a num valid some_pages in
      (r, b, rw run (pages_of-Outcome r b o), o)

  -- Freeing the pages that were just allocated never panics and makes every page as used as it was
  -- before.
  pub free_pages-allocate_pages :
      (s : ℕ) (b : BitmapAllocator)
      → allocate_contiguous a num ≡ ret (some s, b)
      → (c : BitmapAllocator) × (allocate_pages lib a num ≡ ret (some (range_of s num), b))
        × (free_pages lib b (range_of s num) ≡ ret c)
        × ((q : ℕ) → is_used c.bitmap q ≡ is_used a.bitmap q)
        × IsValid c
  unfolding allocate_pages free_pages
  free_pages-allocate_pages s b run =
      let o = allocate_contiguous-Allocated a b num s valid some_pages run in
      let facts = start_facts s b o in
      let (c, freed, same, good) = free-allocate a b num s valid some_pages run in
      let page : s * page_size / 4096 ≡ s = omega arith in
      (
        c,
        rw run (pages_of-Outcome (some s) b o),
        rw (to_phys_addr_lem lib s facts.1, page) freed,
        same,
        good,
      )
