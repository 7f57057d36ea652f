-- ===== src/Memory/PageTable/Frames.antt =====
-- Allocating one page of physical memory for a table or as a target.
use rust_os.Prelude.{
  ℕ, ◌+◌, ◌-◌, ◌*◌, ◌≤◌, ◌≡◌, refl, inl, inr, true, false, Option, none, some, arith, ◌==◌,
  if◌then◌else◌, Bool-cases, length, ret,
}
use mathlib.Core.Option
use rust_os.BitmapAlloc.{BitmapAllocator}
use rust_os.BitmapAlloc.Pages.{is_used, run_free, in_run, run_free-one, run_free-in}
use rust_os.BitmapAlloc.Search.{IsValid}
use rust_os.BitmapAlloc.Allocate.{Outcome}
use rust_os.Memory.{
  AddressLibrary, Page, PageRange, page_size, kernel_physical_mapping_start,
  kernel_physical_mapping_end, only_page, allocate_page,
}
use rust_os.Memory.Ranges.{next_page_lem}
use rust_os.Memory.Physical.{range_of, InWindow, allocate_pages_lem, free_inside}

-- What every operation expects of the allocator of physical pages.
pub record IsReady (a : BitmapAllocator) : Type 0 where
  pub valid : IsValid a
  pub zero_page : is_used a.bitmap 0 ≡ true
  pub window : InWindow a

-- The page with number `s` fits into the kernel's window; its page.
abbrev pub IsInside : ℕ → Type 0
IsInside s = (s + 1) * page_size ≤ kernel_physical_mapping_end + 1 - kernel_physical_mapping_start

abbrev pub page_of : ℕ → Page
page_of s = (range_of s 1).start

pub record Took (a : BitmapAllocator) (s : ℕ) (b : BitmapAllocator) : Type 0 where
  pub was_free : is_used a.bitmap s ≡ false
  pub inside : IsInside s
  pub used : (q : ℕ) → is_used b.bitmap q ≡ (if s == q then true else is_used a.bitmap q)
  pub ready : IsReady b

abbrev pub Answer : BitmapAllocator → Option ℕ → BitmapAllocator → Type 0
Answer a (some s) b = Took a s b
Answer a none b = ((q : ℕ) → is_used a.bitmap q ≡ true) × (b.bitmap ≡ a.bitmap) × IsReady b

only_page_lem :
    (a : BitmapAllocator) (s : ℕ)
    → IsInside s
    → only_page a (some (range_of s 1)) ≡ ret (some (page_of s), a)
unfolding only_page
only_page_lem a s small =
    let r : PageRange = range_of s 1 in
    let first = next_page_lem r 0 (record { low = omega arith; high = omega arith }) in
    let second = next_page_lem r 1 (record { low = omega arith; high = omega arith }) in
    let at : s * page_size + kernel_physical_mapping_start + 0
        ≡ s * page_size + kernel_physical_mapping_start =
      omega arith in
    rw (first, second, at)

module _ (lib : AddressLibrary) (a : BitmapAllocator) (ready : IsReady a) where
  all_used :
      ((t : ℕ) → t + 1 ≤ length a.bitmap * 64 → run_free (is_used a.bitmap) t 1 ≡ false)
      → (q : ℕ) → is_used a.bitmap q ≡ true
  all_used nothing q = elim (Bool-cases (is_used a.bitmap q)) [
    | inl e ↦ e
    | inr e ↦
        run_free-one (is_used a.bitmap) q (nothing q (omega (arith, free_inside a.bitmap q e)))
  ]

  Answer-of-Outcome : (r : Option ℕ) (b : BitmapAllocator) → Outcome a 1 r b → Answer a r b
  unfolding in_run
  Answer-of-Outcome none b (same, valid, nothing) = (
    all_used nothing,
    same,
    record { valid = valid; zero_page = rw same ready.zero_page; window = rw same ready.window },
  )
  Answer-of-Outcome (some s) b o =
      let free = run_free-in (is_used a.bitmap) s 1 s o.was_free (omega arith) (omega arith) in
      let inside = free_inside a.bitmap s free in
      record {
        was_free = free;
        inside = omega (arith, ready.window);
        used = λ q. ground (arith, o.bits true q);
        ready = record {
          valid = o.valid;
          zero_page = ground (arith, o.bits true 0, ready.zero_page);
          window = omega (arith, ready.window, o.size);
        };
      }

  pub allocate_page_lem :
      (r : Option ℕ) × (b : BitmapAllocator) × (allocate_page lib a ≡ ret (Option.map page_of r, b))
      × Answer a r b
  unfolding allocate_page only_page
  allocate_page_lem =
      let (r, b, run, o) =
        allocate_pages_lem lib a 1 ready.valid (omega arith) ready.zero_page ready.window in
      (r, b, rw run (last r b (Answer-of-Outcome r b o)), Answer-of-Outcome r b o)
    where
      last :
          (r : Option ℕ) (b : BitmapAllocator)
          → Answer a r b
          → only_page b (Option.map (λ s. range_of s 1) r) ≡ ret (Option.map page_of r, b)
      last none b o = refl
      last (some s) b o = only_page_lem b s o.inside
