-- ===== src/BitmapAlloc/Free.antt =====
-- `free_contiguous`: it gives back exactly the pages it is asked to, refuses a page that is not
-- allocated, and undoes an allocation.
use rust_os.Prelude.{
  ℕ, ◌+◌, ◌≤◌, ◌<◌, ◌≡◌, ap, subst, Bool, true, false, Option, none, some, arith, if◌then◌else◌,
  length, ret, panic,
}
use rust_os.BitmapAlloc.{
  BitmapAllocator, unwrap_or_zero, lower_hint, free_contiguous, allocate_contiguous,
}
use rust_os.BitmapAlloc.Pages.{
  page_bit, is_used, is_allocated, run_used, run_used-in, in_run, in_run-bounds, in_run_above,
  in_run_inside, run_used_of_all, run_free-in,
}
use rust_os.BitmapAlloc.Marks.{mark_unused-Marker, for_pages-Wrote, for_pages-panic}
use rust_os.BitmapAlloc.Search.{IsValid}
use rust_os.BitmapAlloc.Allocate.{allocate_contiguous-Allocated}

-- The state after a run of pages is given back.
pub record Freed (a : BitmapAllocator) (s num : ℕ) (b : BitmapAllocator) : Type 0 where
  pub bits :
      (d : Bool) (q : ℕ)
      → page_bit d b.bitmap q ≡ (if in_run s num q then false else page_bit d a.bitmap q)
  pub size : length b.bitmap ≡ length a.bitmap
  pub hint : b.last_single_page_allocation ≡ lower_hint s a.last_single_page_allocation
  pub valid : IsValid b

lower_hint-le :
    (s p : ℕ) (o : Option ℕ)
    → p < unwrap_or_zero (lower_hint s o)
    → (p < unwrap_or_zero o) × (p < s)
unfolding lower_hint
lower_hint-le s p none lt = absurd (omega arith)
lower_hint-le s p (some l) lt = ground arith

-- On a valid allocator a block of allocated pages can be given back: its pages are then free,
-- no other page changes, and the allocator stays valid.
pub free_contiguous-Freed :
    (a : BitmapAllocator) (s num : ℕ)
    → IsValid a
    → 0 < num
    → run_used (is_allocated a.bitmap) s num ≡ true
    → (b : BitmapAllocator) × (free_contiguous a s num ≡ ret b) × Freed a s num b
unfolding free_contiguous
free_contiguous-Freed a s num v pos full =
    let (b, run, w) = for_pages-Wrote mark_unused-Marker s num a v.words (λ q r.
      run_used-in (is_allocated a.bitmap) s num q full (in_run-bounds s num q r).0
        (in_run-bounds s num q r).1) in
    let hint = lower_hint s b.last_single_page_allocation in
    (
      record b { last_single_page_allocation = hint },
      ground (arith, run),
      record {
        bits = w.bits;
        size = w.size;
        hint = ap (lower_hint s) w.hint;
        valid = record {
          words = w.words;
          hint = λ p lt.
              let below = lower_hint-le s p b.last_single_page_allocation lt in
              let old : p < unwrap_or_zero a.last_single_page_allocation =
                subst (λ o. p < unwrap_or_zero o) w.hint below.0 in
              ground (arith, w.bits true p, v.hint p old, in_run_above s num p below.1);
        };
      },
    )

-- A block with a page that is not allocated is refused.
pub free_contiguous-panic :
    (a : BitmapAllocator) (s num q : ℕ)
    → IsValid a
    → s ≤ q
    → q < s + num
    → is_allocated a.bitmap q ≡ false
    → free_contiguous a s num ≡ panic
unfolding free_contiguous
free_contiguous-panic a s num q v lo hi clear =
    let stop =
      for_pages-panic mark_unused-Marker s num a q v.words (in_run_inside s num q lo hi) clear in
    let pos : 0 < num = omega arith in ground (arith, stop)

-- An allocation that is freed again leaves every page as it was.
pub free-allocate :
    (a b : BitmapAllocator) (num s : ℕ)
    → IsValid a
    → 0 < num
    → allocate_contiguous a num ≡ ret (some s, b)
    → (c : BitmapAllocator) × (free_contiguous b s num ≡ ret c)
      × ((q : ℕ) → is_used c.bitmap q ≡ is_used a.bitmap q)
      × IsValid c
free-allocate a b num s v pos e =
    let o = allocate_contiguous-Allocated a b num s v pos e in
    let full : run_used (is_allocated b.bitmap) s num ≡ true =
      run_used_of_all (is_allocated b.bitmap) s num (λ q r. ground (arith, o.bits false q, r)) in
    let (c, run, f) = free_contiguous-Freed b s num o.valid pos full in
    (
      c,
      run,
      (λ q. ground (
        arith,
        f.bits true q,
        o.bits true q,
        run_free-in (is_used a.bitmap) s num q o.was_free,
        in_run-bounds s num q,
      )),
      f.valid,
    )
