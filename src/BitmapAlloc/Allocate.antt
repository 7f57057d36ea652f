-- ===== src/BitmapAlloc/Allocate.antt =====
-- `allocate_contiguous`: what it returns, what it marks, and that it keeps the invariant.
use rust_os.Prelude.{
  ℕ, ◌+◌, ◌*◌, ◌≤◌, ◌<◌, ◌≡◌, refl, sym, ap, subst, ◌∙◌, Bool, true, false, Option, none, some,
  arith, ℕ_discrete, ◌==◌, if◌then◌else◌, length, Exec, ret,
}
use mathlib.Core.Path.{subst₂}
use rust_os.BitmapAlloc.{
  BitmapAllocator, unwrap_or_zero, find_next_contiguous, take_found, allocate_contiguous,
}
use rust_os.BitmapAlloc.Pages.{
  page_bit, is_used, run_free, run_free-one, run_free-in, in_run, in_run-bounds,
}
use rust_os.BitmapAlloc.Marks.{Wrote, mark_used-Marker, for_pages-Wrote}
use rust_os.BitmapAlloc.Search.{IsValid, Answers, find_next_contiguous-Answers}

-- The state after the hint is updated, which is the state that the pages are marked in.
abbrev hinted : BitmapAllocator → ℕ → BitmapAllocator
hinted a num =
    if num == 1 then record a { last_single_page_allocation = find_next_contiguous a num } else a

bitmap-hinted : (a : BitmapAllocator) (num : ℕ) → (hinted a num).bitmap ≡ a.bitmap
bitmap-hinted a num = ground arith

lowest_hint :
    (u : ℕ → Bool) (limit p : ℕ) (r : Option ℕ)
    → Answers u 1 limit r
    → p < unwrap_or_zero r
    → u p ≡ true
lowest_hint u limit p none a lt = absurd (omega arith)
lowest_hint u limit p (some s) a lt = run_free-one u p (a.1 p lt)

-- No page below the hint is free, also below the new one.
hinted-IsValid : (a : BitmapAllocator) (num : ℕ) → IsValid a → 0 < num → IsValid (hinted a num)
hinted-IsValid a num v pos = elim (ℕ_discrete num 1) [
  | yes e ↦ rw e (record {
    words = v.words;
    hint = λ p lt.
        lowest_hint (is_used a.bitmap) (length a.bitmap * 64) p (find_next_contiguous a 1)
          (find_next_contiguous-Answers a 1 v (omega arith)) lt;
  })
  | no ne ↦ let t : (num == 1) ≡ false = ground arith in rw t v
]

-- Marking pages as used keeps the invariant.
Wrote-IsValid :
    (a b : BitmapAllocator) (pages : ℕ → Bool) → IsValid a → Wrote a b pages true → IsValid b
Wrote-IsValid a b pages v w = record {
  words = w.words;
  hint =
      λ p lt. ground (arith, w.bits true p, v.hint p (subst (λ o. p < unwrap_or_zero o) w.hint lt));
}

take_found-eq :
    (a : BitmapAllocator) (num : ℕ)
    → 0 < num
    → allocate_contiguous a num ≡ take_found (hinted a num) num (find_next_contiguous a num)
unfolding allocate_contiguous
take_found-eq a num pos = ground arith

-- What an allocation returns with the state that it leaves: nothing, or the lowest free run,
-- which is then used, and nothing else changes.
pub record Allocated (a : BitmapAllocator) (num s : ℕ) (b : BitmapAllocator) : Type 0 where
  pub was_free : run_free (is_used a.bitmap) s num ≡ true
  pub lowest : (t : ℕ) → t < s → run_free (is_used a.bitmap) t num ≡ false
  pub bits :
      (d : Bool) (q : ℕ)
      → page_bit d b.bitmap q ≡ (if in_run s num q then true else page_bit d a.bitmap q)
  pub size : length b.bitmap ≡ length a.bitmap
  pub valid : IsValid b

abbrev pub Outcome : BitmapAllocator → ℕ → Option ℕ → BitmapAllocator → Type 0
Outcome a num (some s) b = Allocated a num s b
Outcome a num none b =
    (b.bitmap ≡ a.bitmap)
    × IsValid b
    × ((t : ℕ) → t + num ≤ length a.bitmap * 64 → run_free (is_used a.bitmap) t num ≡ false)

take_found-Outcome :
    (a : BitmapAllocator) (num : ℕ) (r : Option ℕ)
    → find_next_contiguous a num ≡ r
    → IsValid a
    → 0 < num
    → (b : BitmapAllocator) × (take_found (hinted a num) num r ≡ ret (r, b)) × Outcome a num r b
unfolding take_found
take_found-Outcome a num none e v pos =
    let none_fits =
      subst (Answers (is_used a.bitmap) num (length a.bitmap * 64)) e
        (find_next_contiguous-Answers a num v pos) in
    (hinted a num, refl, (bitmap-hinted a num, hinted-IsValid a num v pos, none_fits))
take_found-Outcome a num (some s) e v pos =
    let found =
      subst (Answers (is_used a.bitmap) num (length a.bitmap * 64)) e
        (find_next_contiguous-Answers a num v pos) in
    let v' = hinted-IsValid a num v pos in
    let same = bitmap-hinted a num in
    let (b, run, w) = for_pages-Wrote mark_used-Marker s num (hinted a num) v'.words (λ q r.
      rw same (
        run_free-in (is_used a.bitmap) s num q found.0 (in_run-bounds s num q r).0
          (in_run-bounds s num q r).1)) in
    (
      b,
      rw run,
      record {
        was_free = found.0;
        lowest = found.1;
        bits = λ d q.
            subst (λ bm. page_bit d b.bitmap q ≡ (if in_run s num q then true else page_bit d bm q))
              same (w.bits d q);
        size = w.size ∙ ap length same;
        valid = Wrote-IsValid (hinted a num) b (in_run s num) v' w;
      },
    )

-- On a valid allocator a request for at least one page never panics. It answers with the
-- lowest free run, which it marks and nothing else, or with nothing, when there is no such run;
-- the allocator stays valid.
pub allocate_contiguous-Outcome :
    (a : BitmapAllocator) (num : ℕ)
    → IsValid a
    → 0 < num
    → (r : Option ℕ) × (b : BitmapAllocator) × (allocate_contiguous a num ≡ ret (r, b))
      × Outcome a num r b
allocate_contiguous-Outcome a num v pos =
    let (b, e, o) = take_found-Outcome a num (find_next_contiguous a num) refl v pos in
    (find_next_contiguous a num, b, take_found-eq a num pos ∙ e, o)

-- An allocation that answers with a run has the properties of the outcome.
pub allocate_contiguous-Allocated :
    (a b : BitmapAllocator) (num s : ℕ)
    → IsValid a
    → 0 < num
    → allocate_contiguous a num ≡ ret (some s, b)
    → Allocated a num s b
allocate_contiguous-Allocated a b num s v pos e =
    let (r, c, e', o) = allocate_contiguous-Outcome a num v pos in
    let same : ◌≡◌ {A = Exec (Option ℕ × BitmapAllocator)} (ret (r, c)) (ret (some s, b)) =
      sym e' ∙ e in
    let answer : r ≡ some s = cc in let state : c ≡ b = cc in subst₂ (Outcome a num) answer state o
