-- ===== src/BitmapAlloc/Marks.antt =====
-- Marking pages, one and many: when it panics, and what it does to the bitmap.
use rust_os.Prelude.{
  ℕ, zero, suc, ◌+◌, ◌/◌, ◌%◌, ◌^◌, ◌<◌, ◌≡◌, refl, sym, ap, subst, ◌∙◌, ◌≢◌, ◌⊎◌, inl, inr, Bool,
  true, false, not, some, List, [], ◌∷◌, arith, ◌==◌, if◌then◌else◌, Option-cases, length,
  get_elem?, set, length-set, Exec, ret, panic, test_bit, set_bit, clear_bit, test_bit-set_bit,
  test_bit-clear_bit, set_bit-lt, clear_bit-lt,
}
use rust_os.BitmapAlloc.{BitmapAllocator, mark_used, mark_unused, for_pages}
use rust_os.BitmapAlloc.Pages.{page_bit, page_bit-set, in_run, in_run-bounds}

-- Every chunk is a `u64`.
abbrev pub IsWords : List ℕ → Type 0
IsWords [] = Unit {0}
IsWords (w ∷ ws) = (w < 2 ^ 64) × IsWords ws

get_elem?-lt : (ws : List ℕ) (i w : ℕ) → IsWords ws → get_elem? ws i ≡ some w → w < 2 ^ 64
get_elem?-lt [] i w h e = absurd (ground (arith))
get_elem?-lt (x ∷ ws) zero w h e = ground (arith)
get_elem?-lt (x ∷ ws) (suc i) w h e = get_elem?-lt ws i w h.1 e

set-IsWords : (ws : List ℕ) (i v : ℕ) → IsWords ws → v < 2 ^ 64 → IsWords (set ws i v)
set-IsWords [] i v h k = tt
set-IsWords (x ∷ ws) zero v h k = (k, h.1)
set-IsWords (x ∷ ws) (suc i) v h k = (h.0, set-IsWords ws i v h.1 k)

-- `b` is `a` with the bits of a set of pages written.
pub record Wrote (a b : BitmapAllocator) (pages : ℕ → Bool) (v : Bool) : Type 0 where
  pub hint : b.last_single_page_allocation ≡ a.last_single_page_allocation
  pub words : IsWords b.bitmap
  pub size : length b.bitmap ≡ length a.bitmap
  pub bits :
      (d : Bool) (q : ℕ) → page_bit d b.bitmap q ≡ (if pages q then v else page_bit d a.bitmap q)

-- What the two markers have in common: a page that holds the other value is written, and a page
-- that holds the value, or lies beyond the bitmap, is a panic.
pub record Marker (mark : BitmapAllocator → ℕ → Exec BitmapAllocator) (v : Bool) : Type 0 where
  pub writes :
      (a : BitmapAllocator) (p : ℕ)
      → IsWords a.bitmap
      → page_bit v a.bitmap p ≡ not v
      → (b : BitmapAllocator) × (mark a p ≡ ret b) × Wrote a b (λ q. p == q) v
  pub refuses : (a : BitmapAllocator) (p : ℕ) → page_bit v a.bitmap p ≡ v → mark a p ≡ panic

page_bit-not :
    (v : Bool) (bm : List ℕ) (p : ℕ)
    → page_bit v bm p ≡ not v
    → (w : ℕ) × (get_elem? bm (p / 64) ≡ some w) × (test_bit w (p % 64) ≡ not v)
page_bit-not v bm p h = elim (Option-cases (get_elem? bm (p / 64))) [
  | inl e ↦ absurd (clash v (ground (arith)))
  | inr (w, e) ↦ (w, e, ground (arith))
]
  where
    clash : (b : Bool) → b ≡ not b → ⊥
    clash true e = cc
    clash false e = cc

pub mark_used-Marker : Marker mark_used true
unfolding mark_used
mark_used-Marker = record {
  writes = λ a p ws h.
      let (w, here, clear) = page_bit-not true a.bitmap p h in
      (
        record a { bitmap = set a.bitmap (p / 64) (set_bit w (p % 64)) },
        ground (arith, here, clear),
        record {
          hint = refl;
          words =
              set-IsWords a.bitmap (p / 64) (set_bit w (p % 64)) ws
                (set_bit-lt 64 w (p % 64) (get_elem?-lt a.bitmap (p / 64) w ws here) (omega arith));
          size = length-set a.bitmap (p / 64) (set_bit w (p % 64));
          bits = λ d q.
              page_bit-set a.bitmap p w here d (set_bit w (p % 64)) true q
                (test_bit-set_bit w (p % 64) (q % 64));
        },
      );
  refuses = λ a p h. elim (Option-cases (get_elem? a.bitmap (p / 64))) [
    | inl e ↦ ground (arith, e)
    | inr (w, e) ↦ ground (arith, e)
  ];
}

pub mark_unused-Marker : Marker mark_unused false
unfolding mark_unused
mark_unused-Marker = record {
  writes = λ a p ws h.
      let (w, here, full) = page_bit-not false a.bitmap p h in
      let fits = get_elem?-lt a.bitmap (p / 64) w ws here in
      (
        record a { bitmap = set a.bitmap (p / 64) (clear_bit 64 w (p % 64)) },
        ground (arith, here, full),
        record {
          hint = refl;
          words =
              set-IsWords a.bitmap (p / 64) (clear_bit 64 w (p % 64)) ws
                (clear_bit-lt 64 w (p % 64) fits (omega arith));
          size = length-set a.bitmap (p / 64) (clear_bit 64 w (p % 64));
          bits = λ d q.
              page_bit-set a.bitmap p w here d (clear_bit 64 w (p % 64)) false q
                (test_bit-clear_bit 64 w (p % 64) (q % 64) fits (omega arith));
        },
      );
  refuses = λ a p h. elim (Option-cases (get_elem? a.bitmap (p / 64))) [
    | inl e ↦ ground (arith, e)
    | inr (w, e) ↦ ground (arith, e)
  ];
}

same_or_not : (x v : Bool) → (x ≡ v) ⊎ (x ≡ not v)
same_or_not true true = inl refl
same_or_not true false = inr refl
same_or_not false true = inr refl
same_or_not false false = inl refl

page_bit-ne :
    (v : Bool) (bm : List ℕ) (p q : ℕ) → page_bit v bm q ≡ v → page_bit v bm p ≡ not v → p ≢ q
page_bit-ne v bm p q h k e = clash v (sym h ∙ ap (page_bit v bm) (sym e) ∙ k)
  where
    clash : (b : Bool) → b ≡ not b → ⊥
    clash true c = cc
    clash false c = cc

module _ {mark : BitmapAllocator → ℕ → Exec BitmapAllocator} {v : Bool} (m : Marker mark v) where
  -- A run of pages that all hold the other value is written as a whole.
  pub for_pages-Wrote :
      (page left : ℕ) (a : BitmapAllocator)
      → IsWords a.bitmap
      → ((q : ℕ) → in_run page left q ≡ true → page_bit v a.bitmap q ≡ not v)
      → (b : BitmapAllocator) × (for_pages mark page left a ≡ ret b)
        × Wrote a b (in_run page left) v
  unfolding for_pages in_run
  for_pages-Wrote page zero a ws h =
      (a, refl, record { hint = refl; words = ws; size = refl; bits = λ d q. refl })
  for_pages-Wrote page (suc left) a ws h =
      let (b, e, w) = m.writes a page ws (h page (ground arith)) in
      let (c, e', w') =
        for_pages-Wrote (page + 1) left b w.words
          (λ q r. ground (arith, w.bits v q, h q, in_run-bounds (page + 1) left q r)) in
      (
        c,
        ground (arith, e, e'),
        record {
          hint = w'.hint ∙ w.hint;
          words = w'.words;
          size = w'.size ∙ w.size;
          bits = λ d q. ground (arith, w.bits d q, w'.bits d q);
        },
      )

  -- One page of the run that holds the value already, or lies beyond the bitmap, is a panic.
  pub for_pages-panic :
      (page left : ℕ) (a : BitmapAllocator) (q : ℕ)
      → IsWords a.bitmap
      → in_run page left q ≡ true
      → page_bit v a.bitmap q ≡ v
      → for_pages mark page left a ≡ panic
  unfolding for_pages in_run
  for_pages-panic page zero a q ws r h = cc
  for_pages-panic page (suc left) a q ws r h = elim (same_or_not (page_bit v a.bitmap page) v) [
    | inl e ↦ ground (arith, m.refuses a page e)
    | inr e ↦
        let (b, e', w) = m.writes a page ws e in
        ground (
          arith,
          e',
          page_bit-ne v a.bitmap page q h e,
          w.bits v q,
          for_pages-panic (page + 1) left b q w.words,
        )
  ]

  -- What a run of marks did, if it came to its end.
  pub for_pages_ret :
      (page left : ℕ) (a b : BitmapAllocator)
      → IsWords a.bitmap
      → for_pages mark page left a ≡ ret b
      → Wrote a b (in_run page left) v
  for_pages_ret page left a b ws e =
      let (c, e', w) = for_pages-Wrote page left a ws fresh in
      let same : ◌≡◌ {A = Exec BitmapAllocator} (ret c) (ret b) = sym e' ∙ e in
      let state : c ≡ b = cc in subst (λ x. Wrote a x (in_run page left) v) state w
    where
      fresh : (q : ℕ) → in_run page left q ≡ true → page_bit v a.bitmap q ≡ not v
      fresh q r = elim (same_or_not (page_bit v a.bitmap q) v) [
        | inl old ↦ absurd (cc (for_pages-panic page left a q ws r old))
        | inr ok ↦ ok
      ]

pub Wrote-pages :
    {a b : BitmapAllocator} (f g : ℕ → Bool) (v : Bool)
    → ((q : ℕ) → f q ≡ g q)
    → Wrote a b f v
    → Wrote a b g v
Wrote-pages f g v same w = record {
  hint = w.hint;
  words = w.words;
  size = w.size;
  bits = λ d q. ground (arith, same q, w.bits d q);
}
