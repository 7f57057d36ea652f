-- ===== src/BitmapAlloc/Bootstrap/Startup.antt =====
-- What the allocator holds after its start.
use rust_os.Prelude.{
  ℕ, zero, suc, ◌+◌, ◌*◌, ◌/◌, ◌%◌, ◌≤◌, ◌<◌, ◌≡◌, refl, subst, ◌∙◌, inl, inr, Bool, true, false,
  not, ◌&&◌, ◌||◌, none, some, List, [], ◌∷◌, arith, ◌==◌, Bool-cases, get_elem?, ret, div_ceil,
  Exec-cases, test_bit, test_bit_ones,
}
use rust_os.BitmapAlloc.{BitmapAllocator, new}
use rust_os.BitmapAlloc.Pages.{is_used}
use rust_os.BitmapAlloc.Marks.{IsWords, Wrote}
use rust_os.BitmapAlloc.Search.{IsValid}
use rust_os.BitmapAlloc.Bootstrap.{
  MemoryRegion, mark_region, max_end, find_bitmap_start, mark_free_regions, fill, bitmap_region,
  bootstrap_allocator,
}
use rust_os.BitmapAlloc.Bootstrap.Regions.{covers, touches, mark_region_free, mark_region_reserved}

-- Page `p` lies inside one of the free regions.
unfoldable pub free_page : ℕ → List MemoryRegion → ℕ → Bool
free_page size [] p = false
free_page size (r ∷ rs) p = (r.free && covers size r p) || free_page size rs p

Wrote-trans :
    {a b c : BitmapAllocator} (f g h : ℕ → Bool) (v : Bool)
    → ((q : ℕ) → (f q || g q) ≡ h q)
    → Wrote a b f v
    → Wrote b c g v
    → Wrote a c h v
Wrote-trans f g h v same w w' = record {
  hint = w'.hint ∙ w.hint;
  words = w'.words;
  size = w'.size ∙ w.size;
  bits = λ d q. ground (arith, same q, w.bits d q, w'.bits d q);
}

Wrote-nothing :
    {a : BitmapAllocator} (f : ℕ → Bool) (v : Bool)
    → ((q : ℕ) → f q ≡ false)
    → IsWords a.bitmap
    → Wrote a a f v
Wrote-nothing f v untouched ws = record {
  hint = refl;
  words = ws;
  size = refl;
  bits = λ d q. ground (arith, untouched q);
}

module _ (size : ℕ) (pos : 0 < size) where
  mark_free_regions-Wrote :
      (rs : List MemoryRegion) (a b : BitmapAllocator)
      → IsWords a.bitmap
      → mark_free_regions size rs a ≡ ret b
      → Wrote a b (free_page size rs) false
  unfolding mark_free_regions free_page
  mark_free_regions-Wrote [] a b ws e =
      let same : a ≡ b = cc in
      subst (λ x. Wrote a x (λ q. false) false) same
        (Wrote-nothing (λ q. false) false (λ q. refl) ws)
  mark_free_regions-Wrote (r ∷ rs) a b ws e = elim (Bool-cases r.free) [
    | inl f ↦ elim (Exec-cases (mark_region false r size a)) [
      | inl stop ↦ absurd (ground (arith, stop))
      | inr (c, run) ↦
          let w = mark_region_free size pos r a c f ws run in
          Wrote-trans (covers size r) (free_page size rs) (free_page size (r ∷ rs)) false
            (λ q. ground (arith)) w (mark_free_regions-Wrote rs c b w.words (ground (arith, run)))
    ]
    | inr taken ↦
        let w = mark_free_regions-Wrote rs a b ws (ground (arith)) in
        Wrote-trans (λ q. false) (free_page size rs) (free_page size (r ∷ rs)) false
          (λ q. ground (arith)) (Wrote-nothing (λ q. false) false (λ q. refl) ws) w
  ]

fill-IsWords : (l : List ℕ) → IsWords (fill l)
fill-IsWords [] = tt
fill-IsWords (x ∷ l) = (omega arith, fill-IsWords l)

-- Every page counts as used to begin with.
fill-is_used : (l : List ℕ) (q : ℕ) → is_used (fill l) q ≡ true
fill-is_used l q = go l (q / 64) (q % 64) (omega arith)
  where
    go :
        (l : List ℕ) (i b : ℕ)
        → b < 64
        → (elim (get_elem? (fill l) i) [ none ↦ true | some w ↦ test_bit w b ]) ≡ true
    go [] i b lt = refl
    go (x ∷ l) zero b lt = test_bit_ones 64 b lt
    go (x ∷ l) (suc i) b lt = go l i b lt

-- The number of chunks of the bitmap for a memory of `total` bytes.
abbrev pub bitmap_len : ℕ → ℕ → ℕ
bitmap_len size total = div_ceil (div_ceil total size) 64

module _ (size : ℕ) (regions : List MemoryRegion) (bitmap : List ℕ) (region : MemoryRegion)
    (reserved : region.free ≡ false) (pos : 0 < size) where
  -- The two marking steps, from a bitmap of ones.
  marked :
      (a b : BitmapAllocator)
      → mark_free_regions size regions (new (fill bitmap)) ≡ ret a
      → mark_region true region size a ≡ ret b
      → (p : ℕ)
      → IsValid b × (is_used b.bitmap p ≡ (touches size region p || not (free_page size regions p)))
  unfolding new
  marked a b e e' p =
      let w =
        mark_free_regions-Wrote size pos regions (new (fill bitmap)) a (fill-IsWords bitmap) e in
      let w' = mark_region_reserved size pos region a b reserved w.words e' in
      let no_hint : b.last_single_page_allocation ≡ none = w'.hint ∙ w.hint in
      (
        record { words = w'.words; hint = λ q lt. absurd (ground (arith, no_hint)) },
        ground (arith, w.bits true p, w'.bits true p, fill-is_used bitmap p),
      )

module _ (size : ℕ) (regions : List MemoryRegion) (allocate_bitmap : ℕ → ℕ → List ℕ)
    (b : BitmapAllocator) (total start : ℕ)
    (ran : bootstrap_allocator size regions allocate_bitmap ≡ ret b)
    (memory : max_end regions ≡ ret (some total))
    (place : find_bitmap_start size (bitmap_len size total) regions ≡ ret (some start)) where
  -- After the start exactly those pages are free that lie inside a free region of the memory map
  -- and have no byte of the region that is reserved for the bitmap; the allocator is valid.
  pub bootstrap_allocator_lem :
      (p : ℕ)
      → IsValid b
        × (is_used b.bitmap p ≡ (
            touches size (bitmap_region start (bitmap_len size total)) p
            || not (free_page size regions p)))
  unfolding bootstrap_allocator
  bootstrap_allocator_lem p = elim (Bool-cases (size == 0)) [
    | inl z ↦ absurd (ground (arith, z))
    | inr nz ↦
        elim (Exec-cases (
          mark_free_regions size regions
            (new (fill (allocate_bitmap start (bitmap_len size total)))))) [
              | inl stop ↦ absurd (ground (arith, nz, stop))
              | inr (a, run) ↦
                  marked size regions (allocate_bitmap start (bitmap_len size total))
                    (bitmap_region start (bitmap_len size total)) refl (ground (arith, nz)) a b run
                    (ground (arith, nz, run)) p
            ]
  ]

  -- The bitmap takes eight bytes for each chunk, but only one byte for each is reserved: a page
  -- of a free region that begins among the bytes past the reserved ones is free to be handed out.
  pub bitmap_storage_not_reserved :
      (p : ℕ)
      → start + bitmap_len size total ≤ p * size
      → p * size < start + 8 * bitmap_len size total
      → free_page size regions p ≡ true
      → is_used b.bitmap p ≡ false
  bitmap_storage_not_reserved p lo hi inside = ground (arith, bootstrap_allocator_lem p)
