-- ===== src/BitmapAlloc/Bootstrap/Regions.antt =====
-- Which pages a region is rounded to: a free region to the pages that lie inside it, any other
-- region to the pages that it touches.
use rust_os.Prelude.{
  ℕ, ◌+◌, ◌-◌, ◌*◌, ◌/◌, ◌%◌, ◌≤◌, ◌<◌, ◌≡◌, refl, subst, ◌∙◌, ◌↔◌, inl, inr, Bool, true, false,
  ◌&&◌, Option, none, some, arith, ℕ_discrete, ltb, leb, if◌then◌else◌, Bool-cases, ret, Exec-cases,
}
use native.Mathlib.Nat.{le_of_mul-le-mul_right, mul-div_cancel}
use rust_os.BitmapAlloc.{BitmapAllocator, mark_used, mark_unused, for_pages}
use rust_os.BitmapAlloc.Pages.{in_run, in_run_range}
use rust_os.BitmapAlloc.Marks.{
  IsWords, Wrote, Wrote-pages, for_pages_ret, mark_used-Marker, mark_unused-Marker,
}
use rust_os.BitmapAlloc.Bootstrap.{
  MemoryRegion, shift_up_page_size, shift_down_page_size, page_aligned_start_end_address,
  mark_region,
}

-- Page `p` lies inside the region; page `p` has a byte of the region.
abbrev pub covers : ℕ → MemoryRegion → ℕ → Bool
covers size r p =
    leb r.start_address (p * size) && leb (p * size + size) (r.start_address + r.len_bytes)

abbrev pub touches : ℕ → MemoryRegion → ℕ → Bool
touches size r p =
    ltb (p * size) (r.start_address + r.len_bytes) && ltb r.start_address (p * size + size)

module _ (size : ℕ) (pos : 0 < size) where
  -- Rounding up gives a multiple, and the pages from it on begin at or after the value.
  pub shift_up_lem :
      (v : ℕ) {s : ℕ}
      → shift_up_page_size v size ≡ ret s
      → (k : ℕ) × (s ≡ k * size) × ((p : ℕ) → (k ≤ p) ↔ (v ≤ p * size))
  unfolding shift_up_page_size
  shift_up_lem v {s} e = elim (ℕ_discrete (v % size) 0) [
    | yes z ↦ (v / size, grind arith, λ p. (λ h. grind arith, λ h. grind arith))
    | no nz ↦ (v / size + 1, grind arith, λ p. (λ h. grind arith, λ h. grind arith))
  ]

  pub shift_down_lem :
      (v : ℕ) {s : ℕ}
      → shift_down_page_size v size ≡ ret s
      → (k : ℕ) × (s ≡ k * size) × ((p : ℕ) → (p < k) ↔ (p * size + size ≤ v))
  unfolding shift_down_page_size
  shift_down_lem v {s} e = (v / size, grind arith, λ p. (λ h. grind arith, λ h. grind arith))

  -- The pages of a free region, when the rounding does not overflow.
  free_range :
      (r : MemoryRegion) (o : Option (ℕ × ℕ))
      → r.free ≡ true
      → page_aligned_start_end_address r size ≡ ret o
      → (k l : ℕ) × ((p : ℕ) → (leb k p && ltb p l) ≡ covers size r p)
        × (o ≡ (if leb (l * size) (k * size) then none else some (k * size, l * size)))
  unfolding page_aligned_start_end_address
  free_range r o f e = elim (Exec-cases (shift_up_page_size r.start_address size)) [
    | inl stop ↦ absurd (ground (arith, stop))
    | inr (s, up) ↦ elim (Exec-cases (shift_down_page_size (r.start_address + r.len_bytes) size)) [
      | inl stop ↦ absurd (ground (arith, stop, up))
      | inr (t, down) ↦
          let (k, es, hs) = shift_up_lem r.start_address up in
          let (l, et, ht) = shift_down_lem (r.start_address + r.len_bytes) down in
          (k, l, (λ p. ground (arith, hs p, ht p)), ground (arith, up, down, es, et))
    ]
  ]

  -- The pages of any other region.
  reserved_range :
      (r : MemoryRegion) (o : Option (ℕ × ℕ))
      → r.free ≡ false
      → page_aligned_start_end_address r size ≡ ret o
      → (k l : ℕ) × ((p : ℕ) → (leb k p && ltb p l) ≡ touches size r p)
        × (o ≡ some (k * size, l * size))
  unfolding page_aligned_start_end_address
  reserved_range r o f e = elim (Exec-cases (shift_down_page_size r.start_address size)) [
    | inl stop ↦ absurd (ground (arith, stop))
    | inr (s, down) ↦ elim (Exec-cases (shift_up_page_size (r.start_address + r.len_bytes) size)) [
      | inl stop ↦ absurd (ground (arith, stop, down))
      | inr (t, up) ↦
          let (k, es, hs) = shift_down_lem r.start_address down in
          let (l, et, ht) = shift_up_lem (r.start_address + r.len_bytes) up in
          (k, l, (λ p. ground (arith, hs p, ht p)), ground (arith, up, down, es, et))
    ]
  ]

  -- Marking a free region frees the pages that lie inside it.
  pub mark_region_free :
      (r : MemoryRegion) (a b : BitmapAllocator)
      → r.free ≡ true
      → IsWords a.bitmap
      → mark_region false r size a ≡ ret b
      → Wrote a b (covers size r) false
  unfolding mark_region
  mark_region_free r a b f ws e = elim (Exec-cases (page_aligned_start_end_address r size)) [
    | inl stop ↦ absurd (ground (arith, stop))
    | inr (o, run) ↦
        let (k, l, same, shape) = free_range r o f run in
        elim (Bool-cases (leb (l * size) (k * size))) [
          | inl empty ↦
              let none_in : (p : ℕ) → false ≡ covers size r p =
                λ p. ground (arith, same p, le_of_mul-le-mul_right {m = l} {n = k} {k = size}) in
              let state : a ≡ b = ground (arith, run, shape, empty) in
              subst (λ x. Wrote a x (covers size r) false) state
                (record {
                  hint = refl;
                  words = ws;
                  size = refl;
                  bits = λ d q. ground (arith, none_in q);
                })
          | inr some_pages ↦
              let marked : for_pages mark_unused k (l - k) a ≡ ret b =
                ground
                  (arith, run, shape, some_pages, mul-div_cancel k pos, mul-div_cancel l pos) in
              Wrote-pages (in_run k (l - k)) (covers size r) false
                (λ q. in_run_range k l q ∙ same q)
                (for_pages_ret mark_unused-Marker k (l - k) a b ws marked)
        ]
  ]

  -- Marking any other region takes the pages that it touches.
  pub mark_region_reserved :
      (r : MemoryRegion) (a b : BitmapAllocator)
      → r.free ≡ false
      → IsWords a.bitmap
      → mark_region true r size a ≡ ret b
      → Wrote a b (touches size r) true
  unfolding mark_region
  mark_region_reserved r a b f ws e = elim (Exec-cases (page_aligned_start_end_address r size)) [
    | inl stop ↦ absurd (ground (arith, stop))
    | inr (o, run) ↦
        let (k, l, same, shape) = reserved_range r o f run in
        let marked : for_pages mark_used k (l - k) a ≡ ret b =
          ground (arith, run, shape, mul-div_cancel k pos, mul-div_cancel l pos) in
        Wrote-pages (in_run k (l - k)) (touches size r) true (λ q. in_run_range k l q ∙ same q)
          (for_pages_ret mark_used-Marker k (l - k) a b ws marked)
  ]
