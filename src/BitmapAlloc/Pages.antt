-- ===== src/BitmapAlloc/Pages.antt =====
-- How the bitmap is read: which pages are used, and runs of pages.
use rust_os.Prelude.{
  ℕ, zero, suc, ◌+◌, ◌-◌, ◌/◌, ◌%◌, ◌≤◌, ◌<◌, ◌≡◌, refl, ap, inl, inr, Bool, true, false, not, ◌&&◌,
  none, some, List, [], ◌∷◌, arith, ℕ_discrete, ltb, leb, ◌==◌, if◌then◌else◌, Bool-cases, length,
  get_elem?, set, get_elem?-set_self, get_elem?-set_ne, test_bit,
}

-- The bit of a page, with a value for the pages beyond the bitmap.
abbrev pub page_bit : Bool → List ℕ → ℕ → Bool
page_bit d bm p = elim (get_elem? bm (p / 64)) [ none ↦ d | some w ↦ test_bit w (p % 64) ]

-- A page beyond the bitmap can be neither handed out nor taken back.
abbrev pub is_used : List ℕ → ℕ → Bool
is_used = page_bit true

abbrev pub is_allocated : List ℕ → ℕ → Bool
is_allocated = page_bit false

-- No page of `[s, s + n)` is used; every page of it is used.
unfoldable pub run_free : (ℕ → Bool) → ℕ → ℕ → Bool
run_free u s zero = true
run_free u s (suc n) = not (u s) && run_free u (s + 1) n

unfoldable pub run_used : (ℕ → Bool) → ℕ → ℕ → Bool
run_used u s zero = true
run_used u s (suc n) = u s && run_used u (s + 1) n

-- `s ≤ p < s + n`.
unfoldable pub in_run : ℕ → ℕ → ℕ → Bool
in_run s zero p = false
in_run s (suc n) p = if s == p then true else in_run (s + 1) n p

pub in_run_above : (s n p : ℕ) → p < s → in_run s n p ≡ false
unfolding in_run
in_run_above s zero p h = refl
in_run_above s (suc n) p h = ground (arith, in_run_above (s + 1) n p)

pub in_run_inside : (s n p : ℕ) → s ≤ p → p < s + n → in_run s n p ≡ true
unfolding in_run
in_run_inside s zero p h k = absurd (omega arith)
in_run_inside s (suc n) p h k = ground (arith, in_run_inside (s + 1) n p)

pub in_run_outside : (s n p : ℕ) → s + n ≤ p → in_run s n p ≡ false
unfolding in_run
in_run_outside s zero p h = refl
in_run_outside s (suc n) p h = ground (arith, in_run_outside (s + 1) n p)

pub in_run-bounds : (s n p : ℕ) → in_run s n p ≡ true → (s ≤ p) × (p < s + n)
unfolding in_run
in_run-bounds s zero p h = cc
in_run-bounds s (suc n) p h = ground (arith, in_run-bounds (s + 1) n p)

pub in_run_range : (k l p : ℕ) → in_run k (l - k) p ≡ (leb k p && ltb p l)
in_run_range k l p = elim (Bool-cases (in_run k (l - k) p)) [
  | inl e ↦ ground (arith, in_run-bounds k (l - k) p e)
  | inr e ↦ ground (arith, in_run_inside k (l - k) p)
]

module _ (u : ℕ → Bool) where
  pub run_free-zero : (s : ℕ) → run_free u s 0 ≡ true
  unfolding run_free
  run_free-zero s = refl

  pub run_free-one : (s : ℕ) → run_free u s 1 ≡ false → u s ≡ true
  unfolding run_free
  run_free-one s h = ground arith

  pub run_free-in : (s n p : ℕ) → run_free u s n ≡ true → s ≤ p → p < s + n → u p ≡ false
  unfolding run_free
  run_free-in s zero p h a b = absurd (omega arith)
  run_free-in s (suc n) p h a b = elim (ℕ_discrete s p) [
    | yes e ↦ ground (arith, ap u e)
    | no ne ↦ ground (arith, run_free-in (s + 1) n p)
  ]

  pub run_free_of_used : (s n p : ℕ) → u p ≡ true → s ≤ p → p < s + n → run_free u s n ≡ false
  run_free_of_used s n p h a b = elim (Bool-cases (run_free u s n)) [
    | inl e ↦ ground (arith, run_free-in s n p e a b)
    | inr e ↦ e
  ]

  pub run_free-snoc :
      (s n : ℕ) → run_free u s n ≡ true → u (s + n) ≡ false → run_free u s (suc n) ≡ true
  unfolding run_free
  run_free-snoc s zero h k = let e : s + 0 ≡ s = omega arith in ground (arith, ap u e)
  run_free-snoc s (suc n) h k =
      let e : s + 1 + n ≡ s + suc n = omega arith in ground (arith, run_free-snoc (s + 1) n, ap u e)

  pub run_used_of_all :
      (s n : ℕ) → ((p : ℕ) → in_run s n p ≡ true → u p ≡ true) → run_used u s n ≡ true
  unfolding run_used in_run
  run_used_of_all s zero h = refl
  run_used_of_all s (suc n) h =
      let first : u s ≡ true = h s (ground arith) in
      ground (
        arith,
        first,
        run_used_of_all (s + 1) n (λ p r. h p (ground (arith, in_run-bounds (s + 1) n p r, r))),
      )

  pub run_used-in : (s n p : ℕ) → run_used u s n ≡ true → s ≤ p → p < s + n → u p ≡ true
  unfolding run_used
  run_used-in s zero p h a b = absurd (omega arith)
  run_used-in s (suc n) p h a b = elim (ℕ_discrete s p) [
    | yes e ↦ ground (arith, ap u e)
    | no ne ↦ ground (arith, run_used-in (s + 1) n p)
  ]

-- Writing one bit of the bitmap changes that page and no other.
module _ (bm : List ℕ) (p w : ℕ) (here : get_elem? bm (p / 64) ≡ some w) where
  pub bound : p / 64 < length bm
  bound = inside bm (p / 64) here
    where
      inside : (l : List ℕ) (i : ℕ) → get_elem? l i ≡ some w → i < length l
      inside [] i e = cc
      inside (x ∷ l) zero e = omega arith
      inside (x ∷ l) (suc i) e = omega (arith, inside l i e)

  pub page_bit-set :
      (d : Bool) (v : ℕ) (b : Bool) (q : ℕ)
      → test_bit v (q % 64) ≡ (if p % 64 == q % 64 then b else test_bit w (q % 64))
      → page_bit d (set bm (p / 64) v) q ≡ (if p == q then b else page_bit d bm q)
  page_bit-set d v b q h = elim (ℕ_discrete (p / 64) (q / 64)) [
    | yes e ↦ ground (
      arith,
      get_elem?-set_self bm (p / 64) v bound,
      ap (get_elem? bm) e,
      ap (get_elem? (set bm (p / 64) v)) e,
    )
    | no ne ↦ ground (arith, get_elem?-set_ne bm {i = p / 64} {j = q / 64} v ne)
  ]

-- A page that is free is inside the bitmap, so it reads as free with either default.
pub page_bit_free :
    (bm : List ℕ) (d : Bool) (p : ℕ) → is_used bm p ≡ false → page_bit d bm p ≡ false
page_bit_free bm d p h = ground (arith)
