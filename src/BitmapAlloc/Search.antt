-- ===== src/BitmapAlloc/Search.antt =====
-- The search finds the lowest run of free pages.
use rust_os.Prelude.{
  ℕ, zero, suc, ◌+◌, ◌*◌, ◌/◌, ◌%◌, ◌≤◌, ◌<◌, ◌≡◌, refl, ap, subst, ◌⊎◌, inl, inr, Bool, true,
  false, Option, none, some, List, [], ◌∷◌, arith, dec_lt, ℕ_discrete, ◌==◌, ==_iff, Bool-cases,
  length, get_elem?, drop, length-drop, test_bit,
}
use rust_os.BitmapAlloc.{BitmapAllocator, unwrap_or_zero, find_next_contiguous, scan_chunks}
use rust_os.BitmapAlloc.Pages.{is_used, run_free, run_free_of_used, run_free-snoc, run_free-zero}
use rust_os.BitmapAlloc.Marks.{IsWords}
use rust_os.BitmapAlloc.Sweep.{sweep, scan_chunks-sweep}

-- The chunks are words, and no page below the hint is free.
pub record IsValid (a : BitmapAllocator) : Type 0 where
  pub words : IsWords a.bitmap
  pub hint : (p : ℕ) → p < unwrap_or_zero a.last_single_page_allocation → is_used a.bitmap p ≡ true

-- The answer to a search for `num` pages below `limit`: the lowest run, or none at all.
abbrev pub Answers : (ℕ → Bool) → ℕ → ℕ → Option ℕ → Type 0
Answers u num limit (some s) =
    (run_free u s num ≡ true) × ((t : ℕ) → t < s → run_free u t num ≡ false)
Answers u num limit none = (t : ℕ) → t + num ≤ limit → run_free u t num ≡ false

module _ (u : ℕ → Bool) (num : ℕ) where
  sweep-Answers :
      (left page start run : ℕ)
      → start + run ≡ page
      → run < num
      → run_free u start run ≡ true
      → ((t : ℕ) → t < start → run_free u t num ≡ false)
      → Answers u num (page + left) (sweep u num left page start run)
  unfolding sweep
  sweep-Answers zero page start run e lt free low = λ t fits. low t (omega arith)
  sweep-Answers (suc left) page start run e lt free low = elim (Bool-cases (u page)) [
    | inl used ↦
        let e' : page + suc left ≡ page + 1 + left = omega arith in
        rw (used, e')
          (sweep-Answers left (page + 1) (page + 1) 0 (omega arith) (omega arith)
            (run_free-zero u (page + 1))
            (λ t below. elim (dec_lt t start) [
              | yes y ↦ low t y
              | no n ↦ run_free_of_used u t num page used (omega arith) (omega arith)
            ]))
    | inr clear ↦
        let longer : run_free u start (suc run) ≡ true =
          run_free-snoc u start run free (rw e clear) in
        elim (ℕ_discrete (run + 1) num) [
          | yes full ↦
              let test : (run + 1 == num) ≡ true = (==_iff (run + 1) num).1 full in
              let exact : suc run ≡ num = omega arith in
              rw (clear, test) (subst (λ n. run_free u start n ≡ true) exact longer, low)
          | no more ↦
              let test : (run + 1 == num) ≡ false = ground arith in
              let e' : page + suc left ≡ page + 1 + left = omega arith in
              let grow : suc run ≡ run + 1 = omega arith in
              rw (clear, test, e')
                (sweep-Answers left (page + 1) start (run + 1) (omega arith) (omega arith)
                  (subst (λ n. run_free u start n ≡ true) grow longer) low)
        ]
  ]

  -- Below the hint nothing is free, so a search for one page may begin in the hint's chunk.
  pub sweep-hint :
      (left page hint : ℕ)
      → page ≤ hint
      → ((p : ℕ) → p < hint → u p ≡ true)
      → sweep u num left page hint 0 ≡ sweep u num left page page 0
  unfolding sweep
  sweep-hint zero page hint h full = refl
  sweep-hint (suc left) page hint h full = elim (dec_lt page hint) [
    | yes y ↦ rw (full page y)
    | no n ↦ let same : hint ≡ page = omega arith in rw same
  ]

get_elem?-drop : (n j : ℕ) (xs : List ℕ) → get_elem? (drop n xs) j ≡ get_elem? xs (n + j)
get_elem?-drop zero j xs = let e : 0 + j ≡ j = omega arith in rw e
get_elem?-drop (suc n) j [] = refl
get_elem?-drop (suc n) j (x ∷ xs) =
    let e : suc n + j ≡ suc (n + j) = omega arith in rw e (get_elem?-drop n j xs)

-- The chunks from index `i` on hold the pages from `i * 64` on.
drop_pages :
    (bm : List ℕ) (i j b w : ℕ)
    → get_elem? (drop i bm) j ≡ some w
    → b < 64
    → is_used bm ((i + j) * 64 + b) ≡ test_bit w b
drop_pages bm i j b w e lt =
    let chunk : ((i + j) * 64 + b) / 64 ≡ i + j = omega arith in
    let bit : ((i + j) * 64 + b) % 64 ≡ b = omega arith in
    ground (arith, get_elem?-drop i j bm, ap (get_elem? bm) chunk, ap (test_bit w) bit)

Answers-mono :
    (u : ℕ → Bool) (num l m : ℕ) (r : Option ℕ) → l ≤ m → Answers u num m r → Answers u num l r
Answers-mono u num l m none h a = λ t fits. a t (omega arith)
Answers-mono u num l m (some s) h a = a

-- From any chunk up to the hint's, the search answers for the whole bitmap.
search_from :
    (bm : List ℕ) (num start : ℕ)
    → 0 < num
    → (num ≡ 1) ⊎ (start ≡ 0)
    → ((p : ℕ) → p < start → is_used bm p ≡ true)
    → Answers
        (is_used bm)
        num
        (length bm * 64)
        (scan_chunks num (drop (start / 64) bm) (start / 64) start 0)
search_from bm num start pos one full =
    rw
      (
        scan_chunks-sweep (is_used bm) num (drop i bm) i start 0 (drop_pages bm i),
        sweep-hint (is_used bm) num (length (drop i bm) * 64) (i * 64) start (omega arith) full,
      )
      (Answers-mono (is_used bm) num (length bm * 64) (i * 64 + length (drop i bm) * 64) _
        (omega (arith, length-drop i bm))
        (sweep-Answers (is_used bm) num (length (drop i bm) * 64) (i * 64) (i * 64) 0 (omega arith)
          pos (run_free-zero (is_used bm) (i * 64)) low))
  where
    i : ℕ
    i = start / 64

    low : (t : ℕ) → t < i * 64 → run_free (is_used bm) t num ≡ false
    low t lt =
        run_free_of_used (is_used bm) t num t (full t (omega arith)) (omega arith) (omega arith)

-- The hint never hides a free page: the search answers for the whole bitmap.
pub find_next_contiguous-Answers :
    (a : BitmapAllocator) (num : ℕ)
    → IsValid a
    → 0 < num
    → Answers (is_used a.bitmap) num (length a.bitmap * 64) (find_next_contiguous a num)
unfolding find_next_contiguous
find_next_contiguous-Answers a num v pos = elim (ℕ_discrete num 1) [
  | yes e ↦
      let t : (num == 1) ≡ true = (==_iff num 1).1 e in
      rw t
        (search_from a.bitmap num (unwrap_or_zero a.last_single_page_allocation) pos (inl e) v.hint)
  | no ne ↦
      let t : (num == 1) ≡ false = ground arith in
      rw t (search_from a.bitmap num 0 pos (inr refl) (λ p lt. absurd (omega arith)))
]
