-- ===== src/BitmapAlloc/Sweep.antt =====
-- The chunk and bit loops of the search, as one sweep over pages.
use rust_os.Prelude.{
  ℕ, zero, suc, ◌+◌, ◌*◌, ◌≤◌, ◌<◌, ◌≡◌, refl, ◌∙◌, Bool, Option, none, some, List, [], ◌∷◌, arith,
  ◌==◌, if◌then◌else◌, length, get_elem?, test_bit,
}
use rust_os.BitmapAlloc.{Scan, found, unfinished, scan_bits, scan_chunks}

-- The search page by page: `left` pages are still to come, `start` begins the current run.
unfoldable pub sweep : (ℕ → Bool) → ℕ → ℕ → ℕ → ℕ → ℕ → Option ℕ
sweep u num zero page start run = none
sweep u num (suc left) page start run =
    let after_free =
      if run + 1 == num then some start else sweep u num left (page + 1) start (run + 1) in
    let after_used = sweep u num left (page + 1) (page + 1) 0 in
    if u page then after_used else after_free

-- How the sweep goes on after the bits of one chunk.
pub resume : (ℕ → Bool) → ℕ → ℕ → ℕ → Scan → Option ℕ
resume u num left page (found s) = some s
resume u num left page (unfinished s r) = sweep u num left page s r

scan_bits-sweep :
    (u : ℕ → Bool) (num i byte left bit start run more page : ℕ)
    → page ≡ i * 64 + bit
    → ((q b : ℕ) → q ≡ i * 64 + b → bit ≤ b → b < bit + left → u q ≡ test_bit byte b)
    → resume u num more (page + left) (scan_bits num i byte left bit start run)
      ≡ sweep u num (left + more) page start run
unfolding scan_bits sweep resume
scan_bits-sweep u num i byte zero bit start run more page e h =
    let e' : page + 0 ≡ page = omega arith in
    let e'' : 0 + more ≡ more = omega arith in rw (e', e'')
scan_bits-sweep u num i byte (suc left) bit start run more page e h =
    let e' : suc left + more ≡ suc (left + more) = omega arith in
    let e'' : page + suc left ≡ page + 1 + left = omega arith in
    let rest : (q b : ℕ)
        → q ≡ i * 64 + b
        → bit + 1 ≤ b
        → b < bit + 1 + left
        → u q ≡ test_bit byte b =
      λ q b x y z. h q b x (omega arith) (omega arith) in
    rw (e', e'', ← e)
      (ground (
        arith,
        h page bit e (omega arith) (omega arith),
        scan_bits-sweep u num i byte left (bit + 1) start (run + 1) more (page + 1) (omega arith)
            rest,
        scan_bits-sweep u num i byte left (bit + 1) (page + 1) 0 more (page + 1) (omega arith) rest,
      ))

step_chunk :
    (u : ℕ → Bool) (num : ℕ) (chunks : List ℕ) (i page : ℕ) (r : Scan)
    → page ≡ (i + 1) * 64
    → ((s l : ℕ)
        → scan_chunks num chunks (i + 1) s l ≡ sweep u num (length chunks * 64) ((i + 1) * 64) s l)
    → (elim r [ found s ↦ some s | unfinished s l ↦ scan_chunks num chunks (i + 1) s l ])
      ≡ resume u num (length chunks * 64) page r
unfolding resume
step_chunk u num chunks i page (found s) e h = refl
step_chunk u num chunks i page (unfinished s l) e h = rw e (h s l)

-- The loop over the chunks from index `i` on is the sweep over their pages.
pub scan_chunks-sweep :
    (u : ℕ → Bool) (num : ℕ) (chunks : List ℕ) (i start run : ℕ)
    → ((j b w : ℕ) → get_elem? chunks j ≡ some w → b < 64 → u ((i + j) * 64 + b) ≡ test_bit w b)
    → scan_chunks num chunks i start run ≡ sweep u num (length chunks * 64) (i * 64) start run
unfolding scan_chunks sweep
scan_chunks-sweep u num [] i start run h = refl
scan_chunks-sweep u num (w ∷ chunks) i start run h =
    let size : suc (length chunks) * 64 ≡ 64 + length chunks * 64 = omega arith in
    rw size (
      step_chunk u num chunks i (i * 64 + 64) (scan_bits num i w 64 0 start run) (omega arith)
        (λ s l. scan_chunks-sweep u num chunks (i + 1) s l (λ j b v e lt.
          let shift : i + 1 + j ≡ i + suc j = omega arith in rw shift (h (suc j) b v e lt)))
      ∙ scan_bits-sweep u num i w 64 0 start run (length chunks * 64) (i * 64) (omega arith)
          (λ q b x y z.
            let here : q ≡ (i + 0) * 64 + b = omega arith in rw here (h 0 b w refl (omega arith))))
