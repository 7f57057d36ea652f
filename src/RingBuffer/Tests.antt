-- ===== src/RingBuffer/Tests.antt =====
-- Runs of the ring, after the test of crates/ring_buffer, and the theorems at them.
use rust_os.Prelude.{ℕ, zero, suc, ◌<◌, ◌≡◌, refl, none, some, [], ◌∷◌, arith, get_elem?, ret}
use rust_os.RingBuffer.{RingBuffer, new, push, get, len, collect, slot}
use rust_os.RingBuffer.Refine.{Refines}
use rust_os.RingBuffer.History.{push_all, latest, push_all-new}

wrapped_run :
    push_all {A = ℕ} (1 ∷ 2 ∷ 3 ∷ 4 ∷ []) (new 3)
    ≡ ret (record { elements = some 4 ∷ some 2 ∷ some 3 ∷ []; next_free = 1 })
unfolding push_all push new
wrapped_run = refl

push_all-new_example :
    (r : RingBuffer ℕ) × (push_all {A = ℕ} (1 ∷ 2 ∷ 3 ∷ 4 ∷ []) (new 3) ≡ ret r)
    × (get r 2 ≡ ret (some 2))
    × (len r ≡ ret 3)
    × (collect 4 r 0 ≡ ret (4 ∷ 3 ∷ 2 ∷ []))
unfolding latest
push_all-new_example = push_all-new 3 (1 ∷ 2 ∷ 3 ∷ 4 ∷ []) 2 (omega arith)

abbrev two_of_three : RingBuffer ℕ
two_of_three = record { elements = some 7 ∷ some 8 ∷ none ∷ []; next_free = 2 }

two_of_three-Refines : Refines two_of_three (8 ∷ 7 ∷ [])
two_of_three-Refines = record {
  room = omega arith;
  short = omega arith;
  front = λ h. refl;
  slots = slots;
}
  where
    slots :
        (i : ℕ)
        → i < 3
        → get_elem? two_of_three.elements (slot two_of_three i) ≡ some (get_elem? (8 ∷ 7 ∷ []) i)
    slots zero h = refl
    slots (suc zero) h = refl
    slots (suc (suc zero)) h = refl
    slots (suc (suc (suc i))) h = absurd (omega arith)
