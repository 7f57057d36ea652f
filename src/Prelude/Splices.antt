-- ===== src/Prelude/Splices.antt =====
-- Parts of a list that meet: slices side by side, and a part written after another.
use Prim.Native.Nat.{ℕ, zero, suc, ◌+◌, ◌≤◌}
use mathlib.Core.Path.{◌≡◌, refl, sym, ap, ◌∙◌}
use mathlib.Core.List.{List, [], ◌∷◌, ◌++◌, append_assoc}
use native.Mathlib.Omega.{arith}
use rust_os.Prelude.Lists.{length, take, drop, length-append}
use rust_os.Prelude.Slices.{slice, splice}

module _ {ℓ} {A : Type ℓ} where
  pub drop-drop : (a c : ℕ) (xs : List A) → drop a (drop c xs) ≡ drop (c + a) xs
  drop-drop a zero xs = let same : 0 + a ≡ a = omega arith in rw same
  drop-drop zero (suc c) [] = let next : suc c + 0 ≡ suc (c + 0) = omega arith in rw next refl
  drop-drop (suc a) (suc c) [] =
      let next : suc c + suc a ≡ suc (c + suc a) = omega arith in rw next refl
  drop-drop a (suc c) (x ∷ xs) =
      let next : suc c + a ≡ suc (c + a) = omega arith in rw next (drop-drop a c xs)

  take-add : (a b : ℕ) (xs : List A) → take a xs ++ take b (drop a xs) ≡ take (a + b) xs
  take-add zero b xs = let same : 0 + b ≡ b = omega arith in rw same
  take-add (suc a) zero [] = let same : suc a + 0 ≡ suc a = omega arith in rw same
  take-add (suc a) (suc b) [] = let same : suc a + suc b ≡ suc (a + suc b) = omega arith in rw same
  take-add (suc a) b (x ∷ xs) =
      let next : suc a + b ≡ suc (a + b) = omega arith in
      rw next (ap (λ (l : List A). x ∷ l) (take-add a b xs))

  pub slice-append :
      (xs : List A) (c a b : ℕ) → slice xs c a ++ slice xs (c + a) b ≡ slice xs c (a + b)
  slice-append xs c a b =
      ap (λ (l : List A). slice xs c a ++ take b l) (sym (drop-drop a c xs))
      ∙ take-add a b (drop c xs)

  pub splice_nil : (xs : List A) (offset : ℕ) → offset ≤ length xs → splice xs offset [] ≡ xs
  splice_nil xs zero h = refl
  splice_nil [] (suc offset) h = refl
  splice_nil (x ∷ xs) (suc offset) h =
      ap (λ (l : List A). x ∷ l) (splice_nil xs offset (omega arith))

  splice_behind :
      (xs zs ys : List A) → splice (xs ++ zs) (length xs) ys ≡ xs ++ (ys ++ drop (length ys) zs)
  splice_behind [] zs ys = refl
  splice_behind (x ∷ xs) zs ys = ap (λ (l : List A). x ∷ l) (splice_behind xs zs ys)

  -- A part written right after another.
  pub splice-splice :
      (zs : List A) (offset : ℕ) (xs ys : List A)
      → splice (splice zs offset xs) (offset + length xs) ys ≡ splice zs offset (xs ++ ys)
  splice-splice zs zero xs ys =
      let start : 0 + length xs ≡ length xs = omega arith in
      let both = length-append xs ys in
      rw
        (
          start,
          splice_behind xs (drop (length xs) zs) ys,
          drop-drop (length ys) (length xs) zs,
          both,
        )
        (sym (append_assoc xs ys (drop (length xs + length ys) zs)))
  splice-splice [] (suc offset) xs ys =
      let next : suc offset + length xs ≡ suc (offset + length xs) = omega arith in rw next
  splice-splice (z ∷ zs) (suc offset) xs ys =
      let next : suc offset + length xs ≡ suc (offset + length xs) = omega arith in
      rw next (ap (λ (l : List A). z ∷ l) (splice-splice zs offset xs ys))
