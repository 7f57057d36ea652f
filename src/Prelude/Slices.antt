-- ===== src/Prelude/Slices.antt =====
-- Parts of a list: `bytes[offset..offset + num]` read, and `copy_from_slice` into such a part.
use Prim.Native.Nat.{ℕ, zero, suc, ◌+◌, ◌-◌, ◌<◌, ◌≤◌}
use mathlib.Core.Path.{◌≡◌, refl, sym, ap, ◌∙◌}
use mathlib.Core.Logic.{◌⊎◌, inl, inr}
use mathlib.Core.List.{List, [], ◌∷◌, ◌++◌}
use native.Mathlib.Omega.{arith}
use native.Mathlib.Decide.{dec_lt}
use rust_os.Prelude.Lists.{
  length, get_elem?, take, drop, length-append, length-take, length-drop, get_elem?-take,
  get_elem?-none,
}

module _ {ℓ} {A : Type ℓ} where
  abbrev pub slice : List A → ℕ → ℕ → List A
  slice xs offset num = take num (drop offset xs)

  -- The part that starts at the offset is replaced; the offset is in range.
  abbrev pub splice : List A → ℕ → List A → List A
  splice xs zero ys = ys ++ drop (length ys) xs
  splice [] (suc offset) ys = []
  splice (x ∷ xs) (suc offset) ys = x ∷ splice xs offset ys

  pub get_elem?-drop : (n i : ℕ) (xs : List A) → get_elem? (drop n xs) i ≡ get_elem? xs (n + i)
  get_elem?-drop zero i xs = let same : 0 + i ≡ i = omega arith in rw same
  get_elem?-drop (suc n) i [] = refl
  get_elem?-drop (suc n) i (x ∷ xs) =
      let next : suc n + i ≡ suc (n + i) = omega arith in rw next (get_elem?-drop n i xs)

  pub get_elem?-append_left :
      (xs ys : List A) (i : ℕ) → i < length xs → get_elem? (xs ++ ys) i ≡ get_elem? xs i
  get_elem?-append_left [] ys i h = absurd (omega arith)
  get_elem?-append_left (x ∷ xs) ys zero h = refl
  get_elem?-append_left (x ∷ xs) ys (suc i) h = get_elem?-append_left xs ys i (omega arith)

  pub get_elem?-append_right :
      (xs ys : List A) (i : ℕ) → get_elem? (xs ++ ys) (length xs + i) ≡ get_elem? ys i
  get_elem?-append_right [] ys i = let same : 0 + i ≡ i = omega arith in rw same
  get_elem?-append_right (x ∷ xs) ys i =
      let next : suc (length xs) + i ≡ suc (length xs + i) = omega arith in
      rw next (get_elem?-append_right xs ys i)

  -- Lists with the same elements at the same places are the same.
  pub list_ext : (xs ys : List A) → ((i : ℕ) → get_elem? xs i ≡ get_elem? ys i) → xs ≡ ys
  list_ext [] [] h = refl
  list_ext [] (y ∷ ys) h = let e = h 0 in cc
  list_ext (x ∷ xs) [] h = let e = h 0 in cc
  list_ext (x ∷ xs) (y ∷ ys) h = let e = h 0 in let rest = list_ext xs ys (λ i. h (suc i)) in cc

module _ {ℓ} {A : Type ℓ} where
  pub take_all : (n : ℕ) (xs : List A) → length xs ≤ n → take n xs ≡ xs
  take_all zero [] h = refl
  take_all zero (x ∷ xs) h = absurd (omega arith)
  take_all (suc n) [] h = refl
  take_all (suc n) (x ∷ xs) h = ap (λ (l : List A). x ∷ l) (take_all n xs (omega arith))

  pub take-append : (xs ys : List A) → take (length xs) (xs ++ ys) ≡ xs
  take-append [] ys = refl
  take-append (x ∷ xs) ys = ap (λ (l : List A). x ∷ l) (take-append xs ys)

  pub take-append_left : (n : ℕ) (xs ys : List A) → n ≤ length xs → take n (xs ++ ys) ≡ take n xs
  take-append_left zero xs ys h = refl
  take-append_left (suc n) [] ys h = absurd (omega arith)
  take-append_left (suc n) (x ∷ xs) ys h =
      ap (λ (l : List A). x ∷ l) (take-append_left n xs ys (omega arith))

  pub drop-append : (xs ys : List A) → drop (length xs) (xs ++ ys) ≡ ys
  drop-append [] ys = refl
  drop-append (x ∷ xs) ys = drop-append xs ys

  pub length-slice :
      (xs : List A) (offset num : ℕ) → offset + num ≤ length xs → length (slice xs offset num) ≡ num
  length-slice xs offset num h =
      omega (arith, length-take num (drop offset xs), length-drop offset xs)

  pub get_elem?-slice :
      (xs : List A) (offset num i : ℕ)
      → i < num
      → get_elem? (slice xs offset num) i ≡ get_elem? xs (offset + i)
  get_elem?-slice xs offset num i h =
      get_elem?-take num i (drop offset xs) h ∙ get_elem?-drop offset i xs

  -- Slices of the same elements are the same.
  pub slice_ext :
      (xs ys : List A) (a b num : ℕ)
      → ((i : ℕ) → i < num → get_elem? xs (a + i) ≡ get_elem? ys (b + i))
      → slice xs a num ≡ slice ys b num
  slice_ext xs ys a b num h = list_ext (slice xs a num) (slice ys b num) (λ i. elim (dec_lt i num) [
    | yes low ↦ get_elem?-slice xs a num i low ∙ h i low ∙ sym (get_elem?-slice ys b num i low)
    | no high ↦
        get_elem?-none (slice xs a num) i (omega (arith, length-take num (drop a xs)))
        ∙ sym (get_elem?-none (slice ys b num) i (omega (arith, length-take num (drop b ys))))
  ])

module _ {ℓ} {A : Type ℓ} where
  pub length-splice :
      (xs : List A) (offset : ℕ) (ys : List A)
      → offset + length ys ≤ length xs
      → length (splice xs offset ys) ≡ length xs
  length-splice xs zero ys h =
      omega (arith, length-append ys (drop (length ys) xs), length-drop (length ys) xs)
  length-splice [] (suc offset) ys h = refl
  length-splice (x ∷ xs) (suc offset) ys h = ap suc (length-splice xs offset ys (omega arith))

  pub get_elem?-splice_inside :
      (xs : List A) (offset : ℕ) (ys : List A) (i : ℕ)
      → offset ≤ length xs
      → i < length ys
      → get_elem? (splice xs offset ys) (offset + i) ≡ get_elem? ys i
  get_elem?-splice_inside xs zero ys i h inside =
      let same : 0 + i ≡ i = omega arith in
      rw same (get_elem?-append_left ys (drop (length ys) xs) i inside)
  get_elem?-splice_inside [] (suc offset) ys i h inside = absurd (omega arith)
  get_elem?-splice_inside (x ∷ xs) (suc offset) ys i h inside =
      let next : suc offset + i ≡ suc (offset + i) = omega arith in
      rw next (get_elem?-splice_inside xs offset ys i (omega arith) inside)

  pub get_elem?-splice_outside :
      (xs : List A) (offset : ℕ) (ys : List A) (j : ℕ)
      → j < offset ⊎ offset + length ys ≤ j
      → get_elem? (splice xs offset ys) j ≡ get_elem? xs j
  get_elem?-splice_outside xs zero ys j (inl h) = absurd (omega arith)
  get_elem?-splice_outside xs zero ys j (inr h) =
      let back : length ys + (j - length ys) ≡ j = omega arith in
      let right = get_elem?-append_right ys (drop (length ys) xs) (j - length ys) in
      let rest = get_elem?-drop (length ys) (j - length ys) xs in
      ap (get_elem? (ys ++ drop (length ys) xs)) (sym back) ∙ right ∙ rest ∙ ap (get_elem? xs) back
  get_elem?-splice_outside [] (suc offset) ys j h = refl
  get_elem?-splice_outside (x ∷ xs) (suc offset) ys zero (inl h) = refl
  get_elem?-splice_outside (x ∷ xs) (suc offset) ys zero (inr h) = absurd (omega arith)
  get_elem?-splice_outside (x ∷ xs) (suc offset) ys (suc j) (inl h) =
      get_elem?-splice_outside xs offset ys j (inl (omega arith))
  get_elem?-splice_outside (x ∷ xs) (suc offset) ys (suc j) (inr h) =
      get_elem?-splice_outside xs offset ys j (inr (omega arith))

  -- What has been written is read back.
  pub slice-splice :
      (xs : List A) (offset : ℕ) (ys : List A)
      → offset ≤ length xs
      → slice (splice xs offset ys) offset (length ys) ≡ ys
  slice-splice xs offset ys h =
      slice_ext (splice xs offset ys) ys offset 0 (length ys) (λ i low.
        get_elem?-splice_inside xs offset ys i h low
        ∙ (let same : 0 + i ≡ i = omega arith in rw same))
      ∙ take_all (length ys) ys (omega arith)

  -- A part apart from what has been written is as before.
  pub slice-splice_apart :
      (xs : List A) (offset : ℕ) (ys : List A) (a num : ℕ)
      → a + num ≤ offset ⊎ offset + length ys ≤ a
      → slice (splice xs offset ys) a num ≡ slice xs a num
  slice-splice_apart xs offset ys a num (inl h) =
      slice_ext (splice xs offset ys) xs a a num
        (λ i low. get_elem?-splice_outside xs offset ys (a + i) (inl (omega arith)))
  slice-splice_apart xs offset ys a num (inr h) =
      slice_ext (splice xs offset ys) xs a a num
        (λ i low. get_elem?-splice_outside xs offset ys (a + i) (inr (omega arith)))
