-- ===== src/Transmute/Access.antt =====
-- What a write at an offset does to the reads.
use rust_os.Prelude.{
  ℕ, zero, suc, ◌+◌, ◌≤◌, ◌<◌, ◌≡◌, refl, sym, ap, ◌∙◌, ◌⊎◌, inl, inr, true, false, none, some,
  List, [], ◌∷◌, ◌++◌, arith, dec_le, leb, Bool-cases, Option-cases, length, take, drop,
  length-drop, slice, splice, length-splice, slice-splice, slice-splice_apart,
}
use rust_os.Transmute.{
  Layout, from_prefix, from_prefix_offset, is_aligned, try_cast_bytes_ref, try_cast_bytes_ref_mut,
  try_cast_bytes_ref_offset, try_cast_bytes_ref_mut_offset, try_write_bytes_offset, get_from,
}

module _ {T : Type 0} (layout : Layout T) (bytes : List ℕ) (offset : ℕ) where
  -- A read in range decodes its slice, and one out of range finds nothing.
  pub cast_inside :
      offset + layout.size_of ≤ length bytes
      → from_prefix_offset layout bytes offset
        ≡ some (layout.decode (slice bytes offset layout.size_of))
  unfolding from_prefix_offset from_prefix
  cast_inside h =
      let size = length-drop offset bytes in
      let t1 : leb offset (length bytes) ≡ true = ground arith in
      let t2 : leb layout.size_of (length (drop offset bytes)) ≡ true = ground (arith, size) in
      rw (t1, t2)

  pub cast_outside :
      length bytes < offset + layout.size_of → from_prefix_offset layout bytes offset ≡ none
  unfolding from_prefix_offset from_prefix
  cast_outside h = elim (dec_le offset (length bytes)) [
    | yes low ↦
        let size = length-drop offset bytes in
        let t1 : leb offset (length bytes) ≡ true = ground arith in
        let t2 : leb layout.size_of (length (drop offset bytes)) ≡ false = ground (arith, size) in
        rw (t1, t2)
    | no high ↦ let t1 : leb offset (length bytes) ≡ false = ground arith in rw t1
  ]

take-splice :
    (xs : List ℕ) (offset : ℕ) (ys : List ℕ)
    → offset ≤ length xs
    → take offset xs ++ splice (drop offset xs) 0 ys ≡ splice xs offset ys
take-splice xs zero ys h = refl
take-splice [] (suc offset) ys h = absurd (omega arith)
take-splice (x ∷ xs) (suc offset) ys h =
    ap (λ (l : List ℕ). x ∷ l) (take-splice xs offset ys (omega arith))

-- A cast apart from a changed part of the bytes.
pub cast-splice_apart :
    {U : Type 0} (other : Layout U) (bytes : List ℕ) (offset : ℕ) (ys : List ℕ) (at : ℕ)
    → offset + length ys ≤ length bytes
    → at + other.size_of ≤ offset ⊎ offset + length ys ≤ at
    → from_prefix_offset other (splice bytes offset ys) at ≡ from_prefix_offset other bytes at
cast-splice_apart other bytes offset ys at h apart =
    let bytes' = splice bytes offset ys in
    let same : length bytes' ≡ length bytes = length-splice bytes offset ys h in
    elim (dec_le (at + other.size_of) (length bytes)) [
      | yes low ↦
          cast_inside other bytes' at (omega arith)
          ∙ ap (λ (l : List ℕ). some (other.decode l))
              (slice-splice_apart bytes offset ys at other.size_of apart)
          ∙ sym (cast_inside other bytes at low)
      | no high ↦
          cast_outside other bytes' at (omega arith)
          ∙ sym (cast_outside other bytes at (omega arith))
    ]

-- A value written over a part of the bytes is found there.
pub cast-splice :
    {T : Type 0} (layout : Layout T) (bytes : List ℕ) (offset : ℕ) (value : T)
    → layout.is_value value ≡ true
    → offset + layout.size_of ≤ length bytes
    → from_prefix_offset layout (splice bytes offset (layout.encode value)) offset ≡ some value
cast-splice layout bytes offset value fits h =
    let e = layout.encode value in
    let size : length e ≡ layout.size_of = layout.length-encode value fits in
    let same = length-splice bytes offset e (omega arith) in
    let back : slice (splice bytes offset e) offset layout.size_of ≡ e =
      ap (slice (splice bytes offset e) offset) (sym size)
      ∙ slice-splice bytes offset e (omega arith) in
    cast_inside layout (splice bytes offset e) offset (omega arith)
    ∙ ap (λ (l : List ℕ). some (layout.decode l)) back
    ∙ ap some (layout.decode-encode value fits)

-- Every address is aligned for a packed type.
pub packed-is_aligned :
    {T : Type 0} (layout : Layout T) (address : ℕ)
    → layout.align_of ≡ 1
    → is_aligned layout address ≡ true
unfolding is_aligned
packed-is_aligned layout address one = rw one (ground arith)

module _ {T : Type 0} (layout : Layout T) (address : ℕ) (bytes : List ℕ) (offset : ℕ) where
  pub cast_aligned :
      is_aligned layout (address + offset) ≡ true
      → try_cast_bytes_ref_offset layout address bytes offset
        ≡ from_prefix_offset layout bytes offset
  unfolding try_cast_bytes_ref_offset try_cast_bytes_ref from_prefix_offset
  cast_aligned even = elim (Option-cases (get_from bytes offset)) [
    | inl beyond ↦ rw beyond refl
    | inr (found, e) ↦ rw (e, even) refl
  ]

  pub cast_packed :
      layout.align_of ≡ 1
      → try_cast_bytes_ref_offset layout address bytes offset
        ≡ from_prefix_offset layout bytes offset
  cast_packed one = cast_aligned (packed-is_aligned layout (address + offset) one)

  cast_misaligned :
      is_aligned layout (address + offset) ≡ false
      → try_cast_bytes_ref_offset layout address bytes offset ≡ none
  unfolding try_cast_bytes_ref_offset try_cast_bytes_ref
  cast_misaligned odd = elim (Option-cases (get_from bytes offset)) [
    | inl beyond ↦ rw beyond refl
    | inr (found, e) ↦ rw (e, odd) refl
  ]

  pub write_inside :
      (value : T)
      → is_aligned layout (address + offset) ≡ true
      → offset + layout.size_of ≤ length bytes
      → try_write_bytes_offset layout address bytes offset value
        ≡ some (splice bytes offset (layout.encode value))
  unfolding try_write_bytes_offset try_cast_bytes_ref_mut_offset try_cast_bytes_ref_mut
  write_inside value even h =
      let size = length-drop offset bytes in
      let t1 : leb offset (length bytes) ≡ true = ground arith in
      let t2 : leb layout.size_of (length (drop offset bytes)) ≡ true = ground (arith, size) in
      let whole = take-splice bytes offset (layout.encode value) (omega arith) in
      rw (t1, t2, even) (ap some whole)

  write_misaligned :
      (value : T)
      → is_aligned layout (address + offset) ≡ false
      → try_write_bytes_offset layout address bytes offset value ≡ none
  unfolding try_write_bytes_offset try_cast_bytes_ref_mut_offset try_cast_bytes_ref_mut
  write_misaligned value odd = elim (Option-cases (get_from bytes offset)) [
    | inl beyond ↦ rw beyond refl
    | inr (found, e) ↦ rw (e, odd) refl
  ]

  write_outside :
      (value : T)
      → length bytes < offset + layout.size_of
      → try_write_bytes_offset layout address bytes offset value ≡ none
  unfolding try_write_bytes_offset try_cast_bytes_ref_mut_offset try_cast_bytes_ref_mut
  write_outside value h = elim (dec_le offset (length bytes)) [
    | yes low ↦
        let size = length-drop offset bytes in
        let t1 : leb offset (length bytes) ≡ true = ground arith in
        let t2 : leb layout.size_of (length (drop offset bytes)) ≡ false = ground (arith, size) in
        elim (Bool-cases (is_aligned layout (address + offset))) [
          | inl even ↦ rw (t1, t2, even) refl
          | inr odd ↦ rw (t1, t2, odd) refl
        ]
    | no high ↦ let t1 : leb offset (length bytes) ≡ false = ground arith in rw t1
  ]

-- A cast reads the same in two buffers, at the same address, that agree where it looks.
cast-agree :
    {U : Type 0} (other : Layout U) (address : ℕ) (bytes' bytes : List ℕ) (at : ℕ)
    → from_prefix_offset other bytes' at ≡ from_prefix_offset other bytes at
    → try_cast_bytes_ref_offset other address bytes' at
      ≡ try_cast_bytes_ref_offset other address bytes at
cast-agree other address bytes' bytes at same =
    elim (Bool-cases (is_aligned other (address + at))) [
      | inl even ↦
          cast_aligned other address bytes' at even
          ∙ same
          ∙ sym (cast_aligned other address bytes at even)
      | inr odd ↦
          cast_misaligned other address bytes' at odd
          ∙ sym (cast_misaligned other address bytes at odd)
    ]

module _ {T : Type 0} (layout : Layout T) (address : ℕ) (bytes : List ℕ) (offset : ℕ)
    (value : T) where
  -- For a value whose numbers fit into their words: a write in range of the bytes, at an address that
  -- is aligned for the type, keeps their number, the value is read back at its offset, and a read of
  -- any other type that does not reach into the written bytes sees what it saw before. A write that
  -- would leave the range, or whose address is not aligned, is refused, and so is the read.
  pub cast_offset-write_offset :
      (layout.is_value value ≡ true)
      → (is_aligned layout (address + offset) ≡ true
          → offset + layout.size_of ≤ length bytes
          → (bytes' : List ℕ) × (try_write_bytes_offset layout address bytes offset value
              ≡ some bytes')
            × (length bytes' ≡ length bytes)
            × (try_cast_bytes_ref_offset layout address bytes' offset ≡ some value)
            × ((U : Type 0) (other : Layout U) (at : ℕ)
                → at + other.size_of ≤ offset ⊎ offset + layout.size_of ≤ at
                → try_cast_bytes_ref_offset other address bytes' at
                  ≡ try_cast_bytes_ref_offset other address bytes at))
        × (is_aligned layout (address + offset) ≡ false ⊎ length bytes < offset + layout.size_of
            → (try_write_bytes_offset layout address bytes offset value ≡ none)
              × (try_cast_bytes_ref_offset layout address bytes offset ≡ none))
  cast_offset-write_offset fits = (
    (λ even h.
        let e = layout.encode value in
        let size : length e ≡ layout.size_of = layout.length-encode value fits in
        (
          splice bytes offset e,
          write_inside layout address bytes offset value even h,
          length-splice bytes offset e (omega arith),
          cast_aligned layout address (splice bytes offset e) offset even
              ∙ cast-splice layout bytes offset value fits h,
          λ U other at apart.
              cast-agree other address (splice bytes offset e) bytes at
                (cast-splice_apart other bytes offset e at (omega arith) (rw size apart)),
        )),
    λ h. refused h,
  )
    where
      refused_outside :
          length bytes < offset + layout.size_of
          → try_cast_bytes_ref_offset layout address bytes offset ≡ none
      refused_outside h = elim (Bool-cases (is_aligned layout (address + offset))) [
        | inl even ↦
            cast_aligned layout address bytes offset even ∙ cast_outside layout bytes offset h
        | inr odd ↦ cast_misaligned layout address bytes offset odd
      ]

      refused :
          is_aligned layout (address + offset) ≡ false ⊎ length bytes < offset + layout.size_of
          → (try_write_bytes_offset layout address bytes offset value ≡ none)
            × (try_cast_bytes_ref_offset layout address bytes offset ≡ none)
      refused (inl odd) = (
        write_misaligned layout address bytes offset value odd,
        cast_misaligned layout address bytes offset odd,
      )
      refused (inr h) = (write_outside layout address bytes offset value h, refused_outside h)
