-- ===== src/Ext2/Bitmap.antt =====
-- kernel/src/fs/ext2/block_group.rs: the bitmaps of a block group, lists of bytes.
use rust_os.Prelude.{
  ℕ, zero, suc, ◌+◌, ◌-◌, ◌*◌, ◌/◌, ◌%◌, ◌≤◌, ◌<◌, ◌≡◌, refl, subst, ◌∙◌, ◌⊎◌, inl, inr, Bool, true,
  false, Option, none, some, List, [], ◌∷◌, arith, dec_lt, ℕ_discrete, ◌==◌, if◌then◌else◌,
  Bool-cases, length, get_elem?, test_bit, set_bit, test_bit-set_bit, test_bit_ones,
}
use mathlib.Core.Option

unfoldable pub is_used : List ℕ → ℕ → Option Bool
is_used bytes index = Option.map (λ byte. test_bit byte (index % 8)) (get_elem? bytes (index / 8))

-- `for bit in bit..bit + left`: the first clear bit.
unfoldable pub first_clear : ℕ → ℕ → ℕ → Option ℕ
first_clear byte bit zero = none
first_clear byte bit (suc left) =
    let rest = first_clear byte (bit + 1) left in if test_bit byte bit then rest else some bit

-- A byte with its bit set in front of the bytes after it, or the search goes on.
abbrev pub reserve_in : ℕ → ℕ → List ℕ → Option ℕ × List ℕ → Option ℕ → Option ℕ × List ℕ
reserve_in index byte bytes (o, rest) none = (o, byte ∷ rest)
reserve_in index byte bytes later (some bit) = (some (index * 8 + bit), set_bit byte bit ∷ bytes)

-- The loop over the bytes from `index` on.
unfoldable pub reserve_from : ℕ → List ℕ → Option ℕ × List ℕ
reserve_from index [] = (none, [])
reserve_from index (byte ∷ bytes) =
    let later = reserve_from (index + 1) bytes in
    if byte == 255
    then (later.0, byte ∷ later.1)
    else reserve_in index byte bytes later (first_clear byte 0 8)

unfoldable pub reserve_next_free : List ℕ → Option ℕ × List ℕ
reserve_next_free bytes = reserve_from 0 bytes

-- The first clear bit of the bits from `bit` on.
first_clear_lem :
    (byte left bit : ℕ)
    → ((first_clear byte bit left ≡ none)
        × ((c : ℕ) → bit ≤ c → c < bit + left → test_bit byte c ≡ true))
      ⊎ ((b : ℕ) × (first_clear byte bit left ≡ some b)
          × (bit ≤ b)
          × (b < bit + left)
          × (test_bit byte b ≡ false)
          × ((c : ℕ) → bit ≤ c → c < b → test_bit byte c ≡ true))
unfolding first_clear
first_clear_lem byte zero bit = inl (refl, λ c h1 h2. absurd (omega arith))
first_clear_lem byte (suc left) bit = elim (Bool-cases (test_bit byte bit)) [
  | inr clear ↦
      inr (bit, rw clear, omega arith, omega arith, clear, λ c h1 h2. absurd (omega arith))
  | inl used ↦ elim (first_clear_lem byte left (bit + 1)) [
    | inl (e, all) ↦
        inl (rw (used, e), λ c h1 h2. from byte bit c used (λ h. all c h (omega arith)) h1)
    | inr (b, e, h3, h4, clear, below) ↦ inr (
      b,
      rw (used, e),
      omega arith,
      omega arith,
      clear,
      λ c h1 h2. from byte bit c used (λ h. below c h h2) h1,
    )
  ]
]
  where
    from :
        (byte bit c : ℕ)
        → test_bit byte bit ≡ true
        → (bit + 1 ≤ c → test_bit byte c ≡ true)
        → bit ≤ c
        → test_bit byte c ≡ true
    from byte bit c used later h = elim (ℕ_discrete bit c) [
      | yes same ↦ rw (← same) used
      | no ne ↦ later (omega arith)
    ]

-- What a reservation did: nothing, as every bit was set, or it set the first clear one.
pub data Reserved (bytes : List ℕ) (base : ℕ) (o : Option ℕ) (bytes' : List ℕ) : Type 0 where
  full :
      o ≡ none
      → bytes' ≡ bytes
      → ((j : ℕ) → j < 8 * length bytes → is_used bytes j ≡ some true)
      → Reserved bytes base o bytes'
  got :
      (i : ℕ)
      → o ≡ some (base * 8 + i)
      → is_used bytes i ≡ some false
      → ((j : ℕ) → j < i → is_used bytes j ≡ some true)
      → ((j : ℕ) → is_used bytes' j ≡ (if i == j then some true else is_used bytes j))
      → length bytes' ≡ length bytes
      → Reserved bytes base o bytes'

-- What a byte contributes to the whole.
is_used-cons_low : (b : ℕ) (bs : List ℕ) (j : ℕ) → j < 8 → is_used (b ∷ bs) j ≡ some (test_bit b j)
unfolding is_used
is_used-cons_low b bs j h =
    let low : j / 8 ≡ 0 = omega arith in let same : j % 8 ≡ j = omega arith in rw (low, same)

is_used-cons_high : (b : ℕ) (bs : List ℕ) (j : ℕ) → is_used (b ∷ bs) (j + 8) ≡ is_used bs j
unfolding is_used
is_used-cons_high b bs j =
    let high : (j + 8) / 8 ≡ suc (j / 8) = omega arith in
    let same : (j + 8) % 8 ≡ j % 8 = omega arith in rw (high, same)

module _ (b : ℕ) (bs : List ℕ) (base : ℕ) where
  -- By cases on the byte that holds a bit.
  low_or_high : {P : ℕ → Type 0} → ((j : ℕ) → j < 8 → P j) → ((j : ℕ) → P (j + 8)) → (j : ℕ) → P j
  low_or_high {P} low high j = elim (dec_lt j 8) [
    | yes h ↦ low j h
    | no h ↦ let back : j - 8 + 8 ≡ j = omega arith in subst P back (high (j - 8))
  ]

  skip_full :
      {o : Option ℕ} {bs' : List ℕ}
      → ((c : ℕ) → c < 8 → test_bit b c ≡ true)
      → Reserved bs (base + 1) o bs'
      → Reserved (b ∷ bs) base o (b ∷ bs')
  skip_full all (full is_none same rest) = full is_none (rw same) (
      low_or_high {P = λ j. j < 8 * suc (length bs) → is_used (b ∷ bs) j ≡ some true}
        (λ j h room. is_used-cons_low b bs j h ∙ rw (all j h))
        (λ j room. is_used-cons_high b bs j ∙ rest j (omega arith)))
  skip_full {bs'} all (got i is_some clear below change size) =
      let shift : (base + 1) * 8 + i ≡ base * 8 + (i + 8) = omega arith in
      got (i + 8) (rw (is_some, shift)) (is_used-cons_high b bs i ∙ clear)
        (low_or_high {P = λ j. j < i + 8 → is_used (b ∷ bs) j ≡ some true}
          (λ j h room. is_used-cons_low b bs j h ∙ rw (all j h))
          (λ j room. is_used-cons_high b bs j ∙ below j (omega arith)))
        (low_or_high
          {P = λ j. is_used (b ∷ bs') j ≡ (if i + 8 == j then some true else is_used (b ∷ bs) j)}
          (λ j h.
            let test : (i + 8 == j) ≡ false = ground arith in
            rw (test, is_used-cons_low b bs' j h, is_used-cons_low b bs j h))
          (λ j.
            let test : (i + 8 == j + 8) ≡ (i == j) = ground arith in
            rw (test, is_used-cons_high b bs' j, is_used-cons_high b bs j) (change j)))
        (rw size)

  take_clear :
      (bit : ℕ)
      → bit < 8
      → test_bit b bit ≡ false
      → ((c : ℕ) → c < bit → test_bit b c ≡ true)
      → Reserved (b ∷ bs) base (some (base * 8 + bit)) (set_bit b bit ∷ bs)
  take_clear bit h8 clear below =
      got bit refl (is_used-cons_low b bs bit h8 ∙ rw clear)
        (λ j h. is_used-cons_low b bs j (omega arith) ∙ rw (below j h))
        (low_or_high
          {P = λ j.
            is_used (set_bit b bit ∷ bs) j ≡ (if bit == j then some true else is_used (b ∷ bs) j)}
          (λ j h.
            rw
              (
                is_used-cons_low (set_bit b bit) bs j h,
                is_used-cons_low b bs j h,
                test_bit-set_bit b bit j,
              )
              (if_some (bit == j) (test_bit b j)))
          (λ j.
            let test : (bit == j + 8) ≡ false = ground arith in
            rw (test, is_used-cons_high (set_bit b bit) bs j, is_used-cons_high b bs j)))
        refl
    where
      if_some : (t u : Bool) → some (if t then true else u) ≡ (if t then some true else some u)
      if_some true u = refl
      if_some false u = refl

reserve_from_lem :
    (bytes : List ℕ) (base : ℕ)
    → Reserved bytes base (reserve_from base bytes).0 (reserve_from base bytes).1
unfolding reserve_from
reserve_from_lem [] base = full refl refl (λ j h. absurd (omega arith))
reserve_from_lem (b ∷ bs) base =
    let rest = reserve_from_lem bs (base + 1) in
    elim (ℕ_discrete b 255) [
      | yes same ↦
          let test : (b == 255) ≡ true = ground arith in
          rw test (skip_full b bs base (λ c h. rw same (test_bit_ones 8 c h)) rest)
      | no ne ↦
          let test : (b == 255) ≡ false = ground arith in
          elim (first_clear_lem b 8 0) [
            | inl (e, all) ↦
                rw (test, e) (skip_full b bs base (λ c h. all c (omega arith) (omega arith)) rest)
            | inr (bit, e, h1, h2, clear, below) ↦
                rw (test, e)
                  (take_clear b bs base bit (omega arith) clear (λ c h. below c (omega arith) h))
          ]
    ]

-- Reserving takes the first clear bit of the bitmap: its index is returned, it was clear while all
-- before it were set, it is set now, and no other bit has changed. With no clear bit the bitmap
-- stays as it is and nothing is returned.
pub reserve_next_free_lem :
    (bytes : List ℕ) → Reserved bytes 0 (reserve_next_free bytes).0 (reserve_next_free bytes).1
unfolding reserve_next_free
reserve_next_free_lem bytes = reserve_from_lem bytes 0
