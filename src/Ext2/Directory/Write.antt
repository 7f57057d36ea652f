-- ===== src/Ext2/Directory/Write.antt =====
-- The bytes of a directory block with an entry cut and another behind it.
use rust_os.Prelude.{
  ℕ, ◌+◌, ◌-◌, ◌^◌, ◌≤◌, ◌<◌, ◌≡◌, refl, sym, ap, subst, ◌∙◌, ◌↔◌, ◌⊎◌, inl, inr, true, some, List,
  ◌∷◌, ◌++◌, arith, leb, length, get_elem?, ret, slice, splice, length-splice,
  get_elem?-splice_outside, slice-splice, splice-splice,
}
use rust_os.Transmute.{from_prefix_offset}
use rust_os.Transmute.Access.{cast-splice, cast-splice_apart}
use rust_os.Transmute.Layouts.{as_struct, ◌⊕◌, word}
use rust_os.Ext2.Directory.{DirectoryEntryHeader, header_layout, required_space, name_at}
use rust_os.Ext2.Directory.Entries.{Entries, entry, eight, header_fits, required_space_rec}
use rust_os.Ext2.Directory.Search.{entries_same}

-- A header whose fields fit into their words.
pub is_value_iff :
    (h : DirectoryEntryHeader)
    → (header_layout.is_value h ≡ true) ↔ (
        (h.inode < 2 ^ 32)
        × (h.rec_len < 2 ^ 16)
        × (h.name_len < 2 ^ 8)
        × (h.raw_file_type < 2 ^ 8))
unfolding header_layout as_struct ◌⊕◌ word
is_value_iff h =
    ((λ e. (ground arith, ground arith, ground arith, ground arith)), λ (a, b, c, d). ground arith)

name_at_lem :
    (bytes : List ℕ) (l : ℕ) (h : DirectoryEntryHeader) (name : List ℕ)
    → from_prefix_offset header_layout bytes l ≡ some h
    → h.name_len ≡ length name
    → slice bytes (l + 8) (length name) ≡ name
    → l + 8 + length name ≤ length bytes
    → name_at bytes l ≡ ret name
unfolding name_at
name_at_lem bytes l h name cast same there fits =
    let t : leb (l + 8 + length name) (length bytes) ≡ true = ground arith in
    rw (cast, eight, same, t, there) refl

module _ (bytes : List ℕ) (found : ℕ) (h header : DirectoryEntryHeader) (name : List ℕ)
    (value : header_layout.is_value h ≡ true) (value2 : header_layout.is_value header ≡ true)
    (is_name : header.name_len ≡ length name)
    (room : required_space h + required_space header ≤ h.rec_len)
    (end : found + h.rec_len ≤ length bytes) where
  abbrev pub cut : DirectoryEntryHeader
  cut = record h { rec_len = required_space h }

  abbrev pub new : DirectoryEntryHeader
  new = record header { rec_len = h.rec_len - required_space h }

  abbrev pub new_at : ℕ
  new_at = found + required_space h

  abbrev pub bytes1 : List ℕ
  bytes1 = splice bytes found (header_layout.encode cut)

  abbrev pub bytes2 : List ℕ
  bytes2 = splice bytes1 new_at (header_layout.encode new)

  abbrev pub bytes3 : List ℕ
  bytes3 = splice bytes2 (new_at + 8) name

  pub small : h.rec_len < 2 ^ 16
  small = ((is_value_iff h).0 value).1

  value-cut : header_layout.is_value cut ≡ true
  value-cut =
      let (a, b, c, d) = (is_value_iff h).0 value in (is_value_iff cut).1 (a, omega arith, c, d)

  value-new : header_layout.is_value new ≡ true
  value-new =
      let (a, b, c, d) = (is_value_iff header).0 value2 in
      let r = small in (is_value_iff new).1 (a, omega arith, c, d)

  length-cut : length (header_layout.encode cut) ≡ 8
  length-cut = header_layout.length-encode cut value-cut ∙ eight

  length-new : length (header_layout.encode new) ≡ 8
  length-new = header_layout.length-encode new value-new ∙ eight

  pub length-bytes1 : length bytes1 ≡ length bytes
  length-bytes1 =
      length-splice bytes found (header_layout.encode cut)
        (omega (arith, length-cut, header_fits h))

  length-bytes2 : length bytes2 ≡ length bytes
  length-bytes2 =
      length-splice bytes1 new_at (header_layout.encode new)
        (omega (arith, length-new, length-bytes1, header_fits header))
      ∙ length-bytes1

  pub length-bytes3 : length bytes3 ≡ length bytes
  length-bytes3 =
      length-splice bytes2 (new_at + 8) name
        (omega (arith, length-bytes2, header_fits header, is_name))
      ∙ length-bytes2

  pub written_lem : splice bytes1 new_at (header_layout.encode new ++ name) ≡ bytes3
  written_lem =
      sym (splice-splice bytes1 new_at (header_layout.encode new) name)
      ∙ ap (λ (n : ℕ). splice bytes2 (new_at + n) name) length-new

  pub cast-cut : from_prefix_offset header_layout bytes3 found ≡ some cut
  cast-cut =
      let fits = header_fits h in
      let fits2 = header_fits header in
      cast-splice_apart header_layout bytes2 (new_at + 8) name found
        (omega (arith, length-bytes2, is_name)) (inl (omega (arith, eight)))
      ∙ cast-splice_apart header_layout bytes1 new_at (header_layout.encode new) found
          (omega (arith, length-bytes1, length-new)) (inl (omega (arith, eight)))
      ∙ cast-splice header_layout bytes found cut value-cut (omega (arith, eight))

  pub cast-new : from_prefix_offset header_layout bytes3 new_at ≡ some new
  cast-new =
      let fits2 = header_fits header in
      cast-splice_apart header_layout bytes2 (new_at + 8) name new_at
        (omega (arith, length-bytes2, is_name)) (inl (omega (arith, eight)))
      ∙ cast-splice header_layout bytes1 new_at new value-new (omega (arith, eight, length-bytes1))

  -- Bytes outside the two headers and the name.
  pub bytes3_same :
      (j : ℕ)
      → j < found ⊎ ((found + 8 ≤ j) × (j < new_at)) ⊎ new_at + 8 + length name ≤ j
      → get_elem? bytes3 j ≡ get_elem? bytes j
  bytes3_same j where_ =
      get_elem?-splice_outside bytes2 (new_at + 8) name j (elim where_ [
        | inl a ↦ inl (omega arith)
        | inr (inl (a, b)) ↦ inl (omega arith)
        | inr (inr c) ↦ inr (omega arith)
      ])
      ∙ get_elem?-splice_outside bytes1 new_at (header_layout.encode new) j (elim where_ [
        | inl a ↦ inl (omega arith)
        | inr (inl (a, b)) ↦ inl (omega arith)
        | inr (inr c) ↦ inr (omega (arith, length-new))
      ])
      ∙ get_elem?-splice_outside bytes found (header_layout.encode cut) j (elim where_ [
        | inl a ↦ inl (omega arith)
        | inr (inl (a, b)) ↦ inr (omega (arith, length-cut))
        | inr (inr c) ↦ inr (omega (arith, length-cut, header_fits h))
      ])

  pub header_same :
      (l : ℕ)
      → l + 8 ≤ found ⊎ found + h.rec_len ≤ l
      → from_prefix_offset header_layout bytes3 l ≡ from_prefix_offset header_layout bytes l
  header_same l apart =
      let fits = header_fits h in
      let fits2 = header_fits header in
      cast-splice_apart header_layout bytes2 (new_at + 8) name l
        (omega (arith, length-bytes2, is_name))
        (elim apart [ inl a ↦ inl (omega (arith, eight)) | inr b ↦ inr (omega (arith, is_name)) ])
      ∙ cast-splice_apart header_layout bytes1 new_at (header_layout.encode new) l
          (omega (arith, length-bytes1, length-new))
          (elim apart [
            | inl a ↦ inl (omega (arith, eight))
            | inr b ↦ inr (omega (arith, length-new))
          ])
      ∙ cast-splice_apart header_layout bytes found (header_layout.encode cut) l
          (omega (arith, length-cut))
          (elim apart [
            | inl a ↦ inl (omega (arith, eight))
            | inr b ↦ inr (omega (arith, length-cut))
          ])

  pub name_at-new : name_at bytes3 new_at ≡ ret name
  name_at-new =
      let fits2 = header_fits header in
      name_at_lem bytes3 new_at new name cast-new is_name
        (slice-splice bytes2 (new_at + 8) name (omega (arith, length-bytes2)))
        (omega (arith, length-bytes3, is_name))

  pub entries_there :
      (after : List ℕ)
      → Entries bytes (found + h.rec_len) after
      → Entries bytes3 found (found ∷ new_at ∷ after)
  entries_there after rest =
      let size = length-bytes3 in
      let rest' =
        entries_same bytes bytes3 (found + h.rec_len) after size (λ l low. header_same l (inr low))
          rest in
      let stop : found + h.rec_len ≡ new_at + (h.rec_len - required_space h) = omega arith in
      entry found (new_at ∷ after) cut cast-cut value-cut
        (omega (arith, required_space_rec h (required_space h))) (omega arith)
        (entry new_at after new cast-new value-new
          (omega (arith, required_space_rec header (h.rec_len - required_space h))) (omega arith)
          (subst (λ (n : ℕ). Entries bytes3 n after) stop rest'))
