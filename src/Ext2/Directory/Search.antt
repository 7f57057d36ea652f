-- ===== src/Ext2/Directory/Search.antt =====
-- The search for an entry with room in a well-formed directory block.
use rust_os.Prelude.{
  ℕ, zero, suc, ◌+◌, ◌-◌, ◌≤◌, ◌<◌, ◌≡◌, refl, sym, ap, subst, ◌∙◌, true, false, none, some, List,
  [], ◌∷◌, ◌++◌, arith, dec_le, leb, length, get_elem?, ret,
}
use rust_os.Transmute.{from_prefix_offset}
use rust_os.Ext2.Directory.{DirectoryEntryHeader, header_layout, required_space, find_space}
use rust_os.Ext2.Directory.Entries.{Entries, last, entry, header_fits}

-- The result of the search for space: no entry has room, or the first one with room, around which the
-- entries stay well-formed when another is put behind it.
pub data Space (bytes : List ℕ) (space index at : ℕ) (locations : List ℕ) : Type 0 where
  full :
      find_space bytes space index locations ≡ ret none
      → ((i l : ℕ) (h : DirectoryEntryHeader)
          → get_elem? locations i ≡ some l
          → from_prefix_offset header_layout bytes l ≡ some h
          → h.rec_len - required_space h < space)
      → Space bytes space index at locations
  room :
      (before : List ℕ) (found : ℕ) (after : List ℕ) (h : DirectoryEntryHeader)
      → locations ≡ before ++ found ∷ after
      → find_space bytes space index locations ≡ ret (some (index + length before, found))
      → at ≤ found
      → from_prefix_offset header_layout bytes found ≡ some h
      → header_layout.is_value h ≡ true
      → required_space h + space ≤ h.rec_len
      → found + h.rec_len ≤ length bytes
      → Entries bytes (found + h.rec_len) after
      → ((bytes' : List ℕ) (new : ℕ)
          → length bytes' ≡ length bytes
          → ((l : ℕ)
              → l + 8 ≤ found
              → from_prefix_offset header_layout bytes' l
                ≡ from_prefix_offset header_layout bytes l)
          → Entries bytes' found (found ∷ new ∷ after)
          → Entries bytes' at (before ++ found ∷ new ∷ after))
      → Space bytes space index at locations

all_short :
    (bytes : List ℕ) (space at : ℕ) (locations : List ℕ) (h : DirectoryEntryHeader)
    → from_prefix_offset header_layout bytes at ≡ some h
    → h.rec_len - required_space h < space
    → ((i l : ℕ) (k : DirectoryEntryHeader)
        → get_elem? locations i ≡ some l
        → from_prefix_offset header_layout bytes l ≡ some k
        → k.rec_len - required_space k < space)
    → (i l : ℕ) (k : DirectoryEntryHeader) → get_elem? (at ∷ locations) i ≡ some l
    → from_prefix_offset header_layout bytes l ≡ some k
    → k.rec_len - required_space k < space
all_short bytes space at locations h cast short rest zero l k e c =
    let same : h ≡ k =
      some_same (sym cast ∙ ap (from_prefix_offset header_layout bytes) (at_same e) ∙ c) in
    subst (λ (x : DirectoryEntryHeader). x.rec_len - required_space x < space) same short
  where
    at_same : some at ≡ some l → at ≡ l
    at_same e = cc

    some_same : some h ≡ some k → h ≡ k
    some_same e = cc
all_short bytes space at locations h cast short rest (suc i) l k e c = rest i l k e c

pub find_space_lem :
    (bytes : List ℕ) (space index at : ℕ) (locations : List ℕ)
    → Entries bytes at locations
    → Space bytes space index at locations
unfolding find_space
find_space_lem bytes space index _ [] (last at h) = full refl (λ i l h e. cc)
find_space_lem bytes space index _ (_ ∷ _) (entry at locations h cast value fits end rest) =
    let t1 : leb (required_space h) h.rec_len ≡ true = ground arith in
    elim (dec_le space (h.rec_len - required_space h)) [
      | yes enough ↦
          let t2 : leb space (h.rec_len - required_space h) ≡ true = ground arith in
          let here : index + 0 ≡ index = omega arith in
          room [] at locations h refl (rw (cast, t1, t2, here) refl) (omega arith) cast value
            (omega arith) end rest (λ bytes' new same frame e. e)
      | no short ↦
          let t2 : leb space (h.rec_len - required_space h) ≡ false = ground arith in
          elim (find_space_lem bytes space (index + 1) (at + h.rec_len) locations rest) [
            | full nothing all ↦
                full (rw (cast, t1, t2) nothing)
                  (all_short bytes space at locations h cast (omega arith) all)
            | room before found after k split found_at low c v enough stop rest' put ↦
                let count : index + 1 + length before ≡ index + suc (length before) = omega arith in
                let size = header_fits h in
                room (at ∷ before) found after k (ap (λ (l : List ℕ). at ∷ l) split)
                  (rw (cast, t1, t2) (found_at ∙ rw count refl)) (omega arith) c v enough stop rest'
                  (λ bytes' new same frame e.
                    entry at (before ++ found ∷ new ∷ after) h (frame at (omega arith) ∙ cast) value
                      fits (omega arith) (put bytes' new same frame e))
          ]
    ]

-- The entries of a part of the bytes that has not changed.
pub entries_same :
    (bytes bytes' : List ℕ) (at : ℕ) (locations : List ℕ)
    → length bytes' ≡ length bytes
    → ((l : ℕ)
        → at ≤ l
        → from_prefix_offset header_layout bytes' l ≡ from_prefix_offset header_layout bytes l)
    → Entries bytes at locations
    → Entries bytes' at locations
entries_same bytes bytes' _ _ same frame (last at h) = last at (h ∙ sym same)
entries_same bytes bytes' _ _ same frame (entry at locations h cast value fits end rest) =
    entry at locations h (frame at (omega arith) ∙ cast) value fits (omega arith) (
      entries_same bytes bytes' (at + h.rec_len) locations same (λ l low. frame l (omega arith))
        rest)
