-- ===== src/Ext2/Directory/Insert.antt =====
-- An insertion into a well-formed directory block.
use rust_os.Prelude.{
  ℕ, ◌+◌, ◌-◌, ◌%◌, ◌^◌, ◌≤◌, ◌<◌, ◌≡◌, refl, ◌⊎◌, inl, true, Option, none, some, List, ◌∷◌, ◌++◌,
  arith, leb, length, get_elem?, Exec, ret,
}
use native.Mathlib.Nat.{mod-lt}
use rust_os.Transmute.{from_prefix_offset}
use rust_os.Ext2.Directory.{
  DirectoryEntryHeader, DirectoryBlock, DirectoryEntryFileType, unknown, regular_file, is_directory,
  character_device, block_device, fifo, socket, symbolic_link, header_layout, required_space,
  header_at, new_header, name_at, raw_type, insert_entry, insert_at,
}
use rust_os.Ext2.Directory.Entries.{Entries}
use rust_os.Ext2.Directory.Search.{full, room, find_space_lem}
use rust_os.Ext2.Directory.Write.{
  is_value_iff, small, length-bytes1, written_lem, length-bytes3, header_same, entries_there,
  cast-cut, cast-new, name_at-new, bytes3_same, bytes1, bytes3,
}

-- What an insertion did: no entry had room, or the new entry lies behind the first one with room,
-- in a block that is well-formed again.
pub data Insertion (bytes locations name : List ℕ) (inode : ℕ) (file_type : DirectoryEntryFileType)
    (outcome : Exec (Option (ℕ × DirectoryBlock))) : Type 0 where
  no_room :
      outcome ≡ ret none
      → ((i l : ℕ) (h : DirectoryEntryHeader)
          → get_elem? locations i ≡ some l
          → from_prefix_offset header_layout bytes l ≡ some h
          → h.rec_len - required_space h < required_space (new_header inode name file_type))
      → Insertion bytes locations name inode file_type outcome
  inserted :
      (before : List ℕ) (found : ℕ) (after : List ℕ) (h : DirectoryEntryHeader) (new : ℕ)
      (bytes' : List ℕ)
      → locations ≡ before ++ found ∷ after
      → outcome
        ≡ ret (
            some (
              new,
              record { bytes = bytes'; entry_locations = insert_at locations (length before) new },
            ))
      → length bytes' ≡ length bytes
      → Entries bytes' 0 (before ++ found ∷ new ∷ after)
      → header_at bytes found ≡ ret h
      → header_at bytes' found ≡ ret (record h { rec_len = required_space h })
      → header_at bytes' new
        ≡ ret (record (new_header inode name file_type) { rec_len = h.rec_len - required_space h })
      → name_at bytes' new ≡ ret name
      → ((j : ℕ)
          → j < found ⊎ ((found + 8 ≤ j) × (j < new)) ⊎ new + 8 + length name ≤ j
          → get_elem? bytes' j ≡ get_elem? bytes j)
      → Insertion bytes locations name inode file_type outcome

raw_type-lt : (t : DirectoryEntryFileType) → raw_type t < 2 ^ 8
unfolding raw_type
raw_type-lt unknown = omega arith
raw_type-lt regular_file = omega arith
raw_type-lt is_directory = omega arith
raw_type-lt character_device = omega arith
raw_type-lt block_device = omega arith
raw_type-lt fifo = omega arith
raw_type-lt socket = omega arith
raw_type-lt symbolic_link = omega arith

value-header :
    (name : List ℕ) (inode : ℕ) (file_type : DirectoryEntryFileType)
    → inode < 2 ^ 32
    → header_layout.is_value (new_header inode name file_type) ≡ true
unfolding new_header
value-header name inode file_type number =
    (is_value_iff (new_header inode name file_type)).1
      (number, omega arith, mod-lt (length name) (omega arith), raw_type-lt file_type)

name-header :
    (name : List ℕ) (inode : ℕ) (file_type : DirectoryEntryFileType)
    → length name < 256
    → (new_header inode name file_type).name_len ≡ length name
unfolding new_header
name-header name inode file_type short = omega arith

-- Insertion of a name of fewer than 256 bytes into a well-formed block never panics. Either no entry
-- has room for it and nothing is returned, or the first entry with room is cut to its own space and the
-- new entry, with its number, type and name, is put behind it: the block has the same length and is
-- well-formed, with the new entry after that one, and no byte outside the two headers and the new name
-- has changed.
pub insert_entry_lem :
    (bytes locations name : List ℕ) (inode : ℕ) (file_type : DirectoryEntryFileType)
    → Entries bytes 0 locations
    → length name < 256
    → inode < 2 ^ 32
    → Insertion bytes locations name inode file_type
        (insert_entry (record { bytes = bytes; entry_locations = locations }) name inode file_type)
unfolding insert_entry
insert_entry_lem bytes locations name inode file_type entries short number =
    let header = new_header inode name file_type in
    let space = required_space header in
    elim (find_space_lem bytes space 0 0 locations entries) [
      | full nothing all ↦ no_room (rw nothing refl) all
      | room before found after h split found_at low cast value enough stop rest put ↦
          let value2 = value-header name inode file_type number in
          let is_name = name-header name inode file_type short in
          let at = found + required_space h in
          let small = small bytes found h header name value value2 is_name enough stop in
          let word_size : required_space h % 2 ^ 16 ≡ required_space h = omega arith in
          let t1 : leb (required_space h) h.rec_len ≡ true = ground arith in
          let one = length-bytes1 bytes found h header name value value2 is_name enough stop in
          let t2 : leb at
                (length (bytes1 bytes found h header name value value2 is_name enough stop))
              ≡ true =
            ground (arith, one) in
          let wrote = written_lem bytes found h header name value value2 is_name enough stop in
          let count : 0 + length before ≡ length before = omega arith in
          inserted before found after h at
            (bytes3 bytes found h header name value value2 is_name enough stop) split
            (rw (found_at, count, cast, word_size, t1, t2, wrote) refl)
            (length-bytes3 bytes found h header name value value2 is_name enough stop)
            (put (bytes3 bytes found h header name value value2 is_name enough stop) at
              (length-bytes3 bytes found h header name value value2 is_name enough stop)
              (λ l below.
                header_same bytes found h header name value value2 is_name enough stop l
                  (inl below))
              (entries_there bytes found h header name value value2 is_name enough stop after rest))
            (rw cast refl)
            (rw (cast-cut bytes found h header name value value2 is_name enough stop) refl)
            (rw (cast-new bytes found h header name value value2 is_name enough stop) refl)
            (name_at-new bytes found h header name value value2 is_name enough stop)
            (bytes3_same bytes found h header name value value2 is_name enough stop)
    ]
