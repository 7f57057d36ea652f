-- ===== src/Ext2/Directory/Entries.antt =====
-- The entries of a well-formed directory block.
use rust_os.Prelude.{
  ℕ, zero, suc, ◌+◌, ◌≤◌, ◌<◌, ◌≡◌, refl, true, false, some, List, [], ◌∷◌, arith, ltb, length, ret,
}
use rust_os.Transmute.{from_prefix_offset}
use rust_os.Transmute.Layouts.{as_struct, ◌⊕◌, word}
use rust_os.Ext2.Directory.{
  DirectoryEntryHeader, header_layout, required_space, find_locations, from_existing_block,
}

-- From a location on, entries with room for their header and name lie side by side up to the end of
-- the block, at these locations.
pub data Entries (bytes : List ℕ) : ℕ → List ℕ → Type 0 where
  last : (at : ℕ) → at ≡ length bytes → Entries bytes at []
  entry :
      (at : ℕ) (locations : List ℕ) (h : DirectoryEntryHeader)
      → from_prefix_offset header_layout bytes at ≡ some h
      → header_layout.is_value h ≡ true
      → required_space h ≤ h.rec_len
      → at + h.rec_len ≤ length bytes
      → Entries bytes (at + h.rec_len) locations
      → Entries bytes at (at ∷ locations)

pub eight : header_layout.size_of ≡ 8
unfolding header_layout as_struct ◌⊕◌ word
eight = refl

pub header_fits : (h : DirectoryEntryHeader) → 8 + h.name_len ≤ required_space h
unfolding required_space
header_fits h = omega (arith, eight)

-- The space does not hang on the distance to the next entry.
pub required_space_rec :
    (h : DirectoryEntryHeader) (n : ℕ)
    → required_space (record h { rec_len = n }) ≡ required_space h
unfolding required_space
required_space_rec h n = refl

find_locations_lem :
    (bytes : List ℕ) (fuel at : ℕ) (locations : List ℕ)
    → Entries bytes at locations
    → length locations < fuel
    → find_locations fuel bytes at ≡ ret (some locations)
unfolding find_locations
find_locations_lem bytes zero at locations e enough = absurd (omega arith)
find_locations_lem bytes (suc fuel) _ [] (last at h) enough =
    let t : ltb at (length bytes) ≡ false = ground arith in rw t
find_locations_lem bytes (suc fuel) _ (_ ∷ _) (entry at locations h cast value space end rest)
      enough =
    let t : ltb at (length bytes) ≡ true = ground (arith, header_fits h) in
    let ih = find_locations_lem bytes fuel (at + h.rec_len) locations rest (omega arith) in
    rw (t, cast, ih)

-- The entries of a well-formed block are found, with a round for each of them and one more.
pub from_existing_block_lem :
    (bytes locations : List ℕ) (fuel : ℕ)
    → Entries bytes 0 locations
    → length locations < fuel
    → from_existing_block fuel bytes
      ≡ ret (some (record { bytes = bytes; entry_locations = locations }))
unfolding from_existing_block
from_existing_block_lem bytes locations fuel e enough =
    rw (find_locations_lem bytes fuel 0 locations e enough)
