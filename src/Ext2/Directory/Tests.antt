-- ===== src/Ext2/Directory/Tests.antt =====
-- A block of 24 bytes with one entry.
use rust_os.Prelude.{ℕ, ◌≤◌, ◌≡◌, refl, true, some, List, [], ◌∷◌, arith, replicate, ret}
use rust_os.Transmute.{from_prefix, from_prefix_offset}
use rust_os.Transmute.Layouts.{as_struct, ◌⊕◌, word, from_le_bytes}
use rust_os.Ext2.Directory.{
  DirectoryEntryHeader, header_layout, required_space, regular_file, insert_entry,
  from_existing_block,
}
use rust_os.Ext2.Directory.Entries.{Entries, last, entry, from_existing_block_lem}
use rust_os.Ext2.Directory.Insert.{Insertion, insert_entry_lem}

abbrev bytes : List ℕ
bytes = 2 ∷ 0 ∷ 0 ∷ 0 ∷ 24 ∷ 0 ∷ 1 ∷ 2 ∷ 46 ∷ replicate 15 0

abbrev header : DirectoryEntryHeader
header = record { inode = 2; rec_len = 24; name_len = 1; raw_file_type = 2 }

cast : from_prefix_offset header_layout bytes 0 ≡ some header
unfolding from_prefix_offset from_prefix header_layout as_struct ◌⊕◌ word from_le_bytes
cast = refl

value : header_layout.is_value header ≡ true
unfolding header_layout as_struct ◌⊕◌ word
value = refl

space : required_space header ≤ 24
unfolding required_space header_layout as_struct ◌⊕◌ word
space = omega arith

entries : Entries bytes 0 (0 ∷ [])
entries = entry 0 [] header cast value space (omega arith) (last 24 refl)

insert_entry_lem_example : Insertion bytes (0 ∷ []) (104 ∷ 105 ∷ []) 12 regular_file (
    insert_entry
      (record { bytes = bytes; entry_locations = 0 ∷ [] })
      (104 ∷ 105 ∷ [])
      12
      regular_file)
insert_entry_lem_example =
    insert_entry_lem bytes (0 ∷ []) (104 ∷ 105 ∷ []) 12 regular_file entries (omega arith)
      (omega arith)

from_existing_block_lem_example :
    from_existing_block 2 bytes ≡ ret (some (record { bytes = bytes; entry_locations = 0 ∷ [] }))
from_existing_block_lem_example = from_existing_block_lem bytes (0 ∷ []) 2 entries (omega arith)
