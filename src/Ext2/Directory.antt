-- ===== src/Ext2/Directory.antt =====
-- kernel/src/fs/ext2/directory.rs: the entries of a directory block. An entry is a header with the
-- distance to the next entry and the bytes of a name.
pub mod Entries
pub mod Search
pub mod Write
pub mod Insert
mod Tests
use rust_os.Prelude.{
  ℕ, zero, suc, ◌+◌, ◌-◌, ◌*◌, ◌/◌, ◌%◌, ◌^◌, refl, Option, none, some, List, [], ◌∷◌, ◌++◌, map,
  ltb, leb, ◌==◌, if◌then◌else◌, length, Exec, ret, panic, ◌>>=◌, assert, expect, slice, splice,
  ◌>>◌,
}
use mathlib.Core.Option
use rust_os.Transmute.{Layout, from_prefix_offset}
use rust_os.Transmute.Layouts.{word, ◌⊗◌, ◌&◌, ◌⊕◌, as_struct}

pub record DirectoryEntryHeader : Type 0 where
  pub inode : ℕ
  pub rec_len : ℕ
  pub name_len : ℕ
  pub raw_file_type : ℕ

abbrev pub to_header : ℕ ⊗ ℕ ⊗ ℕ ⊗ ℕ → DirectoryEntryHeader
to_header (inode & rec_len & name_len & raw_file_type) = record {
  inode = inode;
  rec_len = rec_len;
  name_len = name_len;
  raw_file_type = raw_file_type;
}

abbrev pub header_fields : DirectoryEntryHeader → ℕ ⊗ ℕ ⊗ ℕ ⊗ ℕ
header_fields t = t.inode & t.rec_len & t.name_len & t.raw_file_type

unfoldable pub header_layout : Layout DirectoryEntryHeader
header_layout = as_struct (word 4 ⊕ word 2 ⊕ word 1 ⊕ word 1) to_header header_fields (λ t. refl)

pub data DirectoryEntryFileType : Type 0 where
  unknown : DirectoryEntryFileType
  regular_file : DirectoryEntryFileType
  is_directory : DirectoryEntryFileType
  character_device : DirectoryEntryFileType
  block_device : DirectoryEntryFileType
  fifo : DirectoryEntryFileType
  socket : DirectoryEntryFileType
  symbolic_link : DirectoryEntryFileType

unfoldable pub raw_type : DirectoryEntryFileType → ℕ
raw_type unknown = 0
raw_type regular_file = 1
raw_type is_directory = 2
raw_type character_device = 3
raw_type block_device = 4
raw_type fifo = 5
raw_type socket = 6
raw_type symbolic_link = 7

unfoldable pub from_raw : ℕ → Exec DirectoryEntryFileType
from_raw raw =
    if raw == raw_type unknown
    then ret unknown
    else (if raw == raw_type regular_file
        then ret regular_file
        else (if raw == raw_type is_directory
            then ret is_directory
            else (if raw == raw_type character_device
                then ret character_device
                else (if raw == raw_type block_device
                    then ret block_device
                    else (if raw == raw_type fifo
                        then ret fifo
                        else (if raw == raw_type socket
                            then ret socket
                            else (if raw == raw_type symbolic_link
                                then ret symbolic_link
                                else panic)))))))

-- `DirectoryEntryHeader::new`: the length of the name is cut to eight bits.
unfoldable pub new_header : ℕ → List ℕ → DirectoryEntryFileType → DirectoryEntryHeader
new_header inode name file_type = record {
  inode = inode;
  rec_len = 0;
  name_len = length name % 256;
  raw_file_type = raw_type file_type;
}

-- The header and the name, up to the next multiple of four.
unfoldable pub required_space : DirectoryEntryHeader → ℕ
required_space h = (header_layout.size_of + h.name_len + 3) / 4 * 4

-- The header of the entry at a location: `DirectoryEntry::from_bytes` and `header`.
abbrev pub header_at : List ℕ → ℕ → Exec DirectoryEntryHeader
header_at bytes location = expect (from_prefix_offset header_layout bytes location)

-- The bytes of an entry's name.
unfoldable pub name_at : List ℕ → ℕ → Exec (List ℕ)
name_at bytes location = do
  header ← header_at bytes location
  let start = location + header_layout.size_of
  assert (leb (start + header.name_len) (length bytes))
  ret (slice bytes start header.name_len)

pub record DirectoryBlock : Type 0 where
  pub bytes : List ℕ
  pub entry_locations : List ℕ

-- The loop of `from_existing_block` on fuel; `none` when it runs out.
unfoldable pub find_locations : ℕ → List ℕ → ℕ → Exec (Option (List ℕ))
find_locations zero bytes offset = ret none
find_locations (suc fuel) bytes offset =
    let more = header_at bytes offset >>= λ header.
    find_locations fuel bytes (offset + header.rec_len) >>= λ locations.
    ret (Option.map (λ l. offset ∷ l) locations) in
    if ltb offset (length bytes) then more else ret (some [])

unfoldable pub from_existing_block : ℕ → List ℕ → Exec (Option DirectoryBlock)
from_existing_block fuel bytes = do
  locations ← find_locations fuel bytes 0
  ret (Option.map (λ l. record { bytes = bytes; entry_locations = l }) locations)

-- `find_map`: the first entry with enough space behind it, with its index.
unfoldable pub find_space : List ℕ → ℕ → ℕ → List ℕ → Exec (Option (ℕ × ℕ))
find_space bytes space index [] = ret none
find_space bytes space index (location ∷ locations) = do
  header ← header_at bytes location
  assert (leb (required_space header) header.rec_len)
  let rest = find_space bytes space (index + 1) locations
  if leb space (header.rec_len - required_space header) then ret (some (index, location)) else rest

-- `Vec::insert`.
abbrev pub insert_at : List ℕ → ℕ → ℕ → List ℕ
insert_at l zero x = x ∷ l
insert_at [] (suc i) x = x ∷ []
insert_at (y ∷ l) (suc i) x = y ∷ insert_at l i x

-- The entry found is cut to its space, and the new one gets the rest.
abbrev pub insert_behind :
    DirectoryBlock
    → List ℕ
    → DirectoryEntryHeader
    → Option (ℕ × ℕ)
    → Exec (Option (ℕ × DirectoryBlock))
insert_behind block name header none = ret none
insert_behind block name header (some (index, location)) = do
  found ← header_at block.bytes location
  let space = required_space found % 2 ^ 16
  let cut = splice block.bytes location (header_layout.encode (record found { rec_len = space }))
  let new_location = location + space
  assert (leb space found.rec_len)
  let new = record header { rec_len = found.rec_len - space }
  assert (leb new_location (length cut))
  let written = splice cut new_location (header_layout.encode new ++ name)
  ret (
      some (
        new_location,
        record {
          bytes = written;
          entry_locations = insert_at block.entry_locations index new_location;
        },
      ))

-- The location of the new entry, with the block.
unfoldable pub insert_entry :
    DirectoryBlock → List ℕ → ℕ → DirectoryEntryFileType → Exec (Option (ℕ × DirectoryBlock))
insert_entry block name inode_number entry_type = do
  let header = new_header inode_number name entry_type
  found ← find_space block.bytes (required_space header) 0 block.entry_locations
  insert_behind block name header found
