-- ===== src/Transmute.antt =====
-- kernel/src/transmute.rs: buffers of bytes read and written as values of a type without padding. A
-- cast fails when the bytes do not suffice, and when their address is not aligned for the type.
pub mod View
pub mod Layouts
pub mod Access
mod Tests
use rust_os.Prelude.{
  ℕ, zero, ◌+◌, ◌%◌, ◌≡◌, Bool, true, not, ◌&&◌, Option, none, some, List, ◌++◌, map, leb, ◌==◌,
  if◌then◌else◌, length, take, drop, splice, ◌>>=◌, ◌>>◌,
}
use mathlib.Core.Option

-- How a type lies in memory: what `FromBytes` and `AsBytes` say of it. A value is one whose numbers
-- fit into their words; the alignment is not zero.
pub record Layout (T : Type 0) : Type 0 where
  pub size_of : ℕ
  pub align_of : ℕ
  pub is_value : T → Bool
  pub encode : T → List ℕ
  pub decode : List ℕ → T
  pub length-encode : (t : T) → is_value t ≡ true → length (encode t) ≡ size_of
  pub decode-encode : (t : T) → is_value t ≡ true → decode (encode t) ≡ t

-- `bytes.get(offset..)`.
abbrev pub get_from : List ℕ → ℕ → Option (List ℕ)
get_from bytes offset = if leb offset (length bytes) then some (drop offset bytes) else none

module _ {T : Type 0} (layout : Layout T) where
  -- The value that the bytes begin with, wherever they lie.
  unfoldable pub from_prefix : List ℕ → Option T
  from_prefix bytes =
      if leb layout.size_of (length bytes)
      then some (layout.decode (take layout.size_of bytes))
      else none

  -- The same after so many bytes: a cast of a packed type, which may lie anywhere.
  abbrev pub prefix_found : Option (List ℕ) → Option T
  prefix_found none = none
  prefix_found (some bytes) = from_prefix bytes

  unfoldable pub from_prefix_offset : List ℕ → ℕ → Option T
  from_prefix_offset bytes offset = prefix_found (get_from bytes offset)

  unfoldable pub is_aligned : ℕ → Bool
  is_aligned address = address % layout.align_of == 0

  -- The bytes lie at an address; `LayoutVerified::new_from_prefix` refuses one that is not aligned.
  unfoldable pub try_cast_bytes_ref : ℕ → List ℕ → Option T
  try_cast_bytes_ref address bytes = if is_aligned address then from_prefix bytes else none

  abbrev pub cast_found : ℕ → Option (List ℕ) → Option T
  cast_found address none = none
  cast_found address (some bytes) = try_cast_bytes_ref address bytes

  unfoldable pub try_cast_bytes_ref_offset : ℕ → List ℕ → ℕ → Option T
  try_cast_bytes_ref_offset address bytes offset =
      cast_found (address + offset) (get_from bytes offset)

  -- A mutable reference: the value, and what the bytes are after an assignment to it.
  unfoldable pub try_cast_bytes_ref_mut : ℕ → List ℕ → Option (T × (T → List ℕ))
  try_cast_bytes_ref_mut address bytes =
      if is_aligned address && leb layout.size_of (length bytes)
      then some
          (layout.decode (take layout.size_of bytes), λ value. splice bytes 0 (layout.encode value))
      else none

  abbrev pub found_ref_mut : ℕ → List ℕ → ℕ → Option (List ℕ) → Option (T × (T → List ℕ))
  found_ref_mut address bytes offset none = none
  found_ref_mut address bytes offset (some found) =
      Option.map (λ r. (r.0, λ value. take offset bytes ++ r.1 value))
        (try_cast_bytes_ref_mut (address + offset) found)

  unfoldable pub try_cast_bytes_ref_mut_offset : ℕ → List ℕ → ℕ → Option (T × (T → List ℕ))
  try_cast_bytes_ref_mut_offset address bytes offset =
      found_ref_mut address bytes offset (get_from bytes offset)

  unfoldable pub try_write_bytes_offset : ℕ → List ℕ → ℕ → T → Option (List ℕ)
  try_write_bytes_offset address bytes offset value =
      Option.map (λ r. r.1 value) (try_cast_bytes_ref_mut_offset address bytes offset)
