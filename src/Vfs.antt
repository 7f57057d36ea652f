-- ===== src/Vfs.antt =====
-- kernel/src/vfs/fs.rs and the file contents of kernel/src/fs/sysfs.rs: traversal of a path, and
-- reading of a whole file. A file system's methods are a parameter.
pub mod Traverse
pub mod ReadAll
mod Tests
use rust_os.Prelude.{
  ℕ, zero, suc, ◌+◌, ◌-◌, min, Bool, true, false, not, ◌&&◌, Option, none, some, List, [], ◌∷◌,
  ◌++◌, leb, ◌==◌, if◌then◌else◌, length, take, drop, replicate, Exec, ret, ◌>>=◌, assert, add_u64,
  Result, ok, err, ◌>>◌,
}
use rust_os.Path.{FilePath, String}

pub data InodeType (F D : Type 0) : Type 0 where
  file : F → InodeType F D
  directory : D → InodeType F D

-- The traits `FileSystem`, `DirectoryInode` and `DirectoryEntry`. Each method may change the state `S`
-- of the file system.
pub record FileSystem (S F D E : Type 0) : Type 0 where
  pub read_root : S → InodeType F D × S
  pub subdirectories : D → S → List E × S
  pub name : E → String
  pub get_inode : E → S → InodeType F D × S

unfoldable pub string_eq : String → String → Bool
string_eq [] [] = true
string_eq [] (c ∷ t) = false
string_eq (c ∷ s) [] = false
string_eq (c ∷ s) (d ∷ t) = c == d && string_eq s t

module _ {S F D E : Type 0} (fs : FileSystem S F D E) where
  unfoldable pub find_entry : String → List E → Option E
  find_entry component [] = none
  find_entry component (e ∷ entries) =
      if string_eq (fs.name e) component then some e else find_entry component entries

  -- The rest of a round of `traverse_path`, with the rounds that follow.
  unfoldable pub enter :
      (InodeType F D → S → Option (InodeType F D) × S) → Option E × S → Option (InodeType F D) × S
  enter rest (none, s) = (none, s)
  enter rest (some e, s) = let (inode, s') = fs.get_inode e s in rest inode s'

  unfoldable pub look_up :
      (InodeType F D → S → Option (InodeType F D) × S)
      → String
      → InodeType F D
      → S
      → Option (InodeType F D) × S
  look_up rest component (file f) s = (none, s)
  look_up rest component (directory d) s =
      let (entries, s') = fs.subdirectories d s in enter rest (find_entry component entries, s')

  unfoldable pub traverse_components : List String → InodeType F D → S → Option (InodeType F D) × S
  traverse_components [] inode s = (some inode, s)
  traverse_components (component ∷ components) inode s =
      look_up (traverse_components components) component inode s

  unfoldable pub traverse_path : FilePath → S → Option (InodeType F D) × S
  traverse_path path s =
      let (inode, s') = fs.read_root s in traverse_components path.components inode s'

pub data FileInodeReadResult : Type 0 where
  success : FileInodeReadResult
  done : ℕ → FileInodeReadResult

-- `read` gets the buffer and the offset, and returns the buffer that it filled.
module _ (read : List ℕ → ℕ → Exec (List ℕ × FileInodeReadResult)) (size : ℕ) where
  unfoldable pub read_step :
      (List ℕ → ℕ → Exec (Option (List ℕ)))
      → List ℕ
      → ℕ
      → List ℕ × FileInodeReadResult
      → Exec (Option (List ℕ))
  read_step again buffer offset (read_buffer, success) =
      again (buffer ++ read_buffer) (offset + length read_buffer)
  read_step again buffer offset (read_buffer, done bytes_read) = do
    assert (leb bytes_read (length read_buffer))
    ret (some (buffer ++ take bytes_read read_buffer))

  -- The loop on fuel; `none` when it runs out.
  unfoldable pub read_loop : ℕ → List ℕ → ℕ → Exec (Option (List ℕ))
  read_loop zero buffer offset = ret none
  read_loop (suc fuel) buffer offset =
      read (replicate size 0) offset >>= read_step (read_loop fuel) buffer offset

unfoldable pub read_all :
    (List ℕ → ℕ → Exec (List ℕ × FileInodeReadResult)) → ℕ → Exec (Option (List ℕ))
read_all read fuel = read_loop read 4096 fuel [] 0

-- `&bytes[start..end]`, and `buffer[..n].copy_from_slice` for `n` bytes.
unfoldable pub slice : List ℕ → ℕ → ℕ → Exec (List ℕ)
slice bytes start end = do
  assert (leb start end && leb end (length bytes))
  ret (take (end - start) (drop start bytes))

unfoldable pub copy_from_slice : List ℕ → List ℕ → Exec (List ℕ)
copy_from_slice buffer bytes = do
  assert (leb (length bytes) (length buffer))
  ret (bytes ++ drop (length bytes) buffer)

unfoldable pub sysfs_read_file : List ℕ → List ℕ → ℕ → Exec (List ℕ × FileInodeReadResult)
sysfs_read_file content buffer offset = do
  let start = min offset (length content)
  last ← add_u64 offset (length buffer)
  let end = min last (length content)
  copy_data ← slice content start end
  filled ← copy_from_slice buffer copy_data
  ret (filled, if end == length content then done (length content) else success)

-- The errors of `get_path_inode`; the mounted file system's state is there or not.
pub data PathError : Type 0 where
  not_mounted : PathError
  not_absolute : PathError
  not_found : PathError

module _ {S F D E : Type 0} (fs : FileSystem S F D E) where
  unfoldable pub found_inode :
      Option (InodeType F D) × S → Result (InodeType F D) PathError × Option S
  found_inode (none, s) = (err not_found, some s)
  found_inode (some inode, s) = (ok inode, some s)

  unfoldable pub get_path_inode : Option S → FilePath → Result (InodeType F D) PathError × Option S
  get_path_inode none path = (err not_mounted, none)
  get_path_inode (some s) path =
      if path.absolute then found_inode (traverse_path fs path s) else (err not_absolute, some s)
