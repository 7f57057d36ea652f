-- ===== src/Vfs/Tests.antt =====
-- A directory with one directory that has one file, and short files of sysfs.
use rust_os.Prelude.{ℕ, zero, suc, ◌+◌, ◌≡◌, some, List, [], ◌∷◌, arith, ret}
use rust_os.Path.{String}
use rust_os.Vfs.{InodeType, file, directory, FileSystem, read_all, sysfs_read_file}
use rust_os.Vfs.ReadAll.{read_all-sysfs_read_file}

-- Directory 0 is the root and has directory 1, named "a", which has file 5, named "b". The state counts
-- the calls.
abbrev entries_of : ℕ → List (String × InodeType ℕ ℕ)
entries_of zero = ((97 ∷ []), directory 1) ∷ []
entries_of (suc zero) = ((98 ∷ []), file 5) ∷ []
entries_of (suc (suc n)) = []

abbrev tree : FileSystem ℕ ℕ ℕ (String × InodeType ℕ ℕ)
tree = record {
  read_root = λ s. (directory 0, s + 1);
  subdirectories = λ d s. (entries_of d, s + 1);
  name = λ e. e.0;
  get_inode = λ e s. (e.1, s + 1);
}

read_all-sysfs_read_file_example :
    read_all (sysfs_read_file (104 ∷ 105 ∷ [])) 1 ≡ ret (some (104 ∷ 105 ∷ []))
read_all-sysfs_read_file_example =
    read_all-sysfs_read_file (104 ∷ 105 ∷ []) 0 (omega arith) (omega arith)
