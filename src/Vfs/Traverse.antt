-- ===== src/Vfs/Traverse.antt =====
-- Traversing a path in parts.
use rust_os.Prelude.{◌≡◌, refl, Option, none, some, List, [], ◌∷◌, ◌++◌}
use rust_os.Path.{String}
use rust_os.Vfs.{
  InodeType, file, directory, FileSystem, find_entry, enter, look_up, traverse_components,
}

module _ {S F D E : Type 0} (fs : FileSystem S F D E) where
  -- What follows when the first part of a path leads to an inode.
  abbrev pub continue_at : List String → Option (InodeType F D) × S → Option (InodeType F D) × S
  continue_at rest (none, s) = (none, s)
  continue_at rest (some inode, s) = traverse_components fs rest inode s

  enter-continue_at :
      (first rest : List String) (o : Option E × S)
      → ((inode : InodeType F D) (s : S)
          → traverse_components fs (first ++ rest) inode s
            ≡ continue_at rest (traverse_components fs first inode s))
      → enter fs (traverse_components fs (first ++ rest)) o
        ≡ continue_at rest (enter fs (traverse_components fs first) o)
  unfolding enter
  enter-continue_at first rest (none, s) h = refl
  enter-continue_at first rest (some e, s) h = h (fs.get_inode e s).0 (fs.get_inode e s).1

  -- Traversing a path that is put together from two parts is traversing the first part and then, from
  -- the inode found there, the second: a component that names no entry, or one looked up in a file,
  -- ends the traversal with nothing, and the file system is asked the same questions in the same order.
  pub traverse_components-append :
      (first rest : List String) (inode : InodeType F D) (s : S)
      → traverse_components fs (first ++ rest) inode s
        ≡ continue_at rest (traverse_components fs first inode s)
  unfolding traverse_components look_up
  traverse_components-append [] rest inode s = refl
  traverse_components-append (c ∷ first) rest (file f) s = refl
  traverse_components-append (c ∷ first) rest (directory d) s =
      enter-continue_at first rest
        (find_entry fs c (fs.subdirectories d s).0, (fs.subdirectories d s).1)
        (traverse_components-append first rest)
