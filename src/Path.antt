-- ===== src/Path.antt =====
-- kernel/src/vfs/path.rs: file paths. A string is the list of its bytes; 47 is the separator.
pub mod RoundTrip
mod Tests
use rust_os.Prelude.{
  ℕ, Bool, true, false, not, ◌&&◌, ◌||◌, Option, none, some, List, [], ◌∷◌, ◌++◌, ◌==◌,
  if◌then◌else◌, Exec, ret, assert, ◌>>=◌, ◌>>◌,
}

abbrev pub separator : ℕ
separator = 47

abbrev pub String : Type 0
String = List ℕ

-- A component holds its string; `new` makes it.
pub record FilePath : Type 0 where
  pub absolute : Bool
  pub components : List String

unfoldable pub contains_separator : String → Bool
contains_separator [] = false
contains_separator (c ∷ s) = c == separator || contains_separator s

abbrev pub is_empty : {A : Type 0} → List A → Bool
is_empty [] = true
is_empty (c ∷ s) = false

-- `FilePathComponent::new`.
unfoldable pub new_component : String → Exec (Option String)
new_component s = do assert (not (contains_separator s)); ret (if is_empty s then none else some s)

-- The first part of a split with a byte in front.
abbrev pub extend : ℕ → List String → List String
extend c [] = (c ∷ []) ∷ []
extend c (part ∷ parts) = (c ∷ part) ∷ parts

-- `s.split('/')`.
unfoldable pub split : String → List String
split [] = [] ∷ []
split (c ∷ s) = let rest = split s in if c == separator then [] ∷ rest else extend c rest

-- `filter(not empty)` and `filter_map(FilePathComponent::new)`.
unfoldable pub collect_components : List String → Exec (List String)
collect_components [] = ret []
collect_components (part ∷ parts) = do
  component ← if is_empty part then ret none else new_component part
  rest ← collect_components parts
  ret (elim component [ none ↦ rest | some s ↦ s ∷ rest ])

unfoldable pub starts_with_separator : String → Bool
starts_with_separator [] = false
starts_with_separator (c ∷ s) = c == separator

unfoldable pub parse : String → Exec (Option FilePath)
parse s = do
  let absolute = starts_with_separator s
  components ← collect_components (split s)
  ret (
      if not absolute && is_empty components
      then none
      else some (record { absolute = absolute; components = components }))

-- `join("/")`.
unfoldable pub join : List String → String
join [] = []
join (s ∷ []) = s
join (s ∷ t ∷ ss) = s ++ separator ∷ join (t ∷ ss)

unfoldable pub as_string : FilePath → String
as_string p = if p.absolute then separator ∷ join p.components else join p.components

-- `split_last`: the last element, and what is before it.
unfoldable pub split_last : List String → Option (String × List String)
split_last [] = none
split_last (s ∷ []) = some (s, [])
split_last (s ∷ t ∷ ss) = elim (split_last (t ∷ ss)) [ none ↦ none | some x ↦ some (x.0, s ∷ x.1) ]

unfoldable pub split_dirname_filename : FilePath → Option (FilePath × String)
split_dirname_filename p = elim (split_last p.components) [
  | none ↦ none
  | some x ↦ some (record { absolute = p.absolute; components = x.1 }, x.0)
]
