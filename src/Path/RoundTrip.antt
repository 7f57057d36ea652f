-- ===== src/Path/RoundTrip.antt =====
-- Printing a path and parsing it again.
use rust_os.Prelude.{
  ◌≡◌, refl, ap, subst, ◌∙◌, Bool, true, false, not, ◌||◌, some, List, [], ◌∷◌, ◌++◌, append-nil,
  arith, ◌==◌, ret,
}
use rust_os.Path.{
  String, separator, FilePath, contains_separator, is_empty, new_component, split,
  collect_components, starts_with_separator, parse, join, as_string,
}

-- A component: not empty, without a separator.
abbrev pub IsComponent : String → Type 0
IsComponent s = (is_empty s ≡ false) × (contains_separator s ≡ false)

abbrev pub AreComponents : List String → Type 0
AreComponents [] = Unit {0}
AreComponents (s ∷ ss) = IsComponent s × AreComponents ss

split_plain : (s : String) → contains_separator s ≡ false → split s ≡ s ∷ []
unfolding split contains_separator
split_plain [] h = refl
split_plain (c ∷ s) h =
    let other : (c == separator) ≡ false = ground (arith, h) in
    rw (other, split_plain s (ground (arith, h)))

split-append :
    (s t : String) → contains_separator s ≡ false → split (s ++ separator ∷ t) ≡ s ∷ split t
unfolding split contains_separator
split-append [] t h = refl
split-append (c ∷ s) t h =
    let other : (c == separator) ≡ false = ground (arith, h) in
    rw (other, split-append s t (ground (arith, h)))

split-join :
    (s : String) (ss : List String) → AreComponents (s ∷ ss) → split (join (s ∷ ss)) ≡ s ∷ ss
unfolding join
split-join s [] (good, rest) = split_plain s good.1
split-join s (t ∷ ss) (good, rest) =
    split-append s (join (t ∷ ss)) good.1 ∙ ap (◌∷◌ s) (split-join t ss rest)

collect_all : (ss : List String) → AreComponents ss → collect_components ss ≡ ret ss
unfolding collect_components new_component
collect_all [] good = refl
collect_all (s ∷ ss) (good, rest) = rw (good.0, good.1, collect_all ss rest)

starts_plain : (s : String) (t : String) → IsComponent s → starts_with_separator (s ++ t) ≡ false
unfolding starts_with_separator contains_separator
starts_plain [] t good = cc
starts_plain (c ∷ s) t good = let h = good.1 in ground (arith, h)

starts-join :
    (s : String) (ss : List String)
    → AreComponents (s ∷ ss)
    → starts_with_separator (join (s ∷ ss)) ≡ false
unfolding join
starts-join s [] (good, rest) =
    subst (λ u. starts_with_separator u ≡ false) (append-nil s) (starts_plain s [] good)
starts-join s (t ∷ ss) (good, rest) = starts_plain s (separator ∷ join (t ∷ ss)) good

collect_empty : collect_components ([] ∷ []) ≡ ret []
unfolding collect_components
collect_empty = refl

collect_skip :
    (parts ss : List String)
    → collect_components parts ≡ ret ss
    → collect_components ([] ∷ parts) ≡ ret ss
unfolding collect_components
collect_skip parts ss h = rw h

relative :
    (s : String) (ss : List String)
    → AreComponents (s ∷ ss)
    → parse (as_string (record { absolute = false; components = s ∷ ss }))
      ≡ ret (some (record { absolute = false; components = s ∷ ss }))
unfolding parse as_string
relative s ss good = rw (split-join s ss good, collect_all (s ∷ ss) good, starts-join s ss good)

parse_printed :
    (absolute : Bool) (ss : List String)
    → AreComponents ss
    → absolute || not (is_empty ss) ≡ true
    → parse (as_string (record { absolute = absolute; components = ss }))
      ≡ ret (some (record { absolute = absolute; components = ss }))
unfolding parse as_string starts_with_separator split join collect_components
parse_printed true [] good proper = refl
parse_printed true (s ∷ ss) good proper =
    let all = collect_all (s ∷ ss) good in let parts = split-join s ss good in rw (parts, all)
parse_printed false [] good proper = cc
parse_printed false (s ∷ ss) good proper = relative s ss good

-- A path whose components are not empty and have no separator, and which is absolute or has a
-- component, is what parsing its string gives; parsing it never panics.
pub parse-as_string :
    (p : FilePath)
    → AreComponents p.components
    → p.absolute || not (is_empty p.components) ≡ true
    → parse (as_string p) ≡ ret (some p)
parse-as_string p good proper = parse_printed p.absolute p.components good proper
