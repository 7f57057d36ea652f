-- ===== src/Path/Tests.antt =====
-- `/usr/bin` and friends.
use rust_os.Prelude.{◌≡◌, refl, true, some, [], ◌∷◌, ret}
use rust_os.Path.{FilePath, parse, as_string, contains_separator}
use rust_os.Path.RoundTrip.{AreComponents, parse-as_string}

abbrev bin : FilePath
bin = record { absolute = true; components = (117 ∷ 115 ∷ 114 ∷ []) ∷ (98 ∷ 105 ∷ 110 ∷ []) ∷ [] }

bin-AreComponents : AreComponents bin.components
unfolding contains_separator
bin-AreComponents = ((refl, refl), ((refl, refl), tt))

parse-as_string_example : parse (as_string bin) ≡ ret (some bin)
parse-as_string_example = parse-as_string bin bin-AreComponents refl
