-- ===== src/Tests/Patterns.antt =====
-- A reader of LIKE patterns, for the theorem on the patterns of a search.
use wowdoc.Base.{
  ◌≡◌, refl, List, [], ◌∷◌, ◌++◌, map, Text, codes, ◌==◌, nat_eq, Bool, true, false, arith, ℕ,
}
use wowdoc.Base.{if◌then◌else◌}
use wowdoc.Query.Pattern.{is_escaped, contains_pattern}
use wowdoc.Query.Pattern.Literal.{Part, literal, any_one, any_run, IsLike, contains_pattern-read}

-- The parts of a pattern, after a backslash or not.
unfoldable read_from : Bool → Text → List Part
read_from escaped [] = []
read_from true (c ∷ rest) = literal c ∷ read_from false rest
read_from false (c ∷ rest) =
    let escaped = read_from true rest in
    let parts = read_from false rest in
    if c == b'\\'
    then escaped
    else if c == b'%'
    then any_run ∷ parts
    else if c == b'_'
    then any_one ∷ parts
    else literal c ∷ parts

abbrev read_parts : Text → List Part
read_parts = read_from false

read_parts-plain :
    (c : ℕ) (rest : Text)
    → is_escaped c ≡ false
    → read_parts (c ∷ rest) ≡ literal c ∷ read_parts rest
unfolding is_escaped read_from
read_parts-plain c rest h = ground arith

read_parts-IsLike : IsLike read_parts
unfolding read_from nat_eq
read_parts-IsLike = record {
  at_end = refl;
  at_escape = λ c rest. refl;
  at_percent = λ rest. refl;
  at_underscore = λ rest. refl;
  at_plain = read_parts-plain;
}

contains_pattern-read_example :
    read_parts (contains_pattern (codes "a_b%"))
    ≡ any_run ∷ map literal (codes "a_b%") ++ any_run ∷ []
contains_pattern-read_example = contains_pattern-read read_parts read_parts-IsLike (codes "a_b%")
