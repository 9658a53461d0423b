-- ===== src/Validator/Paths.antt =====
-- Go's `path` and `path/filepath` where the separator is a slash, and the path tests of
-- internal/validator/closure.go.
pub mod Under
use wowdoc.Base.{
  Bool, true, false, not, ◌&&◌, ◌||◌, Option, none, some, List, [], ◌∷◌, ◌++◌, map, Text, codes,
}
use wowdoc.Base.{◌==◌, text_eq, eqb, leb, if◌then◌else◌}
use wowdoc.Strings.{split, join, has_prefix, replace_rune}

abbrev pub is_absolute : Text → Bool
is_absolute p = has_prefix p (codes "/")

-- One element is put on the elements before it, the last of which comes first.
abbrev pub push_element : Bool → Text → List Text → List Text
push_element rooted s [] = if s == codes ".." && rooted then [] else s ∷ []
push_element rooted s (t ∷ before) =
    if s == codes ".." && not (t == codes "..") then before else s ∷ t ∷ before

-- The elements of a path, with the empty ones, `.` and `..` resolved.
unfoldable pub clean_elements : Bool → List Text → List Text → List Text
clean_elements rooted before [] = before
clean_elements rooted before (s ∷ rest) =
    clean_elements rooted
      (if s == [] || s == codes "." then before else push_element rooted s before) rest

unfoldable pub reversed : List Text → List Text → List Text
reversed [] out = out
reversed (s ∷ rest) out = reversed rest (s ∷ out)

-- The elements of the cleaned path, in order.
unfoldable pub elements : Text → List Text
unfolding clean_elements reversed split has_prefix
elements p = reversed (clean_elements (is_absolute p) [] (split b'/' p)) []

abbrev pub of_elements : Bool → List Text → Text
of_elements true ss = b'/' ∷ join (codes "/") ss
of_elements false [] = codes "."
of_elements false (s ∷ ss) = join (codes "/") (s ∷ ss)

-- path.Clean
unfoldable pub clean : Text → Text
unfolding elements join
clean p = of_elements (is_absolute p) (elements p)

-- path.Join of two elements.
unfoldable pub join_path : Text → Text → Text
unfolding clean
join_path [] [] = []
join_path [] q = clean q
join_path p [] = clean p
join_path p q = clean (p ++ (b'/' ∷ q))

-- The text before the last slash, with it.
unfoldable pub before_last_slash : Text → Text
before_last_slash [] = []
before_last_slash (c ∷ s) =
    let rest = before_last_slash s in
    if eqb c b'/' then c ∷ rest else if rest == [] then [] else c ∷ rest

-- path.Dir
unfoldable pub dir : Text → Text
unfolding before_last_slash
dir p = clean (before_last_slash p)

-- path.Ext, given the extension found so far.
unfoldable pub ext_from : Text → Text → Text
ext_from found [] = found
ext_from found (c ∷ s) = ext_from (if eqb c b'/' then [] else if eqb c b'.' then c ∷ s else found) s

unfoldable pub ext : Text → Text
unfolding ext_from
ext p = ext_from [] p

-- The rest of both lists after their common start.
unfoldable pub without_common : List Text → List Text → List Text × List Text
without_common [] ts = ([], ts)
without_common (s ∷ ss) [] = (s ∷ ss, [])
without_common (s ∷ ss) (t ∷ ts) =
    let rest = without_common ss ts in if s == t then rest else (s ∷ ss, t ∷ ts)

abbrev pub upward : List Text → List Text → Option Text
upward (s ∷ ss) ts =
    if s == codes ".."
    then none
    else some (of_elements false (map (λ _. codes "..") (s ∷ ss) ++ ts))
upward [] ts = some (of_elements false ts)

-- filepath.Rel; `none` is its error.
unfoldable pub rel_path : Text → Text → Option Text
unfolding without_common
rel_path from to =
    if is_absolute from && not (is_absolute to) || not (is_absolute from) && is_absolute to
    then none
    else let rest = without_common (elements from) (elements to) in upward rest.0 rest.1

-- `escapesRoot`
unfoldable pub escapes_root : Text → Bool
escapes_root rel = rel == codes ".." || has_prefix rel (codes "../") || is_absolute rel

-- strings.ReplaceAll(value, "\\", "/")
abbrev pub with_slashes : Text → Text
with_slashes = replace_rune b'\\' (codes "/")

abbrev pub has_drive : Text → Bool
has_drive (c ∷ d ∷ s) = (leb b'a' c && leb c b'z' || leb b'A' c && leb c b'Z') && eqb d b':'
has_drive _ = false

-- `hasWindowsVolume`
unfoldable pub has_windows_volume : Text → Bool
has_windows_volume value =
    has_drive (with_slashes value) || has_prefix (with_slashes value) (codes "//")

-- `normalizeDisplayPath`
unfoldable pub display_path : Text → Text
display_path value = clean value
