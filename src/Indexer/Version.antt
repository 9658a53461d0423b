-- ===== src/Indexer/Version.antt =====
-- The interface number of a game build, internal/indexer/version.go.
pub mod Printed
use wowdoc.Base.{
  ℕ, ◌+◌, ◌-◌, ◌*◌, ◌%◌, ◌^◌, Bool, true, false, not, ◌&&◌, ◌||◌, Option, none, some, List, [], ◌∷◌,
  ◌++◌, Text, codes,
}
use wowdoc.Base.{Eq, ◌==◌, text_eq, ltb, if◌then◌else◌, Result, ok, err}
use wowdoc.Strings.{trim_space, trim_prefix, split, cut, contains_text, equal_fold}
use wowdoc.Strings.Decimal.{decimal, is_digit, digits_value}
use wowdoc.Catalog.{is_game_source}

unfoldable pub leading_digits : Text → Text
leading_digits [] = []
leading_digits (c ∷ s) = let rest = leading_digits s in if is_digit c then c ∷ rest else []

-- `leadingInt`; `Atoi` refuses what is no int64.
unfoldable pub leading_int : Text → Option ℕ
unfolding leading_digits digits_value
leading_int s =
    if leading_digits s == []
    then none
    else if ltb (digits_value 0 (leading_digits s)) (2 ^ 63)
    then some (digits_value 0 (leading_digits s))
    else none

abbrev pub before_newline : Text → Option (Text × Text) → Text
before_newline s none = s
before_newline s (some (line, rest)) = line

-- The first line, without the spaces around it and the byte order mark.
unfoldable pub version_line : Text → Text
version_line s = trim_space (trim_prefix (trim_space (before_newline s (cut 10 s))) (0xfeff ∷ []))

-- strconv.Itoa of an int64 that was computed with wrap-around.
unfoldable pub print_int : ℕ → Text
print_int n =
    if ltb (n % 2 ^ 64) (2 ^ 63) then decimal (n % 2 ^ 64) else b'-' ∷ decimal (2 ^ 64 - n % 2 ^ 64)

abbrev pub interface_number : Option ℕ → Option ℕ → Option ℕ → Text
interface_number (some major) (some minor) (some patch) =
    print_int (major * 10000 + minor * 100 + patch)
interface_number _ _ _ = []

abbrev pub of_parts : List Text → Text
of_parts (major ∷ minor ∷ patch ∷ rest) =
    interface_number (leading_int major) (leading_int minor) (leading_int patch)
of_parts _ = []

-- `BuildInterfaceFromVersion`
unfoldable pub build_interface_from_version : Text → Text
build_interface_from_version s = of_parts (split b'.' (version_line s))

abbrev of_content : Result Text Text → Result Text Text
of_content (err e) = err (codes "read source version.txt: " ++ e)
of_content (ok content) = ok (build_interface_from_version content)

-- The loop over the entries' paths in `snapshotBuildInterface`.
unfoldable pub find_version : (Text → Result Text Text) → List Text → Result Text Text
find_version read [] = ok []
find_version read (path ∷ paths) =
    if contains_text path (codes "/") || not (equal_fold path (codes "version.txt"))
    then find_version read paths
    else of_content (read path)

-- `snapshotBuildInterface`
unfoldable pub snapshot_build_interface :
    (Text → Result Text Text) → Text → List Text → Result Text Text
unfolding find_version
snapshot_build_interface read source_id paths =
    if not (is_game_source source_id) then ok [] else find_version read paths
