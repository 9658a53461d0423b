-- ===== src/Validator/Matrix/Files.antt =====
-- The load files of several targets merged by path: `mergeFiles` of internal/validator/matrix.go.
pub mod Split
use wowdoc.Base.{
  ℕ, Bool, true, false, not, ◌&&◌, ◌||◌, Option, none, some, List, [], ◌∷◌, ◌++◌, map, Text, codes,
}
use wowdoc.Base.{Eq, ◌==◌, text_eq, contains, ltb, eqb, if◌then◌else◌}
use wowdoc.Base.Dict
use wowdoc.Base.Dict.{Dict, keys}
use wowdoc.Base.Sort.{sort_by, text_lt}
use wowdoc.Strings.{to_lower, contains_text}
use wowdoc.Strings.Decimal.{padded}
use wowdoc.Validator.Types.{
  Diagnostic, Unresolved, LoadFile, Fact, Report, FactValue, fact_value_eq,
}
use wowdoc.Validator.Types.{
  FactDifference, FactSummary, InterfaceSummary, MatrixSummary, MatrixResult,
}
use wowdoc.Validator.Matrix.Targets.{distinct, empty_for}

-- The set of a target's paths.
abbrev pub paths_of : Report → List Text
paths_of t = map (λ (f : LoadFile). f.path) t.load_closure

-- The files of a target by its id: of two targets with one id the later counts.
unfoldable pub files_by_target : List Report → Dict Text (List Text) → Dict Text (List Text)
files_by_target [] files = files
files_by_target (t ∷ targets) files = files_by_target targets (Dict.insert t.id (paths_of t) files)

abbrev pub paths_at : Text → Dict Text (List Text) → List Text
paths_at id files = elim (Dict.lookup id files) [ none ↦ [] | some paths ↦ paths ]

unfoldable pub all_paths : List Report → List Text
all_paths [] = []
all_paths (t ∷ targets) = paths_of t ++ all_paths targets

unfoldable pub in_all : Dict Text (List Text) → List Report → Text → Bool
in_all files [] path = true
in_all files (t ∷ targets) path = contains (paths_at t.id files) path && in_all files targets path

-- The inner loop for a path that is not shared: it is appended for each target that has it.
unfoldable pub add_path :
    Dict Text (List Text) → List Report → Text → Dict Text (List Text) → Dict Text (List Text)
add_path files [] path out = out
add_path files (t ∷ targets) path out = add_path files targets path (
    if contains (paths_at t.id files) path
    then Dict.insert t.id (paths_at t.id out ++ path ∷ []) out
    else out)

unfoldable pub split_paths :
    Dict Text (List Text)
    → List Report
    → List Text
    → List Text × Dict Text (List Text)
    → List Text × Dict Text (List Text)
unfolding add_path
split_paths files targets [] out = out
split_paths files targets (path ∷ paths) (shared, only) = split_paths files targets paths (
    if in_all files targets path
    then (shared ++ path ∷ [], only)
    else (shared, add_path files targets path only))

-- `mergeFiles`
unfoldable pub merge_files : List Report → List Text × Dict Text (List Text)
merge_files [] = ([], [])
merge_files (t ∷ targets) =
    let files = files_by_target (t ∷ targets) [] in
    split_paths files (t ∷ targets) (sort_by text_lt (distinct (all_paths (t ∷ targets))))
      ([], empty_for (t ∷ targets))
