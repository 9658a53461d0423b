-- ===== src/Validator/Matrix/Diagnostics.antt =====
-- The diagnostics of several targets merged by key: `mergeDiagnostics` of internal/validator/matrix.go.
use wowdoc.Base.{Bool, true, false, ◌&&◌, Option, none, some, List, [], ◌∷◌, ◌++◌, map, Text}
use wowdoc.Base.{text_eq, if◌then◌else◌}
use wowdoc.Base.Dict
use wowdoc.Base.Dict.{Dict, keys}
use wowdoc.Base.Sort.{sort_by, text_lt}
use wowdoc.Strings.Decimal.{padded}
use wowdoc.Validator.Types.{Diagnostic, Report, fact_value_eq}
use wowdoc.Validator.Matrix.Targets.{distinct, empty_for}

-- `diagnosticKey`
unfoldable pub diagnostic_key : Diagnostic → Text
diagnostic_key d =
    d.severity
    ++ (0
        ∷ (d.code
            ++ (0
                ∷ (d.file ++ (0 ∷ (padded d.line ++ (0 ∷ (padded d.column ++ (0 ∷ d.message)))))))))

-- The diagnostics of a target by their keys; the first of a key stays.
unfoldable pub diagnostics_by_key : List Diagnostic → Dict Text Diagnostic → Dict Text Diagnostic
diagnostics_by_key [] items = items
diagnostics_by_key (d ∷ ds) items =
    diagnostics_by_key ds (elim (Dict.lookup (diagnostic_key d) items) [
      | none ↦ Dict.insert (diagnostic_key d) d items
      | some e ↦ items
    ])

unfoldable pub diagnostics_by_target :
    List Report → Dict Text (Dict Text Diagnostic) → Dict Text (Dict Text Diagnostic)
diagnostics_by_target [] out = out
diagnostics_by_target (t ∷ targets) out =
    diagnostics_by_target targets (Dict.insert t.id (diagnostics_by_key t.diagnostics []) out)

abbrev pub diagnostic_at : Dict Text (Dict Text Diagnostic) → Text → Text → Option Diagnostic
diagnostic_at items id key = elim (Dict.lookup id items) [
  | none ↦ none
  | some by_key ↦ Dict.lookup key by_key
]

unfoldable pub all_keys : List Report → List Text
all_keys [] = []
all_keys (t ∷ targets) = map diagnostic_key t.diagnostics ++ all_keys targets

abbrev has {ℓ} : {A : Type ℓ} → Option A → Bool
has none = false
has (some a) = true

unfoldable pub key_in_all : Dict Text (Dict Text Diagnostic) → List Report → Text → Bool
key_in_all items [] key = true
key_in_all items (t ∷ targets) key =
    has (diagnostic_at items t.id key) && key_in_all items targets key

-- The representative of a shared key: the first target's.
abbrev representative : Dict Text (Dict Text Diagnostic) → List Report → Text → List Diagnostic
representative items [] key = []
representative items (t ∷ targets) key = elim (diagnostic_at items t.id key) [
  | none ↦ []
  | some d ↦ d ∷ []
]

abbrev listed : Text → Dict Text (List Diagnostic) → List Diagnostic
listed id out = elim (Dict.lookup id out) [ none ↦ [] | some ds ↦ ds ]

unfoldable pub add_diagnostic :
    Dict Text (Dict Text Diagnostic)
    → List Report
    → Text
    → Dict Text (List Diagnostic)
    → Dict Text (List Diagnostic)
add_diagnostic items [] key out = out
add_diagnostic items (t ∷ targets) key out =
    add_diagnostic items targets key (elim (diagnostic_at items t.id key) [
      | none ↦ out
      | some d ↦ Dict.insert t.id (listed t.id out ++ d ∷ []) out
    ])

unfoldable pub split_keys :
    Dict Text (Dict Text Diagnostic)
    → List Report
    → List Text
    → List Diagnostic × Dict Text (List Diagnostic)
    → List Diagnostic × Dict Text (List Diagnostic)
split_keys items targets [] out = out
split_keys items targets (key ∷ rest) (shared, only) = split_keys items targets rest (
    if key_in_all items targets key
    then (shared ++ representative items targets key, only)
    else (shared, add_diagnostic items targets key only))

-- `mergeDiagnostics`
unfoldable pub merge_diagnostics : List Report → List Diagnostic × Dict Text (List Diagnostic)
merge_diagnostics [] = ([], [])
merge_diagnostics (t ∷ targets) =
    split_keys (diagnostics_by_target (t ∷ targets) []) (t ∷ targets)
      (sort_by text_lt (distinct (all_keys (t ∷ targets)))) ([], empty_for (t ∷ targets))
