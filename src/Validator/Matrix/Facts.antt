-- ===== src/Validator/Matrix/Facts.antt =====
-- The facts of several targets merged by name: `mergeFacts` of internal/validator/matrix.go.
pub mod Collected
pub mod Shared
use wowdoc.Base.{
  ℕ, Bool, true, false, not, ◌&&◌, ◌||◌, Option, none, some, List, [], ◌∷◌, ◌++◌, map, Text, codes,
}
use wowdoc.Base.{Eq, ◌==◌, text_eq, contains, ltb, eqb, if◌then◌else◌}
use wowdoc.Base.Dict
use wowdoc.Base.Dict.{Dict, keys}
use wowdoc.Base.Sort.{sort_by, text_lt}
use wowdoc.Strings.{to_lower, contains_text}
use wowdoc.Strings.Decimal.{padded}
use wowdoc.Validator.Types.{
  Diagnostic, Unresolved, LoadFile, Fact, Report, FactValue, fact_value_eq,
}
use wowdoc.Validator.Types.{
  FactDifference, FactSummary, InterfaceSummary, MatrixSummary, MatrixResult,
}

-- `matrixSortedKeys`
unfoldable pub sorted_keys {ℓ} : {V : Type ℓ} → Dict Text V → List Text
sorted_keys d = sort_by text_lt (keys d)

abbrev pub dict_at : Text → Dict Text (Dict Text FactValue) → Dict Text FactValue
dict_at name values = elim (Dict.lookup name values) [ none ↦ [] | some row ↦ row ]

-- The facts of one target, each of which replaces an earlier one of its name.
unfoldable pub collect_facts :
    List Text → Text → List Fact → Dict Text (Dict Text FactValue) → Dict Text (Dict Text FactValue)
collect_facts kinds id [] values = values
collect_facts kinds id (f ∷ facts) values = collect_facts kinds id facts (
    if contains kinds (to_lower f.kind)
    then Dict.insert f.name
        (Dict.insert id (record { exists = f.exists; signature = f.signature })
          (dict_at f.name values))
        values
    else values)

-- `valuesByName`
unfoldable pub values_by_name :
    List Text → List Report → Dict Text (Dict Text FactValue) → Dict Text (Dict Text FactValue)
unfolding collect_facts
values_by_name kinds [] values = values
values_by_name kinds (t ∷ targets) values =
    values_by_name kinds targets (collect_facts kinds t.id t.facts values)

abbrev pub no_value : FactValue
no_value = record { exists = false; signature = [] }

abbrev pub value_or_zero : Option FactValue → FactValue
value_or_zero none = no_value
value_or_zero (some v) = v

abbrev pub is_observed : Option FactValue → Bool
is_observed none = false
is_observed (some v) = true

-- Whether every target has a fact of the name, and all are the first one's.
unfoldable pub same_in_all : Dict Text FactValue → FactValue → List Report → Bool
same_in_all row first [] = true
same_in_all row first (t ∷ targets) =
    is_observed (Dict.lookup t.id row)
    && value_or_zero (Dict.lookup t.id row) == first
    && same_in_all row first targets

-- `shared` after the loop over the targets.
unfoldable pub is_shared : Dict Text FactValue → List Report → Bool
unfolding same_in_all
is_shared row [] = true
is_shared row (t ∷ targets) = same_in_all row (value_or_zero (Dict.lookup t.id row)) (t ∷ targets)

-- `targetValues`
unfoldable pub target_values : Dict Text FactValue → List Report → Dict Text FactValue
target_values row [] = []
target_values row (t ∷ targets) =
    Dict.insert t.id (value_or_zero (Dict.lookup t.id row)) (target_values row targets)

unfoldable pub summarise : Dict Text (Dict Text FactValue) → List Report → List Text → FactSummary
summarise values targets [] = record { shared = []; differences = [] }
summarise values targets (name ∷ names) =
    let rest = summarise values targets names in
    if is_shared (dict_at name values) targets
    then record rest { shared = name ∷ rest.shared }
    else record rest {
      differences =
          record { name = name; targets = target_values (dict_at name values) targets }
          ∷ rest.differences;
    }

-- `mergeFacts`
unfoldable pub merge_facts : List Report → List Text → FactSummary
merge_facts [] kinds = record { shared = []; differences = [] }
merge_facts (t ∷ targets) kinds =
    let values = values_by_name kinds (t ∷ targets) [] in
    summarise values (t ∷ targets) (sorted_keys values)
