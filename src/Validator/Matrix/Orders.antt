-- ===== src/Validator/Matrix/Orders.antt =====
-- What internal/validator/matrix.go sorts: the unresolved sites and the interface facts.
use wowdoc.Base.{ℕ, Bool, not, ◌&&◌, ◌||◌, List, [], ◌∷◌, Text, codes}
use wowdoc.Base.{◌==◌, text_eq, ltb, eqb, if◌then◌else◌}
use wowdoc.Base.Sort.{sort_by, text_lt}
use wowdoc.Strings.{to_lower, contains_text}
use wowdoc.Validator.Types.{Diagnostic, Unresolved, Fact, Report, fact_value_eq}
use wowdoc.Validator.Types.{InterfaceSummary}
use wowdoc.Validator.Matrix.Diagnostics.{diagnostic_key}

-- The order of two texts, and what decides where they are equal.
abbrev by_text : Text → Text → Bool → Bool
by_text a b next = if not (a == b) then text_lt a b else next

abbrev by_number : ℕ → ℕ → Bool → Bool
by_number a b next = if not (eqb a b) then ltb a b else next

-- The order of `sortedUnresolved`.
unfoldable pub unresolved_lt : Unresolved → Unresolved → Bool
unresolved_lt a b = by_text a.kind b.kind (
    by_text a.expression b.expression (
      by_text a.file b.file
        (by_number a.line b.line (by_number a.column b.column (text_lt a.reason b.reason)))))

-- `sortedUnresolved`
unfoldable pub sorted_unresolved : List Unresolved → List Unresolved
sorted_unresolved = sort_by unresolved_lt

-- The order of the facts in `interfaceSummary`.
unfoldable pub fact_lt : Fact → Fact → Bool
fact_lt a b = by_text a.kind b.kind (
    by_text a.name b.name (
      if not (a.exists && b.exists || not a.exists && not b.exists)
      then not a.exists
      else text_lt a.signature b.signature))

unfoldable pub interface_facts : List Fact → List Fact
interface_facts [] = []
interface_facts (f ∷ facts) =
    let rest = interface_facts facts in
    if contains_text (to_lower f.kind) (codes "interface") then f ∷ rest else rest

unfoldable pub interface_diagnostics : List Diagnostic → List Diagnostic
interface_diagnostics [] = []
interface_diagnostics (d ∷ ds) =
    let rest = interface_diagnostics ds in
    if contains_text (to_lower d.code) (codes "interface") then d ∷ rest else rest

-- `interfaceSummary`
unfoldable pub interface_summary : Report → InterfaceSummary
interface_summary t = record {
  declared = t.interface;
  facts = sort_by fact_lt (interface_facts t.facts);
  diagnostics =
      sort_by (λ a b. text_lt (diagnostic_key a) (diagnostic_key b))
        (interface_diagnostics t.diagnostics);
}
