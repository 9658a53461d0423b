-- ===== src/Validator/Matrix.antt =====
-- Merging the reports of several targets, internal/validator/matrix.go.
pub mod Targets
pub mod Facts
pub mod Files
pub mod Diagnostics
pub mod Orders
use wowdoc.Base.{
  ℕ, Bool, true, false, not, ◌&&◌, ◌||◌, Option, none, some, List, [], ◌∷◌, ◌++◌, map, Text, codes,
}
use wowdoc.Base.{Eq, ◌==◌, text_eq, contains, ltb, eqb, if◌then◌else◌}
use wowdoc.Base.Dict
use wowdoc.Base.Dict.{Dict, keys}
use wowdoc.Base.Sort.{sort_by, text_lt}
use wowdoc.Strings.{to_lower, contains_text}
use wowdoc.Strings.Decimal.{padded}
use wowdoc.Validator.Types.{
  Diagnostic, Unresolved, LoadFile, Fact, Report, FactValue, fact_value_eq,
}
use wowdoc.Validator.Types.{
  FactDifference, FactSummary, InterfaceSummary, MatrixSummary, MatrixResult,
}
use Facts.{merge_facts}
use Files.{merge_files}
use Diagnostics.{merge_diagnostics}
use Orders.{sorted_unresolved, interface_summary}

unfoldable pub all_valid : List Report → Bool
all_valid [] = true
all_valid (t ∷ targets) = t.valid && all_valid targets

unfoldable pub by_id {ℓ} : {A : Type ℓ} → (Report → A) → List Report → Dict Text A → Dict Text A
by_id f [] out = out
by_id f (t ∷ targets) out = by_id f targets (Dict.insert t.id (f t) out)

-- `MergeMatrix`
unfoldable pub merge_matrix : Text → List Report → MatrixResult
merge_matrix path targets =
    let files = merge_files targets in
    let diagnostics = merge_diagnostics targets in
    record {
      path = path;
      valid = all_valid targets;
      targets = targets;
      summary = record {
        apis = merge_facts targets (codes "api" ∷ []);
        events = merge_facts targets (codes "event" ∷ []);
        xml = merge_facts targets (codes "template" ∷ codes "mixin" ∷ codes "frame-type" ∷ []);
        interfaces = by_id interface_summary targets [];
        shared_files = files.0;
        target_only_files = files.1;
        shared_diagnostics = diagnostics.0;
        target_only_diagnostics = diagnostics.1;
        unresolved = by_id (λ t. sorted_unresolved t.unresolved) targets [];
      };
    }
