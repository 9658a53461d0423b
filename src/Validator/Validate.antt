-- ===== src/Validator/Validate.antt =====
-- The report of one AddOn: `Validate` of internal/validator/validate.go.
pub mod Invalid
use wowdoc.Base.{
  ℕ, zero, suc, ◌+◌, Bool, true, false, not, ◌&&◌, ◌||◌, Option, none, some, List, [], ◌∷◌, ◌++◌,
  Text, codes,
}
use wowdoc.Base.{Eq, ◌==◌, text_eq, length, if◌then◌else◌, Result, ok, err, ◌>>=◌}
use wowdoc.Validator.Types.{
  Closure, LoadFile, Unresolved, Usage, Diagnostic, Fact, Coverage, Report,
}
use wowdoc.Validator.Paths.{clean}
use wowdoc.Validator.Closure.Disk.{Disk}
use wowdoc.Validator.Closure.Builder.{Builder}
use wowdoc.Validator.Closure.Toc.{ClosureError, build_closure}
use wowdoc.Validator.Analyze.{Analysis, analyze, Parsers}

-- What the lookup of the evidence yields.
pub record Evidenced : Type 0 where
  pub facts : List Fact
  pub unresolved : List Unresolved
  pub diagnostics : List Diagnostic

-- `Options`. The lookup, which asks the index, is a function of the usages and the interface.
pub record Options : Type 0 where
  pub path : Text
  pub toc : Text
  pub id : Text
  pub source_id : Text
  pub product : Text
  pub requested_ref : Text
  pub matched_tag : Text
  pub resolved_commit : Text
  pub evidence : Option (List Usage → Text → Result Text Evidenced)

-- `hasErrors`
unfoldable pub has_errors : List Diagnostic → Bool
has_errors [] = false
has_errors (d ∷ ds) = d.severity == codes "error" || has_errors ds

unfoldable pub count_type : Text → List LoadFile → ℕ
count_type t [] = 0
count_type t (f ∷ fs) = let rest = count_type t fs in if f.file_type == t then suc rest else rest

abbrev looked_up :
    Option (List Usage → Text → Result Text Evidenced) → List Usage → Text → Result Text Evidenced
looked_up none usages interface = ok (record { facts = []; unresolved = []; diagnostics = [] })
looked_up (some lookup) usages interface = lookup usages interface

abbrev has_lookup : Option (List Usage → Text → Result Text Evidenced) → Bool
has_lookup none = false
has_lookup (some lookup) = true

-- The report of `Validate` from its parts.
unfoldable pub report : Options → Closure → Analysis → Evidenced → Report
unfolding has_errors count_type
report o c a e =
    let diagnostics = (c.diagnostics ++ a.diagnostics) ++ e.diagnostics in
    let unresolved = a.unresolved ++ e.unresolved in
    record {
      id = o.id;
      valid = not (has_errors diagnostics);
      path = clean o.path;
      source_id = o.source_id;
      product = o.product;
      ref = o.requested_ref;
      requested_ref = o.requested_ref;
      matched_tag = o.matched_tag;
      resolved_commit = o.resolved_commit;
      toc = c.toc;
      interface = c.interface;
      checked_lua = count_type (codes "lua") c.files;
      checked_xml = count_type (codes "xml") c.files;
      load_closure = c.files;
      diagnostics = diagnostics;
      unresolved = unresolved;
      coverage = record {
        checked =
            length a.usages + (if not (c.interface == []) && has_lookup o.evidence then 1 else 0);
        resolved = length e.facts;
        unresolved = length unresolved;
      };
      facts = e.facts;
    }

-- `Validate`, once the closure is built.
unfoldable pub validate : Parsers → Options → Closure → Result Text Report
validate p o c =
    let a = analyze p c in looked_up o.evidence a.usages c.interface >>= λ e. ok (report o c a e)

-- An error that `Validate` returns.
pub data ValidateError : Type 0 where
  closure_failed : ClosureError → ValidateError
  lookup_failed : Text → ValidateError

abbrev looked_up_report : Result Text Report → Result ValidateError (Option Report)
looked_up_report (err e) = err (lookup_failed e)
looked_up_report (ok r) = ok (some r)

abbrev of_closure :
    Parsers → Options → Result ClosureError (Option Builder) → Result ValidateError (Option Report)
of_closure p o (err e) = err (closure_failed e)
of_closure p o (ok none) = ok none
of_closure p o (ok (some b)) = looked_up_report (validate p o b.closure)

-- `Validate`. `none` is running out of the fuel of the closure.
unfoldable pub validate_path : Disk → Parsers → ℕ → Options → Result ValidateError (Option Report)
validate_path d p fuel o = of_closure p o (build_closure d fuel o.path o.toc)
