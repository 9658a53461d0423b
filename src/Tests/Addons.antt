-- ===== src/Tests/Addons.antt =====
-- Concrete inputs for the theorems on the validation of AddOns.
use wowdoc.Base.{
  ◌≡◌, refl, false, none, [], ◌∷◌, Text, text_eq, codes, Any, inl, inr, contains, ok, err,
}
use wowdoc.Strings.{contains_text}
use wowdoc.Validator.Types.{Closure, Usage, Report}
use wowdoc.Validator.Analyze.Syntax.{
  ident, string, absent, call, expr, no_exprs, func_call, if_then, Stmts, stmt, no_stmts,
}
use wowdoc.Validator.Analyze.Lua.{walk_stmts, call_name, expression_name}
use wowdoc.Validator.Analyze.Accounted.{CallsBody, IsReportOf, walk-IsReportOf}
use wowdoc.Validator.Analyze.{Parsers, analyze, dedupe_usages}
use wowdoc.Validator.Analyze.Deduped.{keys_of, HasDistinctKeys, dedupe_usages-HasDistinctKeys}
use wowdoc.Validator.Validate.{Options, validate, report}
use wowdoc.Validator.Validate.Invalid.{IsUnparsable, validate-invalid}
use wowdoc.Tests.Matrices.{loaded}

-- Of the usages of a file, `print` stands twice on one line.
abbrev print_usage : Usage
print_usage = record {
  kind = codes "api-candidate";
  name = codes "print";
  expression = [];
  file = codes "a";
  line = 1;
  column = 0;
}

dedupe_usages-HasDistinctKeys_example :
    HasDistinctKeys (dedupe_usages (print_usage ∷ print_usage ∷ []))
    × ((k : Text)
        → contains (keys_of (dedupe_usages (print_usage ∷ print_usage ∷ []))) k
          ≡ contains (keys_of (print_usage ∷ print_usage ∷ [])) k)
dedupe_usages-HasDistinctKeys_example =
    dedupe_usages-HasDistinctKeys (print_usage ∷ print_usage ∷ [])

-- if f() then print("x") end
abbrev tree : Stmts
tree =
    stmt
      (if_then (call 1 (ident (codes "f")) absent [] no_exprs)
        (stmt
          (func_call
            (call 2 (ident (codes "print")) absent [] (expr (string (codes "x")) no_exprs)))
          no_stmts)
        no_stmts)
      no_stmts

plain : contains_text (codes "print") (codes ":") ≡ false
unfolding contains_text text_eq
plain = refl

calls_print : CallsBody 2 (codes "print") tree
unfolding CallsBody call_name expression_name text_eq
calls_print = inl (inr (inl (inl (inl (refl, refl)))))

walk-IsReportOf_example :
    Any (IsReportOf (codes "a") 2 (codes "print")) (walk_stmts (codes "a") tree)
walk-IsReportOf_example = walk-IsReportOf (codes "a") 2 (codes "print") tree plain calls_print

-- A parser that refuses everything.
abbrev refusing : Parsers
refusing = record {
  parse_lua = λ path content. err (record { message = codes "no" });
  tokens = λ content. [];
}

abbrev options : Options
options = record {
  path = codes "/r";
  toc = codes "a.toc";
  id = [];
  source_id = [];
  product = [];
  requested_ref = [];
  matched_tag = [];
  resolved_commit = [];
  evidence = none;
}

abbrev closure : Closure
closure = record {
  toc = codes "a.toc";
  interface = [];
  files = loaded (codes "a") ∷ [];
  diagnostics = [];
  contents = [];
}

abbrev refused : Report
refused =
    report options closure (analyze refusing closure)
      (record { facts = []; unresolved = []; diagnostics = [] })

validated : validate refusing options closure ≡ ok refused
unfolding validate
validated = refl

unparsable : Any (IsUnparsable refusing []) closure.files
unparsable = inl (refl, record { message = codes "no" }, refl)

validate-invalid_example : refused.valid ≡ false
validate-invalid_example =
    validate-invalid refusing options closure refused validated (inr unparsable)
