-- ===== src/Validator/Validate/Invalid.antt =====
-- When a report of internal/validator/validate.go is not valid.
use wowdoc.Base.{
  ◌≡◌, refl, sym, ap, ◌∙◌, arith, true, false, ◌||◌, ◌⊎◌, inl, inr, List, [], ◌∷◌, ◌++◌, Text,
  codes, Any,
}
use wowdoc.Base.{text_eq, Result, ok, err, ◌>>=◌}
use wowdoc.Base.Dict.{Dict}
use wowdoc.Strings.{trim_prefix}
use wowdoc.Validator.Types.{Closure, LoadFile, Diagnostic, Report}
use wowdoc.Validator.Analyze.Syntax.{ParseError}
use wowdoc.Validator.Analyze.{
  Analysis, analyze, analyze_files, analyze_file, analyze_lua, join_analyses, content_at, Parsers,
}
use wowdoc.Validator.Validate.{Options, Evidenced, has_errors, report, validate, looked_up}

-- A Lua file of the closure that the parser refuses.
abbrev pub IsUnparsable : Parsers → Dict Text Text → LoadFile → Type 0
IsUnparsable p contents f =
    (f.file_type ≡ codes "lua")
    × (e : ParseError) × (p.parse_lua f.path
          (trim_prefix (content_at f.path contents) (0xfeff ∷ []))
        ≡ err e)

has_errors-append :
    (xs ys : List Diagnostic) → has_errors (xs ++ ys) ≡ (has_errors xs || has_errors ys)
unfolding has_errors
has_errors-append [] ys = refl
has_errors-append (d ∷ xs) ys = ground (arith, has_errors-append xs ys)

analyze_file-unparsable :
    (p : Parsers) (contents : Dict Text Text) (f : LoadFile)
    → IsUnparsable p contents f
    → has_errors (analyze_file p f (content_at f.path contents)).diagnostics ≡ true
unfolding analyze_file analyze_lua has_errors text_eq
analyze_file-unparsable p contents f h = rw (h.0, h.2) refl

analyze_files-unparsable :
    (p : Parsers) (contents : Dict Text Text) (fs : List LoadFile)
    → Any (IsUnparsable p contents) fs
    → has_errors (analyze_files p contents fs).diagnostics ≡ true
unfolding analyze_files join_analyses
analyze_files-unparsable p contents [] h = absurd h
analyze_files-unparsable p contents (f ∷ fs) (inl h) =
    has_errors-append (analyze_file p f (content_at f.path contents)).diagnostics
      (analyze_files p contents fs).diagnostics
    ∙ ground (arith, analyze_file-unparsable p contents f h)
analyze_files-unparsable p contents (f ∷ fs) (inr h) =
    has_errors-append (analyze_file p f (content_at f.path contents)).diagnostics
      (analyze_files p contents fs).diagnostics
    ∙ ground (arith, analyze_files-unparsable p contents fs h)

report-invalid :
    (o : Options) (c : Closure) (a : Analysis) (e : Evidenced)
    → (has_errors c.diagnostics || has_errors a.diagnostics) ≡ true
    → (report o c a e).valid ≡ false
unfolding report
report-invalid o c a e h = ground (
  arith,
  has_errors-append (c.diagnostics ++ a.diagnostics) e.diagnostics,
  has_errors-append c.diagnostics a.diagnostics,
)

bind_ok :
    {E A B : Type 0} (m : Result E A) (f : A → B) (b : B)
    → (m >>= λ a. ok (f a)) ≡ ok b
    → (a : A) × (f a ≡ b)
bind_ok (ok a) f b h = (a, cc)
bind_ok (err e) f b h = absurd (cc)

-- A report is not valid where the closure has an error diagnostic.
closure_error :
    (p : Parsers) (o : Options) (c : Closure) (r : Report)
    → validate p o c ≡ ok r
    → (has_errors c.diagnostics || has_errors (analyze p c).diagnostics) ≡ true
    → r.valid ≡ false
unfolding validate
closure_error p o c r h bad =
    let found =
      bind_ok (looked_up o.evidence (analyze p c).usages c.interface)
        (λ e. report o c (analyze p c) e) r h in
    sym_valid found
  where
    sym_valid : (e : Evidenced) × (report o c (analyze p c) e ≡ r) → r.valid ≡ false
    sym_valid (e, same) =
        ap (λ (q : Report). q.valid) (sym same) ∙ report-invalid o c (analyze p c) e bad

-- A report that `Validate` gives is not valid where the closure has an error diagnostic, or where
-- the parser refuses a Lua file of the closure, whatever the evidence says.
pub validate-invalid :
    (p : Parsers) (o : Options) (c : Closure) (r : Report)
    → validate p o c ≡ ok r
    → (has_errors c.diagnostics ≡ true) ⊎ Any (IsUnparsable p c.contents) c.files
    → r.valid ≡ false
unfolding analyze
validate-invalid p o c r h (inl bad) = closure_error p o c r h (ground arith)
validate-invalid p o c r h (inr bad) =
    closure_error p o c r h (ground (arith, analyze_files-unparsable p c.contents c.files bad))
