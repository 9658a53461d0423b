-- ===== src/Validator/Closure/Builder.antt =====
-- The state of the closure builder and its diagnostics, internal/validator/closure.go.
use wowdoc.Base.{ℕ, Option, none, some, List, [], ◌∷◌, ◌++◌, Text, codes}
use wowdoc.Base.{text_eq, if◌then◌else◌}
use wowdoc.Base.Dict.{Dict}
use wowdoc.Validator.Types.{LoadSource, Evidence, text, Closure}
use wowdoc.Validator.Paths.{display_path}
use wowdoc.Validator.Closure.Disk.{OsError, ResolveKind, escape, missing, unreadable, ResolveError}

-- `closureBuilder`, less its roots. `active` holds the keys that are true.
pub record Builder : Type 0 where
  pub closure : Closure
  pub files : Dict Text ℕ
  pub active : List Text

-- `diagnostic`
unfoldable pub add_diagnostic : Text → Text → Text → ℕ → ℕ → Text → Evidence → Builder → Builder
add_diagnostic severity code file line column message evidence b = record b {
  closure = record b.closure {
    diagnostics =
        b.closure.diagnostics
        ++ record {
          severity = severity;
          code = code;
          file = display_path file;
          line = line;
          column = column;
          message = message;
          evidence = evidence;
        }
          ∷ [];
  };
}

abbrev resolve_code : ResolveKind → Text
resolve_code escape = codes "load_path_escape"
resolve_code missing = codes "load_file_missing"
resolve_code unreadable = codes "load_file_unreadable"

abbrev resolve_message : ResolveKind → Text
resolve_message escape = codes "load path escapes the AddOn root"
resolve_message missing = codes "referenced file does not exist"
resolve_message unreadable = codes "cannot resolve referenced file"

abbrev cause_evidence : Option OsError → Evidence
cause_evidence none = []
cause_evidence (some e) = (codes "error", text e.text) ∷ []

-- `addResolveDiagnostic`
unfoldable pub add_resolve_diagnostic : LoadSource → Text → ResolveError → Builder → Builder
add_resolve_diagnostic source reference e =
    add_diagnostic (codes "error") (resolve_code e.kind) source.file source.line 0
      (resolve_message e.kind)
      ((codes "reference", text reference)
        ∷ (codes "resolved", text e.path)
        ∷ cause_evidence e.cause)

-- The code of an error of `os.ReadFile`.
abbrev pub read_code : OsError → Text
read_code e = if e.is_missing then codes "load_file_missing" else codes "load_file_unreadable"
