-- ===== src/Validator/Analyze.antt =====
-- The static analysis of a load closure, internal/validator/analyze.go.
pub mod Syntax
pub mod Lua
pub mod Accounted
pub mod Deduped
use wowdoc.Base.{
  ℕ, ◌+◌, Bool, true, false, not, ◌&&◌, ◌||◌, Option, none, some, List, [], ◌∷◌, ◌++◌, Text, codes,
}
use wowdoc.Base.{Eq, ◌==◌, text_eq, contains, eqb, take, if◌then◌else◌, Result, ok, err}
use wowdoc.Base.Dict
use wowdoc.Base.Dict.{Dict}
use wowdoc.Strings.{to_lower, equal_fold, trim_prefix}
use wowdoc.Strings.Decimal.{decimal}
use wowdoc.Validator.Types.{Closure, LoadFile, Unresolved, Usage, Diagnostic, text}
use wowdoc.Validator.Closure.Disk.{Token, start_element, other, failed}
use wowdoc.Validator.Closure.Load.{position}
use Syntax.{Stmts, ParseError}
use Lua.{
  Finding, used, unknown, unresolved_at, usage_at, split_csv, walk_stmts, usages_of, unresolved_of,
}

-- The two parsers, which are not of this repository.
pub record Parsers : Type 0 where
  pub parse_lua : Text → Text → Result ParseError Stmts
  pub tokens : Text → List Token

-- What an analysis yields.
pub record Analysis : Type 0 where
  pub usages : List Usage
  pub unresolved : List Unresolved
  pub diagnostics : List Diagnostic

-- `parseErrorLine`: `Sscanf` knows neither `%*` nor a set of characters, so it scans nothing.
unfoldable pub parse_error_line : ParseError → ℕ
parse_error_line e = 0

abbrev of_lua_tree : Text → Result ParseError Stmts → Analysis
of_lua_tree path (err e) = record {
  usages = [];
  unresolved = [];
  diagnostics =
      record {
        severity = codes "error";
        code = codes "lua_parse_failed";
        file = path;
        line = parse_error_line e;
        column = 0;
        message = e.message;
        evidence = (codes "parser", text (codes "gopher-lua")) ∷ [];
      }
      ∷ [];
}
of_lua_tree path (ok tree) = record {
  usages = usages_of (walk_stmts path tree);
  unresolved = unresolved_of (walk_stmts path tree);
  diagnostics = [];
}

-- `analyzeLua`
unfoldable pub analyze_lua : Parsers → Text → Text → Analysis
unfolding parse_error_line usages_of unresolved_of
analyze_lua p path content = of_lua_tree path (p.parse_lua path (trim_prefix content (0xfeff ∷ [])))

abbrev pub structural_kinds : List Text
structural_kinds =
    codes "ui"
    ∷ codes "script"
    ∷ codes "include"
    ∷ codes "scripts"
    ∷ codes "layers"
    ∷ codes "frames"
    ∷ codes "anchors"
    ∷ codes "size"
    ∷ []

abbrev is_dynamic : Text → Bool
is_dynamic [] = false
is_dynamic (c ∷ s) = eqb c b'$' || eqb c b'%' || eqb c b'+' || is_dynamic s

unfoldable pub inherited : Text → ℕ → List Text → List Finding
inherited path line [] = []
inherited path line (name ∷ names) =
    (if is_dynamic name
      then unknown
          (unresolved_at (codes "template") name path line (codes "XML inheritance is dynamic"))
      else used (usage_at (codes "template") name path line))
    ∷ inherited path line names

unfoldable pub attribute_findings : Text → ℕ → List (Text × Text) → List Finding
attribute_findings path line [] = []
attribute_findings path line ((name, value) ∷ attributes) =
    (if equal_fold name (codes "inherits") then inherited path line (split_csv value) else [])
    ++ attribute_findings path line attributes

-- The loop of `analyzeXML`.
unfoldable pub token_findings : Text → Text → List Token → List Finding
token_findings path content [] = []
token_findings path content (failed offset own message ∷ tokens) = []
token_findings path content (other ∷ tokens) = token_findings path content tokens
token_findings path content (start_element offset name attributes ∷ tokens) =
    (if contains structural_kinds (to_lower name)
      then []
      else used (usage_at (codes "frame-type") name path (position content offset).0) ∷ [])
    ++ (attribute_findings path (position content offset).0 attributes
        ++ token_findings path content tokens)

-- `analyzeXML`
unfoldable pub analyze_xml : Parsers → Text → Text → Analysis
unfolding token_findings usages_of unresolved_of
analyze_xml p path content = record {
  usages = usages_of (token_findings path content (p.tokens content));
  unresolved = unresolved_of (token_findings path content (p.tokens content));
  diagnostics = [];
}

abbrev pub content_at : Text → Dict Text Text → Text
content_at path contents = elim (Dict.lookup path contents) [ none ↦ [] | some content ↦ content ]

-- The `switch` on the type of a file.
unfoldable pub analyze_file : Parsers → LoadFile → Text → Analysis
analyze_file p f content =
    if f.file_type == codes "lua"
    then analyze_lua p f.path content
    else if f.file_type == codes "xml"
    then analyze_xml p f.path content
    else record { usages = []; unresolved = []; diagnostics = [] }

unfoldable pub join_analyses : Analysis → Analysis → Analysis
join_analyses a b = record {
  usages = a.usages ++ b.usages;
  unresolved = a.unresolved ++ b.unresolved;
  diagnostics = a.diagnostics ++ b.diagnostics;
}

unfoldable pub analyze_files : Parsers → Dict Text Text → List LoadFile → Analysis
unfolding join_analyses
analyze_files p contents [] = record { usages = []; unresolved = []; diagnostics = [] }
analyze_files p contents (f ∷ files) =
    join_analyses (analyze_file p f (content_at f.path contents)) (analyze_files p contents files)

-- The key of a usage in `dedupeUsages`.
unfoldable pub usage_key : Usage → Text
usage_key u = u.kind ++ (0 ∷ (u.name ++ (0 ∷ (u.file ++ (0 ∷ decimal u.line)))))

-- The loop of `dedupeUsages`, with the keys that it has seen.
unfoldable pub dedupe_from : List Text → List Usage → List Usage
dedupe_from seen [] = []
dedupe_from seen (u ∷ us) =
    let without = dedupe_from seen us in
    let rest = dedupe_from (usage_key u ∷ seen) us in
    if contains seen (usage_key u) then without else u ∷ rest

-- `dedupeUsages`
unfoldable pub dedupe_usages : List Usage → List Usage
unfolding dedupe_from
dedupe_usages = dedupe_from []

-- `Analyze`
unfoldable pub analyze : Parsers → Closure → Analysis
analyze p c =
    let all = analyze_files p c.contents c.files in record all { usages = dedupe_usages all.usages }
