-- ===== src/Validator/Closure/Load.antt =====
-- Loading a reference and what it includes: `load`, `parseXML` and the diagnostics of
-- internal/validator/closure.go.
use wowdoc.Base.{
  ℕ, zero, suc, ◌+◌, false, not, ◌&&◌, ◌||◌, Option, none, some, List, [], ◌∷◌, ◌++◌, Text, codes,
}
use wowdoc.Base.{◌==◌, text_eq, contains, eqb, take, length, if◌then◌else◌, Result, ok, err}
use wowdoc.Base.Dict
use wowdoc.Base.Dict.{Dict}
use wowdoc.Strings.{trim_space, trim_prefix, to_lower, equal_fold}
use wowdoc.Validator.Types.{LoadSource, LoadFile, Evidence, text, load_source}
use wowdoc.Validator.Paths.{ext}
use wowdoc.Validator.Closure.Disk.{
  Disk, OsError, Token, start_element, other, failed, ResolveError, ResolvedPath,
}
use wowdoc.Validator.Closure.Resolve.{Roots, resolve}
use wowdoc.Validator.Closure.Builder.{Builder, add_diagnostic, add_resolve_diagnostic, read_code}

abbrev escaped : Text → Text
escaped [] = []
escaped (c ∷ s) = if eqb c b'"' || eqb c b'\\' then b'\\' ∷ c ∷ escaped s else c ∷ escaped s

-- fmt's `%q`, for a text of printable characters.
abbrev quoted : Text → Text
quoted s = b'"' ∷ (escaped s ++ codes "\"")

unfoldable pub add_loader : ℕ → LoadSource → List LoadFile → List LoadFile
add_loader i source [] = []
add_loader zero source (f ∷ fs) = record f { loaded_by = f.loaded_by ++ source ∷ [] } ∷ fs
add_loader (suc i) source (f ∷ fs) = f ∷ add_loader i source fs

abbrev first_loader : List LoadSource → Evidence
first_loader [] = []
first_loader (s ∷ rest) = (codes "firstLoadedBy", load_source s) ∷ []

unfoldable pub first_loaded_by : ℕ → List LoadFile → Evidence
first_loaded_by i [] = []
first_loaded_by zero (f ∷ fs) = first_loader f.loaded_by
first_loaded_by (suc i) (f ∷ fs) = first_loaded_by i fs

-- A reference to a file that was loaded before: a cycle where it is still being parsed.
unfoldable pub reload : Text → LoadSource → ResolvedPath → ℕ → Builder → Builder
reload reference source found i b =
    let b1 = record b {
      closure = record b.closure { files = add_loader i source b.closure.files };
    } in
    if contains b.active (to_lower found.rel)
    then add_diagnostic (codes "warning") (codes "circular_load_reference") source.file source.line
        0 (codes "load cycle references " ++ found.rel)
        ((codes "reference", text reference) ∷ (codes "target", text found.rel) ∷ []) b1
    else add_diagnostic (codes "warning") (codes "duplicate_load_reference") source.file source.line
        0 (codes "duplicate load reference to " ++ found.rel)
        ((codes "reference", text reference)
          ∷ (codes "target", text found.rel)
          ∷ first_loaded_by i b1.closure.files)
        b1

-- A file that is read for the first time enters the closure.
unfoldable pub enter : Text → Text → LoadSource → ResolvedPath → Text → Builder → Builder
enter key file_type source found content b = record {
  closure = record b.closure {
    files =
        b.closure.files
        ++ record {
          path = found.rel;
          file_type = file_type;
          loaded_by = source ∷ [];
          load_order = length b.closure.files;
        }
          ∷ [];
    contents = Dict.insert found.rel content b.closure.contents;
  };
  files = Dict.insert key (length b.closure.files) b.files;
  active = b.active;
}

unfoldable pub activate : Text → Builder → Builder
activate key b = record b { active = key ∷ b.active }

unfoldable pub remove_key : Text → List Text → List Text
remove_key key [] = []
remove_key key (k ∷ ks) = let rest = remove_key key ks in if key == k then rest else k ∷ rest

unfoldable pub deactivate : Text → Builder → Builder
deactivate key b = record b { active = remove_key key b.active }

abbrev count_newlines : Text → ℕ
count_newlines [] = 0
count_newlines (c ∷ s) = if eqb c 10 then suc (count_newlines s) else count_newlines s

-- The number of the characters after the last newline, given those read so far.
abbrev column_of : ℕ → Text → ℕ
column_of n [] = n
column_of n (c ∷ s) = column_of (if eqb c 10 then 0 else n + 1) s

-- `bytePosition`, with offsets in characters.
unfoldable pub position : Text → ℕ → ℕ × ℕ
position content offset =
    (count_newlines (take offset content) + 1, column_of 0 (take offset content) + 1)

-- The `file` attribute of a `Script` or `Include` element.
unfoldable pub file_attribute : List (Text × Text) → Text
file_attribute [] = []
file_attribute ((name, value) ∷ attributes) =
    if equal_fold name (codes "file") then trim_space value else file_attribute attributes

abbrev syntax_line : Option ℕ → ℕ → ℕ
syntax_line none line = line
syntax_line (some own) line = own

abbrev then_parse : (Builder → Option Builder) → Option Builder → Option Builder
then_parse f none = none
then_parse f (some b) = f b

-- `parseXML`, with `load` as its argument.
unfoldable pub parse_tokens :
    (Text → LoadSource → Builder → Option Builder)
    → Text
    → Text
    → List Token
    → Builder
    → Option Builder
unfolding position file_attribute
parse_tokens load file content [] b = some b
parse_tokens load file content (other ∷ tokens) b = parse_tokens load file content tokens b
parse_tokens load file content (failed offset own message ∷ tokens) b = some (
    add_diagnostic (codes "error") (codes "xml_parse_failed") file
      (syntax_line own (position content offset).0) (position content offset).1
      (codes "cannot parse XML: " ++ message) ((codes "error", text message) ∷ []) b)
parse_tokens load file content (start_element offset name attributes ∷ tokens) b =
    if not (equal_fold name (codes "Script") || equal_fold name (codes "Include"))
      || file_attribute attributes == []
    then parse_tokens load file content tokens b
    else then_parse (parse_tokens load file content tokens) (
        load (file_attribute attributes)
          (record { file = file; line = (position content offset).0; kind = to_lower name }) b)

abbrev then_deactivate : Text → Option Builder → Option Builder
then_deactivate key none = none
then_deactivate key (some b) = some (deactivate key b)

-- What `load` does with a file that it reads for the first time.
unfoldable pub load_content :
    (Text → LoadSource → Builder → Option Builder)
    → Disk
    → Text
    → LoadSource
    → Text
    → Text
    → ResolvedPath
    → Result OsError Text
    → Builder
    → Option Builder
load_content load d reference source key file_type found (err e) b = some (
    add_diagnostic (codes "error") (read_code e) source.file source.line 0
      (codes "cannot read referenced file " ++ found.rel)
      ((codes "reference", text reference)
        ∷ (codes "target", text found.rel)
        ∷ (codes "error", text e.text)
        ∷ [])
      b)
load_content load d reference source key file_type found (ok content) b =
    if not (file_type == codes "xml")
    then some (enter key file_type source found content b)
    else then_deactivate key (
        parse_tokens load found.rel content (d.tokens content)
          (activate key (enter key file_type source found content b)))

abbrev pub load_new :
    (Text → LoadSource → Builder → Option Builder)
    → Disk
    → Text
    → LoadSource
    → Text
    → Text
    → ResolvedPath
    → Option ℕ
    → Builder
    → Option Builder
load_new load d reference source key file_type found (some i) b =
    some (reload reference source found i b)
load_new load d reference source key file_type found none b =
    load_content load d reference source key file_type found (d.read_file found.disk) b

unfoldable pub load_resolved :
    (Text → LoadSource → Builder → Option Builder)
    → Disk
    → Text
    → LoadSource
    → Result ResolveError ResolvedPath
    → Builder
    → Option Builder
load_resolved load d reference source (err e) b = some (add_resolve_diagnostic source reference e b)
load_resolved load d reference source (ok found) b =
    let extension = ext found.rel in
    let file_type = trim_prefix (to_lower extension) (codes ".") in
    let key = to_lower found.rel in
    if not (file_type == codes "lua") && not (file_type == codes "xml")
    then some (
        add_diagnostic (codes "error") (codes "unsupported_load_type") source.file source.line 0
          (codes "unsupported AddOn load file type " ++ quoted extension)
          ((codes "reference", text reference) ∷ (codes "resolved", text found.rel) ∷ []) b)
    else load_new load d reference source key file_type found (Dict.lookup key b.files) b

-- `load`. The fuel bounds how deep files include one another; `none` is running out of it.
unfoldable pub load : Disk → Roots → ℕ → Text → LoadSource → Builder → Option Builder
load d r zero reference source b = none
load d r (suc fuel) reference source b =
    load_resolved (load d r fuel) d reference source (resolve d r source.file reference false) b
