-- ===== src/Indexer/Api.antt =====
-- The symbols and edges of the generated API documentation, `parseGeneratedAPI` and
-- `generatedAPISignature` of internal/indexer/parse.go.
use wowdoc.Base.{
  ℕ, suc, ◌+◌, ◌-◌, Bool, true, false, ◌||◌, Option, none, some, List, [], ◌∷◌, ◌++◌, map,
}
use wowdoc.Base.{Text, codes, ◌==◌, text_eq, leb, take, drop, if◌then◌else◌}
use wowdoc.Base.Dict.{Dict, lookup, insert}
use wowdoc.Strings.{has_prefix, to_lower, join}
use wowdoc.Branch.Types.{SymbolFact, EdgeFact}
use wowdoc.Indexer.Generated.{
  skip_blanks, assigned, line_value, field_value, field_nilable, opens, closes, find_lua_table_end,
  slice, literal_name,
}

-- `generatedParameter`
pub record Parameter : Type 0 where
  pub name : Text
  pub value_type : Text
  pub nilable : Bool

abbrev pub section_value : Text → Option Text → Option (Text × Bool)
section_value word none = none
section_value word (some s) =
    if has_prefix s (codes "nil")
    then some (word, true)
    else if has_prefix s (codes "{")
    then some (word, false)
    else none

abbrev pub first_of {ℓ} : {A : Type ℓ} → Option A → Option A → Option A
first_of none y = y
first_of (some a) y = some a

abbrev pub section_at : Text → Text → Option (Text × Bool)
section_at line word = section_value word (assigned word (skip_blanks line))

-- `^\s*(Arguments|Returns|Payload)\s*=\s*(nil|\{)`: the section, and whether it is nil.
unfoldable pub section_start : Text → Option (Text × Bool)
section_start line =
    first_of (section_at line (codes "Arguments"))
      (first_of (section_at line (codes "Returns")) (section_at line (codes "Payload")))

-- The sections read so far, the one that is open, and its braces.
pub record Sections : Type 0 where
  pub found : Dict Text (List Parameter)
  pub active : Text
  pub opened : ℕ
  pub closed : ℕ

abbrev pub parameters_of : Dict Text (List Parameter) → Text → List Parameter
parameters_of found word = elim (lookup word found) [ none ↦ [] | some values ↦ values ]

abbrev pub started : Sections → Text → Option (Text × Bool) → Sections
started s line none = s
started s line (some (word, true)) = record s { found = insert word [] s.found }
started s line (some (word, false)) = record s {
  active = word;
  opened = opens line;
  closed = closes line;
}

abbrev pub is_true : Option Bool → Bool
is_true none = false
is_true (some b) = b

abbrev pub with_field : Sections → Text → Option Text → Option Text → Sections
with_field s line (some name) (some value_type) =
    let field : Parameter = record {
      name = name;
      value_type = value_type;
      nilable = is_true (field_nilable line);
    } in
    record s { found = insert s.active (parameters_of s.found s.active ++ field ∷ []) s.found }
with_field s line _ _ = s

abbrev pub closed_by : Sections → Text → Sections
closed_by s line =
    let o = s.opened + opens line in
    let c = s.closed + closes line in
    record s { active = (if leb o c then [] else s.active); opened = o; closed = c }

-- A line of the loop over the documented table.
unfoldable pub section_line : Sections → Text → Sections
section_line s line =
    if s.active == []
    then started s line (section_start line)
    else closed_by
        (with_field s line (field_value (codes "Name") line) (field_value (codes "Type") line)) line

unfoldable pub section_lines : Sections → List Text → Sections
section_lines s [] = s
section_lines s (line ∷ lines) = section_lines (section_line s line) lines

abbrev pub parameter_text : Parameter → Text
parameter_text p =
    (if p.nilable then p.name ++ codes "?" else p.name) ++ (codes ": " ++ p.value_type)

abbrev pub format : List Parameter → Text
format values = join (codes ", ") (map parameter_text values)

abbrev pub returned : List Parameter → Text
returned [] = []
returned (p ∷ values) = codes " -> " ++ format (p ∷ values)

-- `generatedAPISignature`
unfoldable pub generated_api_signature : List Text → ℕ → ℕ → Text → Text → Text
generated_api_signature lines name_line end_line qualified kind =
    let s =
      section_lines (record { found = []; active = []; opened = 0; closed = 0 })
        (drop (name_line - 1) (take end_line lines)) in
    let of_section = parameters_of s.found in
    if kind == codes "function" || kind == codes "scriptobject"
    then qualified
      ++ (codes "("
          ++ (format (of_section (codes "Arguments"))
              ++ (codes ")" ++ returned (of_section (codes "Returns")))))
    else if kind == codes "event"
    then qualified ++ (codes "(" ++ (format (of_section (codes "Payload")) ++ codes ")"))
    else qualified

-- The variables of the loop of `parseGeneratedAPI`.
pub record Scan : Type 0 where
  pub name : Text
  pub namespace : Text
  pub name_line : ℕ
  pub symbols : List SymbolFact
  pub edges : List EdgeFact

abbrev pub api_symbol : Text → Text → Text → Text → ℕ → ℕ → Text → SymbolFact
api_symbol path name qualified kind line last signature = record {
  name = name;
  qualified = qualified;
  kind = kind;
  path = path;
  signature = signature;
  required_role = [];
  line = line;
  end_line = last;
}

abbrev pub contains_edge : Text → Text → Text → ℕ → List EdgeFact
contains_edge path namespace qualified line =
    if namespace == []
    then []
    else record {
      source = namespace;
      target = qualified;
      kind = codes "contains";
      confidence = codes "exact";
      path = path;
      required_role = [];
      line = line;
    }
      ∷ []

-- The name of an event's symbol and that of its signature; `none` is the panic of the slice.
unfoldable pub event_names : List Text → ℕ → ℕ → Text → Text → Text → Option (Text × Text)
event_names lines name_line end_line name qualified kind =
    if kind == codes "event"
    then elim (slice lines (name_line - 1) end_line) [
      | none ↦ none
      | some event ↦ elim (literal_name event) [
        | none ↦ some (name, qualified)
        | some literal ↦ some (literal, literal)
      ]
    ]
    else some (name, qualified)

abbrev pub documented_with : Text → List Text → Scan → Text → Text → ℕ → Text × Text → Scan
documented_with path lines s kind qualified last (indexed, signed) =
    let signature = generated_api_signature lines s.name_line last signed kind in
    let own = api_symbol path s.name qualified (codes "api-" ++ kind) s.name_line last signature in
    let event = api_symbol path indexed indexed (codes "api-event") s.name_line last signature in
    record s {
      name = [];
      symbols = s.symbols ++ own ∷ (if indexed == s.name then [] else event ∷ []);
      edges = s.edges ++ contains_edge path s.namespace qualified s.name_line;
    }

abbrev pub system_in : Text → List Text → Scan → Scan
system_in path lines s =
    let last = find_lua_table_end lines s.name_line in
    record s {
      name = [];
      namespace = s.name;
      symbols =
          s.symbols
          ++ api_symbol path s.name s.name (codes "api-system") s.name_line last s.name ∷ [];
    }

abbrev pub qualified_in : Scan → Text
qualified_in s = if s.namespace == [] then s.name else s.namespace ++ (b'.' ∷ s.name)

-- A line with a type.
unfoldable pub documented : Text → List Text → Scan → Text → Option Scan
documented path lines s kind =
    let last = find_lua_table_end lines s.name_line in
    if kind == codes "system"
    then some (system_in path lines s)
    else elim (event_names lines s.name_line last s.name (qualified_in s) kind) [
      | none ↦ none
      | some names ↦ some (documented_with path lines s kind (qualified_in s) last names)
    ]

-- A line of the loop, at index `i`, by what the patterns of a namespace, a name and a type find.
unfoldable pub scan_values :
    Text → List Text → ℕ → Scan → Option Text → Option Text → Option Text → Option Scan
scan_values path lines i s (some namespace) _ _ = some (record s { namespace = namespace })
scan_values path lines i s none (some name) _ = some (record s { name = name; name_line = suc i })
scan_values path lines i s none none none = some s
scan_values path lines i s none none (some kind) =
    if s.name == [] then some s else documented path lines s (to_lower kind)

unfoldable pub scan_line : Text → List Text → ℕ → Text → Scan → Option Scan
scan_line path lines i line s =
    scan_values path lines i s (line_value (codes "Namespace") line)
      (line_value (codes "Name") line) (line_value (codes "Type") line)

unfoldable pub scan_lines : Text → List Text → ℕ → List Text → Scan → Option Scan
scan_lines path lines i [] s = some s
scan_lines path lines i (line ∷ rest) s = elim (scan_line path lines i line s) [
  | none ↦ none
  | some t ↦ scan_lines path lines (suc i) rest t
]

-- `parseGeneratedAPI`; `none` is a panic.
unfoldable pub parse_generated_api : Text → List Text → Option (List SymbolFact × List EdgeFact)
parse_generated_api path lines =
    elim (scan_lines path lines 0 lines
      (record { name = []; namespace = []; name_line = 0; symbols = []; edges = [] })) [
        | none ↦ none
        | some s ↦ some (s.symbols, s.edges)
      ]
