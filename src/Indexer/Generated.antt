-- ===== src/Indexer/Generated.antt =====
-- The generated API documentation in a Lua file, `parseGeneratedAPI` of internal/indexer/parse.go.
-- The patterns of its lines are read by hand.
use wowdoc.Base.{
  ℕ, zero, suc, ◌+◌, ◌-◌, Bool, true, false, ◌&&◌, ◌||◌, Option, none, some, List, [], ◌∷◌, ◌++◌,
}
use wowdoc.Base.{Text, codes, ◌==◌, text_eq, eqb, leb, length, take, drop, get_elem?}
use wowdoc.Base.{if◌then◌else◌}
use wowdoc.Strings.{has_prefix, contains_text}

-- `\s` of a regular expression.
abbrev is_blank : ℕ → Bool
is_blank c = eqb c 9 || eqb c 10 || eqb c 12 || eqb c 13 || eqb c 32

unfoldable pub skip_blanks : Text → Text
skip_blanks [] = []
skip_blanks (c ∷ s) = let rest = skip_blanks s in if is_blank c then rest else c ∷ s

abbrev pub is_quote : ℕ → Bool
is_quote c = eqb c b'"' || eqb c b'\''

-- `([^"']+)["']`, with the runes of the group read so far.
unfoldable pub quoted_rest : Text → Text → Option Text
quoted_rest value [] = none
quoted_rest value (c ∷ s) =
    let more = quoted_rest (value ++ c ∷ []) s in
    if is_quote c then (if value == [] then none else some value) else more

abbrev pub quoted : Text → Option Text
quoted [] = none
quoted (c ∷ s) = if is_quote c then quoted_rest [] s else none

abbrev pub after_equals : Text → Option Text
after_equals [] = none
after_equals (c ∷ s) = if eqb c b'=' then some (skip_blanks s) else none

-- `WORD\s*=\s*` at the start, and what follows it.
unfoldable pub assigned : Text → Text → Option Text
assigned word line =
    if has_prefix line word then after_equals (skip_blanks (drop (length word) line)) else none

abbrev pub quoted_of : Option Text → Option Text
quoted_of none = none
quoted_of (some s) = quoted s

-- `^\s*WORD\s*=\s*["']([^"']+)["']`
unfoldable pub line_value : Text → Text → Option Text
line_value word line = quoted_of (assigned word (skip_blanks line))

abbrev is_word_rune : ℕ → Bool
is_word_rune c =
    leb b'a' c && leb c b'z' || leb b'A' c && leb c b'Z' || leb b'0' c && leb c b'9' || eqb c b'_'

-- The first of the places after a word boundary where a pattern matches.
unfoldable pub search_word {ℓ} : {A : Type ℓ} → (Text → Option A) → Bool → Text → Option A
search_word match_at in_word [] = none
search_word match_at in_word (c ∷ s) =
    let later = search_word match_at (is_word_rune c) s in
    if in_word then later else elim (match_at (c ∷ s)) [ none ↦ later | some a ↦ some a ]

-- `\bWORD\s*=\s*["']([^"']+)["']`
unfoldable pub field_value : Text → Text → Option Text
field_value word line = search_word (λ s. quoted_of (assigned word s)) false line

abbrev pub boolean : Option Text → Option Bool
boolean none = none
boolean (some s) =
    if has_prefix s (codes "true")
    then some true
    else if has_prefix s (codes "false")
    then some false
    else none

-- `\bNilable\s*=\s*(true|false)`
unfoldable pub field_nilable : Text → Option Bool
field_nilable line = search_word (λ s. boolean (assigned (codes "Nilable") s)) false line

-- strings.Count with one rune.
unfoldable pub count_rune : ℕ → Text → ℕ
count_rune r [] = 0
count_rune r (c ∷ s) = (if eqb c r then 1 else 0) + count_rune r s

abbrev pub opens : Text → ℕ
opens = count_rune b'{'

abbrev pub closes : Text → ℕ
closes = count_rune b'}'

abbrev pub line_at : List Text → ℕ → Text
line_at lines i = elim (get_elem? lines i) [ none ↦ [] | some line ↦ line ]

-- The first loop of `findLuaTableEnd`: the last line up to `start` with an opening brace, or the
-- first line.
unfoldable pub table_start : List Text → ℕ → ℕ
table_start lines zero = zero
table_start lines (suc start) =
    let above = table_start lines start in
    if contains_text (line_at lines (suc start)) (codes "{") then suc start else above

-- The second loop, at line `i` of those that are left; `opened` and `closed` are the braces so far.
unfoldable pub table_end : List Text → ℕ → ℕ → ℕ → Bool → Option ℕ
table_end [] i opened closed seen = none
table_end (line ∷ lines) i opened closed seen =
    let o = opened + opens line in
    let c = closed + closes line in
    let seen' = contains_text line (codes "{") || seen in
    let later = table_end lines (i + 1) o c seen' in
    if seen' && leb o c then some (i + 1) else later

-- `findLuaTableEnd`
unfoldable pub find_lua_table_end : List Text → ℕ → ℕ
find_lua_table_end lines name_line =
    let start = table_start lines (name_line - 1) in
    elim (table_end (drop start lines) start 0 0 false) [ none ↦ name_line | some line ↦ line ]

-- `lines[from:to]`; `none` is the panic of bounds that are out of range.
abbrev pub slice : List Text → ℕ → ℕ → Option (List Text)
slice lines from to =
    if leb from to && leb to (length lines) then some (drop from (take to lines)) else none

-- The loop over the lines of an event for its literal name.
unfoldable pub literal_name : List Text → Option Text
literal_name [] = none
literal_name (line ∷ lines) = elim (line_value (codes "LiteralName") line) [
  | some name ↦ some name
  | none ↦ literal_name lines
]
