-- ===== src/Indexer/Source.antt =====
-- The facts of a Lua file, `parseLua` of internal/indexer/parse.go. The parser is an argument of
-- the definitions; a text is its runes.
use wowdoc.Base.{ℕ, suc, Bool, false, not, ◌&&◌, ◌||◌, Option, none, some, List, [], ◌∷◌}
use wowdoc.Base.{◌++◌, map, Text, codes, ◌==◌, text_eq, eqb, if◌then◌else◌}
use wowdoc.Strings.{has_prefix, has_suffix, trim_prefix, lower_rune, split}
use wowdoc.ObjectStore.Read.{normalize_path}
use wowdoc.Branch.Types.{SymbolFact, EdgeFact, AssetRefFact}
use wowdoc.Indexer.Syntax.{Stmts}
use wowdoc.Indexer.Lua.{extract_lua_facts}
use wowdoc.Indexer.Generated.{is_quote}
use wowdoc.Indexer.Api.{parse_generated_api}

-- What `(?i)` takes for one letter.
abbrev fold_rune : ℕ → ℕ
fold_rune c = if eqb c 0x17f then b's' else if eqb c 0x212a then b'k' else lower_rune c

abbrev pub asset_endings : List Text
asset_endings = map codes (
    ".blp" ∷ ".tga" ∷ ".png" ∷ ".jpg" ∷ ".jpeg" ∷ ".dds" ∷ ".ttf" ∷ ".otf" ∷ ".mp3" ∷ ".ogg"
    ∷ ".wav" ∷ ".m2" ∷ ".wmo" ∷ [])

unfoldable pub has_ending : Text → List Text → Bool
has_ending value [] = false
has_ending value (ending ∷ endings) =
    has_suffix value ending && not (value == ending) || has_ending value endings

abbrev is_asset_name : Text → Bool
is_asset_name value = has_ending (map fold_rune value) asset_endings

-- The text since the last quote that may open a name, after one more rune.
abbrev pub next_open : Option Text → ℕ → Option Text
next_open none c = if is_quote c then some [] else none
next_open (some value) c =
    if is_quote c then (if is_asset_name value then none else some []) else some (value ++ c ∷ [])

abbrev pub closed_name : Option Text → ℕ → List Text
closed_name none c = []
closed_name (some value) c = if is_quote c && is_asset_name value then value ∷ [] else []

-- The quoted names of assets in a line, the matches of `assetRE`.
unfoldable pub asset_names : Option Text → Text → List Text
asset_names opened [] = []
asset_names opened (c ∷ s) = closed_name opened c ++ asset_names (next_open opened c) s

abbrev asset_ref : Text → ℕ → Text → AssetRefFact
asset_ref path line value = record {
  source_path = path;
  value = value;
  normalized_value = normalize_path value;
  kind = codes "lua-resource";
  required_role = [];
  line = line;
}

unfoldable pub asset_refs : Text → ℕ → List Text → List AssetRefFact
asset_refs path line [] = []
asset_refs path line (text ∷ texts) =
    map (asset_ref path line) (asset_names none text) ++ asset_refs path (suc line) texts

-- Spaces for the runes before the first line feed; `none` is a text without one.
unfoldable pub blank_line : Text → Option Text
blank_line [] = none
blank_line (c ∷ s) =
    if eqb c b'\n'
    then some (c ∷ s)
    else elim (blank_line s) [ none ↦ none | some rest ↦ some (b' ' ∷ rest) ]

abbrev unless_none : Text → Option Text → Text
unless_none text none = text
unless_none text (some s) = s

-- The text without a byte order mark, and with a blank line for one that begins with `#!`.
unfoldable pub clean : Text → Text
clean content =
    let text = trim_prefix content (0xfeff ∷ []) in
    if has_prefix text (codes "#!") then unless_none text (blank_line text) else text

abbrev official_symbol : SymbolFact → SymbolFact
official_symbol s = record s { required_role = codes "official-generated-api" }

abbrev official_edge : EdgeFact → EdgeFact
official_edge e = record e { required_role = codes "official-generated-api" }

pub record LuaFacts : Type 0 where
  pub symbols : List SymbolFact
  pub edges : List EdgeFact
  pub refs : List AssetRefFact

-- What a call of `parseLua` comes to: an error of the parser, a panic, or facts.
pub data Parsed : Type 0 where
  refused : Text → Parsed
  panics : Parsed
  facts : LuaFacts → Parsed

pub data Tree : Type 0 where
  syntax_error : Text → Tree
  parsed : Stmts → Tree

abbrev with_api :
    List SymbolFact × List EdgeFact
    → List AssetRefFact
    → Option (List SymbolFact × List EdgeFact)
    → Parsed
with_api (symbols, edges) refs none = panics
with_api (symbols, edges) refs (some (api_symbols, api_edges)) = facts (record {
  symbols = symbols ++ map official_symbol api_symbols;
  edges = edges ++ map official_edge api_edges;
  refs = refs;
})

abbrev facts_of : Text → List Text → Tree → Parsed
facts_of path lines (syntax_error message) = refused message
facts_of path lines (parsed tree) =
    with_api (extract_lua_facts tree path lines) (asset_refs path 1 lines)
      (parse_generated_api path lines)

-- `parseLua`
unfoldable pub parse_lua : (Text → Tree) → Text → Text → Parsed
parse_lua parse path content = facts_of path (split b'\n' (clean content)) (parse (clean content))
