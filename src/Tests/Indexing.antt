-- ===== src/Tests/Indexing.antt =====
-- Runs of the indexer's parsers on small files, and the properties at them.
use wowdoc.Base.{◌≡◌, refl, List, [], ◌∷◌, map}
use wowdoc.Base.{Text, codes, text_eq}
use wowdoc.Strings.{has_suffix, has_prefix, contains_text, trim_prefix, to_lower, split}
use wowdoc.Branch.Types.{EdgeFact}
use wowdoc.Indexer.Syntax.{
  absent, ident, string, call, function, no_exprs, expr, method, Stmt, func_def, assign, func_call,
  Stmts, no_stmts, stmt,
}
use wowdoc.Indexer.Lua.{edges_of, walk_stmts, extract_lua_facts}
use wowdoc.Strings.Decimal.{decimal}
use wowdoc.Indexer.Generated.{skip_blanks, quoted_rest, assigned, line_value, count_rune}
use wowdoc.Indexer.Source.{parsed, panics, blank_line, clean, parse_lua}
use wowdoc.Indexer.Panics.{parse_lua-panics}

abbrev path : Text
path = codes "Addon.lua"

abbrev content : Text
content = codes "local t = {}\nlocal x = 1\nName = \"A\"\nType = \"Event\"\nreturn t"

abbrev assigns : Text → Stmt
assigns name = assign 3 3 (expr (ident name) no_exprs) (expr (string name) no_exprs)

abbrev tree : Stmts
tree = stmt (assigns (codes "Name")) (stmt (assigns (codes "Type")) no_stmts)

parse_lua-panics_example : parse_lua (λ _. parsed tree) path content ≡ panics
unfolding has_prefix contains_text trim_prefix to_lower split skip_blanks quoted_rest assigned
    line_value count_rune blank_line clean text_eq
parse_lua-panics_example =
    parse_lua-panics path (codes "local t = {}") (codes "local x = 1") (codes "Name = \"A\"")
      (codes "Type = \"Event\"") (codes "A") (codes "Event") [] (codes "return t" ∷ []) refl refl
      refl refl (refl, refl) (refl, refl, refl) refl refl (λ _. parsed tree) content tree refl refl

-- function Addon:OnLoad() self:RegisterEvent("PLAYER_LOGIN"); Print() end
abbrev on_load : Stmts
on_load =
    stmt
      (func_call (
        call 2 absent (ident (codes "self")) (codes "RegisterEvent")
          (expr (string (codes "PLAYER_LOGIN")) no_exprs)))
      (stmt (func_call (call 3 (ident (codes "Print")) absent [] no_exprs)) no_stmts)

abbrev addon : Stmts
addon =
    stmt (func_def 1 4 (method (ident (codes "Addon")) (codes "OnLoad")) on_load)
      (stmt (func_call (call 5 (function 5 no_stmts) absent [] no_exprs)) no_stmts)

abbrev texts : List Text
texts =
    codes "function Addon:OnLoad()"
    ∷ codes "  self:RegisterEvent(\"PLAYER_LOGIN\")"
    ∷ codes "  Print()"
    ∷ codes "end"
    ∷ codes "(function() end)()"
    ∷ []

addon_edges :
    map {B = Text × Text}
      (λ (e : EdgeFact). (e.source, e.target))
      (extract_lua_facts addon path texts).1
    ≡ (codes "Addon:OnLoad", codes "self:RegisterEvent")
      ∷ (codes "Addon:OnLoad", codes "PLAYER_LOGIN")
      ∷ (codes "Addon:OnLoad", codes "Print")
      ∷ (codes "<top-level@{path}:5>", codes "<dynamic>")
      ∷ []
unfolding extract_lua_facts edges_of walk_stmts text_eq has_suffix decimal
addon_edges = refl
