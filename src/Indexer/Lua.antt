-- ===== src/Indexer/Lua.antt =====
-- The facts of a Lua file, `extractLuaFacts` of internal/indexer/parse.go.
use wowdoc.Base.{ℕ, zero, suc, not, ◌&&◌, ◌||◌, Option, none, some, List, [], ◌∷◌, ◌++◌}
use wowdoc.Base.{Text, codes, ◌==◌, text_eq, get_elem?, if◌then◌else◌}
use wowdoc.Strings.{trim_space, has_suffix, replace_rune, split, last_of}
use wowdoc.Strings.Decimal.{decimal}
use wowdoc.Branch.Types.{SymbolFact, EdgeFact}
use wowdoc.Indexer.Syntax.{
  Expr, absent, ident, string, constant, attr_get, call, function, table, binary, unary, Exprs,
  no_exprs, expr, Fields, no_fields, field, FuncName, named, method,
}
use wowdoc.Indexer.Syntax.{
  Stmt, func_def, local_assign, assign, func_call, do_block, while_loop, repeat_loop, if_then,
  number_for, generic_for, return_values, other_stmt, Stmts, no_stmts, stmt,
}

-- What the walk appends, in the order in which it appends it.
pub data Found : Type 0 where
  symbol : SymbolFact → Found
  edge : EdgeFact → Found

abbrev dotted : Text → Text → Text
dotted base key = if not (base == []) && not (key == []) then base ++ (b'.' ∷ key) else []

-- `exprName`
unfoldable pub expr_name : Expr → Text
expr_name (ident name) = name
expr_name (string value) = value
expr_name (attr_get object key) = dotted (expr_name object) (expr_name key)
expr_name _ = []

-- `callName`
unfoldable pub call_name : Expr → Expr → Text → Text
unfolding expr_name
call_name func receiver called =
    if not (expr_name receiver == []) && not (called == [])
    then expr_name receiver ++ (b':' ∷ called)
    else expr_name func

-- `funcName`
unfoldable pub func_name : FuncName → Text
unfolding expr_name
func_name (named func) = expr_name func
func_name (method receiver called) =
    if called == [] then expr_name receiver else expr_name receiver ++ (b':' ∷ called)

-- `lastName`
unfoldable pub last_name : Text → Text
last_name name = last_of [] (split b'.' (replace_rune b':' (b'.' ∷ []) name))

-- Where a walk is: the path, the lines of the file, and the function around it, if any.
pub record Place : Type 0 where
  pub path : Text
  pub lines : List Text
  pub current : Text

abbrev pub trimmed : Option Text → Text
trimmed none = []
trimmed (some line) = trim_space line

-- `lineText`
unfoldable pub line_text : List Text → ℕ → Text
line_text lines zero = []
line_text lines (suc n) = trimmed (get_elem? lines n)

abbrev pub within : Text → Place → Place
within name p = record p { current = name }

-- The function around a part, or a name for the place where there is none.
abbrev pub placed_at : Text → ℕ → Place → Place
placed_at label line p =
    if p.current == []
    then within (codes "<" ++ (label ++ (codes "@{path}:" ++ (decimal line ++ codes ">")))) p
    else p

abbrev pub symbol_at : Place → Text → Text → ℕ → ℕ → Found
symbol_at p kind name line last = symbol (record {
  name = last_name name;
  qualified = name;
  kind = kind;
  path = p.path;
  signature = line_text p.lines line;
  required_role = [];
  line = line;
  end_line = last;
})

-- The symbol of a local function, whose name is not taken apart.
abbrev pub local_symbol : Place → Text → ℕ → ℕ → Found
local_symbol p name line last = symbol (record {
  name = name;
  qualified = name;
  kind = codes "function";
  path = p.path;
  signature = line_text p.lines line;
  required_role = [];
  line = line;
  end_line = last;
})

abbrev pub edge_at : Place → Text → Text → Text → Text → ℕ → Found
edge_at p source target kind confidence line = edge (record {
  source = source;
  target = target;
  kind = kind;
  confidence = confidence;
  path = p.path;
  required_role = [];
  line = line;
})

abbrev pub call_edge : Place → Text → ℕ → Found
call_edge p target line =
    if target == []
    then edge_at p p.current (codes "<dynamic>") (codes "call") (codes "dynamic-unresolved") line
    else edge_at p p.current target (codes "call") (codes "inferred") line

abbrev pub event_edge : Place → Exprs → ℕ → List Found
event_edge p (expr (string event) rest) line =
    edge_at p p.current event (codes "register-event") (codes "exact") line ∷ []
event_edge p _ line = []

-- The edges of a call, without those of its parts.
unfoldable pub call_edges : Place → Text → Exprs → ℕ → List Found
call_edges p target args line =
    call_edge p target line
    ∷ (if has_suffix target (codes ":RegisterEvent")
          || has_suffix target (codes ":RegisterUnitEvent")
        then event_edge p args line
        else [])

abbrev pub head_name : Exprs → Text
head_name no_exprs = []
head_name (expr e rest) = expr_name e

abbrev pub tail_of : Exprs → Exprs
tail_of no_exprs = no_exprs
tail_of (expr e rest) = rest

unfoldable pub inherit_edges : Place → Text → Exprs → ℕ → List Found
inherit_edges p target no_exprs line = []
inherit_edges p target (expr e rest) line =
    let more = inherit_edges p target rest line in
    if expr_name e == []
    then more
    else edge_at p target (expr_name e) (codes "inherits") (codes "exact") line ∷ more

-- The symbol and the edges of `X = CreateFromMixins(...)`.
unfoldable pub mixin_facts : Place → Text → Expr → ℕ → ℕ → List Found
mixin_facts p lhs (call at func receiver called args) line last =
    if call_name func receiver called == codes "CreateFromMixins" && not (lhs == [])
    then symbol_at p (codes "mixin") lhs line last ∷ inherit_edges p lhs args line
    else []
mixin_facts p lhs _ line last = []

-- `walkExpr` and `walkStmts`
unfoldable mutual
  unfolding call_edges mixin_facts func_name call_name

  pub walk_expr : Place → Expr → List Found
  walk_expr p absent = []
  walk_expr p (ident name) = []
  walk_expr p (string value) = []
  walk_expr p constant = []
  walk_expr p (attr_get object key) = walk_expr p object ++ walk_expr p key
  walk_expr p (call line func receiver called args) =
      let q = placed_at (codes "top-level") line p in
      call_edges q (call_name func receiver called) args line
      ++ (walk_expr q func ++ (walk_expr q receiver ++ walk_exprs q args))
  walk_expr p (function line body) = walk_stmts (placed_at (codes "anonymous") line p) body
  walk_expr p (table fields) = walk_fields p fields
  walk_expr p (binary lhs rhs) = walk_expr p lhs ++ walk_expr p rhs
  walk_expr p (unary e) = walk_expr p e

  pub walk_exprs : Place → Exprs → List Found
  walk_exprs p no_exprs = []
  walk_exprs p (expr e rest) = walk_expr p e ++ walk_exprs p rest

  pub walk_fields : Place → Fields → List Found
  walk_fields p no_fields = []
  walk_fields p (field key value rest) =
      walk_expr p key ++ (walk_expr p value ++ walk_fields p rest)

  -- The loop over the values of a local statement, with the names that are left.
  pub walk_locals : Place → ℕ → ℕ → List Text → Exprs → List Found
  walk_locals p line last names no_exprs = []
  walk_locals p line last (name ∷ names) (expr (function at body) rest) =
      local_symbol p name line last
      ∷ (walk_stmts (within name p) body ++ walk_locals p line last names rest)
  walk_locals p line last (name ∷ names) (expr e rest) =
      walk_expr p e ++ walk_locals p line last names rest
  walk_locals p line last [] (expr e rest) = walk_expr p e ++ walk_locals p line last [] rest

  -- The loop over the values of an assignment, with the targets that are left.
  pub walk_assigns : Place → ℕ → ℕ → Exprs → Exprs → List Found
  walk_assigns p line last lhs no_exprs = []
  walk_assigns p line last lhs (expr (function at body) rest) =
      let known =
        symbol_at p (codes "function") (head_name lhs) line last
        ∷ walk_stmts (within (head_name lhs) p) body in
      let unknown = walk_stmts (placed_at (codes "anonymous") at p) body in
      (if head_name lhs == [] then unknown else known)
      ++ walk_assigns p line last (tail_of lhs) rest
  walk_assigns p line last lhs (expr e rest) =
      mixin_facts p (head_name lhs) e line last
      ++ (walk_expr p e ++ walk_assigns p line last (tail_of lhs) rest)

  pub walk_stmt : Place → Stmt → List Found
  walk_stmt p (func_def line last name body) =
      symbol_at p (codes "function") (func_name name) line last
      ∷ walk_stmts (within (func_name name) p) body
  walk_stmt p (local_assign line last names values) = walk_locals p line last names values
  walk_stmt p (assign line last lhs rhs) = walk_assigns p line last lhs rhs
  walk_stmt p (func_call e) = walk_expr p e
  walk_stmt p (do_block body) = walk_stmts p body
  walk_stmt p (while_loop condition body) = walk_expr p condition ++ walk_stmts p body
  walk_stmt p (repeat_loop condition body) = walk_expr p condition ++ walk_stmts p body
  walk_stmt p (if_then condition yes_body no_body) =
      walk_expr p condition ++ (walk_stmts p yes_body ++ walk_stmts p no_body)
  walk_stmt p (number_for init limit step body) =
      walk_expr p init ++ (walk_expr p limit ++ (walk_expr p step ++ walk_stmts p body))
  walk_stmt p (generic_for values body) = walk_exprs p values ++ walk_stmts p body
  walk_stmt p (return_values values) = walk_exprs p values
  walk_stmt p other_stmt = []

  pub walk_stmts : Place → Stmts → List Found
  walk_stmts p no_stmts = []
  walk_stmts p (stmt s rest) = walk_stmt p s ++ walk_stmts p rest

unfoldable pub symbols_of : List Found → List SymbolFact
symbols_of [] = []
symbols_of (symbol s ∷ rest) = s ∷ symbols_of rest
symbols_of (edge e ∷ rest) = symbols_of rest

unfoldable pub edges_of : List Found → List EdgeFact
edges_of [] = []
edges_of (symbol s ∷ rest) = edges_of rest
edges_of (edge e ∷ rest) = e ∷ edges_of rest

-- `extractLuaFacts`
unfoldable pub extract_lua_facts : Stmts → Text → List Text → List SymbolFact × List EdgeFact
extract_lua_facts tree path lines =
    let found = walk_stmts (record { path = path; lines = lines; current = [] }) tree in
    (symbols_of found, edges_of found)
