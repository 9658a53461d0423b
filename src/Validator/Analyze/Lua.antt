-- ===== src/Validator/Analyze/Lua.antt =====
-- The walk over a Lua file: `analyzeLua` of internal/validator/analyze.go.
use wowdoc.Base.{ℕ, not, ◌&&◌, ◌||◌, List, [], ◌∷◌, ◌++◌, map, Text, codes}
use wowdoc.Base.{◌==◌, text_eq, if◌then◌else◌}
use wowdoc.Strings.{has_prefix, has_suffix, contains_text, trim_space, split}
use wowdoc.Validator.Types.{Unresolved, Usage, text}
use wowdoc.Validator.Analyze.Syntax.{
  Expr, absent, ident, string, constant, attr_get, call, function, table, binary, unary, Exprs,
  no_exprs, expr, Fields, no_fields, field,
}
use wowdoc.Validator.Analyze.Syntax.{
  Stmt, func_def, local_assign, assign, func_call, do_block, while_loop, repeat_loop, if_then,
  number_for, generic_for, return_values, other_stmt, Stmts, no_stmts, stmt,
}

-- What the walk appends, in the order in which it appends it.
pub data Finding : Type 0 where
  used : Usage → Finding
  unknown : Unresolved → Finding

-- `expressionName`
abbrev dotted : Text → Text → Text
dotted base key = if not (base == []) && not (key == []) then base ++ (b'.' ∷ key) else []

unfoldable pub expression_name : Expr → Text
expression_name (ident name) = name
expression_name (string value) = value
expression_name (attr_get object key) = dotted (expression_name object) (expression_name key)
expression_name _ = []

-- `callName`
unfoldable pub call_name : Expr → Expr → Text → Text
unfolding expression_name
call_name func receiver method =
    if not (expression_name receiver == []) && not (method == [])
    then expression_name receiver ++ (b':' ∷ method)
    else expression_name func

-- `unresolvedAt`
unfoldable pub unresolved_at : Text → Text → Text → ℕ → Text → Unresolved
unresolved_at kind expression path line reason = record {
  kind = kind;
  expression = if expression == [] then codes "<dynamic>" else expression;
  file = path;
  line = line;
  column = 0;
  reason = reason;
  evidence = (codes "confidence", text (codes "dynamic-unresolved")) ∷ [];
}

abbrev pub usage_at : Text → Text → Text → ℕ → Usage
usage_at kind name path line = record {
  kind = kind;
  name = name;
  expression = [];
  file = path;
  line = line;
  column = 0;
}

-- `splitCSV`
unfoldable pub nonblank : List Text → List Text
nonblank [] = []
nonblank (part ∷ parts) =
    let rest = nonblank parts in if trim_space part == [] then rest else trim_space part ∷ rest

unfoldable pub split_csv : Text → List Text
unfolding nonblank
split_csv value = nonblank (split b',' value)

-- `appendLiteralUsage`
unfoldable pub literal_usage : Text → Expr → Text → ℕ → List Finding
literal_usage kind (string value) path line = used (usage_at kind value path line) ∷ []
literal_usage kind e path line =
    unknown (unresolved_at kind (expression_name e) path line (kind ++ codes " is computed")) ∷ []

-- `appendCSVUsages`
unfoldable pub csv_usages : Text → Expr → Text → ℕ → List Finding
csv_usages kind (string value) path line =
    map (λ name. used (usage_at kind name path line)) (split_csv value)
csv_usages kind e path line =
    unknown (unresolved_at kind (expression_name e) path line (kind ++ codes " is computed")) ∷ []

-- The target of a call.
unfoldable pub target_findings : Text → Text → ℕ → List Finding
target_findings name path line =
    if name == []
    then unknown (
        unresolved_at (codes "api") (codes "<dynamic call>") path line
          (codes "call target is computed"))
      ∷ []
    else if has_prefix name (codes "C_") && contains_text name (codes ".")
    then used (usage_at (codes "api") name path line) ∷ []
    else if not (contains_text name (codes ":"))
    then used (usage_at (codes "api-candidate") name path line) ∷ []
    else []

-- The event of a call that registers one.
unfoldable pub event_findings : Exprs → Text → ℕ → List Finding
event_findings no_exprs path line = []
event_findings (expr (string value) _) path line =
    used (usage_at (codes "event") value path line) ∷ []
event_findings (expr e _) path line =
    unknown
      (unresolved_at (codes "event") (expression_name e) path line (codes "event name is computed"))
    ∷ []

-- The frame type and the templates of `CreateFrame`.
unfoldable pub frame_findings : Exprs → Text → ℕ → List Finding
frame_findings no_exprs path line = []
frame_findings (expr kind (expr _ (expr _ (expr templates _)))) path line =
    literal_usage (codes "frame-type") kind path line
    ++ csv_usages (codes "template") templates path line
frame_findings (expr kind _) path line = literal_usage (codes "frame-type") kind path line

unfoldable pub mixin_findings : Exprs → Text → ℕ → List Finding
mixin_findings no_exprs path line = []
mixin_findings (expr e rest) path line =
    (if not (expression_name e == [])
      then used (usage_at (codes "mixin") (expression_name e) path line)
      else unknown
          (unresolved_at (codes "mixin") (codes "<dynamic>") path line (codes "Mixin is computed")))
    ∷ mixin_findings rest path line

-- The `switch` on the name of a call.
unfoldable pub argument_findings : Text → Exprs → Text → ℕ → List Finding
argument_findings name args path line =
    if has_suffix name (codes ":RegisterEvent") || has_suffix name (codes ":RegisterUnitEvent")
    then event_findings args path line
    else if name == codes "CreateFrame"
    then frame_findings args path line
    else if name == codes "CreateFromMixins"
    then mixin_findings args path line
    else []

-- The findings of one call, without those of its parts.
unfoldable pub call_findings : Text → ℕ → Text → Exprs → List Finding
call_findings path line name args =
    target_findings name path line ++ argument_findings name args path line

-- `walkExpr` and `walkStmts`
unfoldable mutual
  unfolding call_name call_findings

  pub walk_expr : Text → Expr → List Finding
  walk_expr path absent = []
  walk_expr path (ident name) = []
  walk_expr path (string value) = []
  walk_expr path constant = []
  walk_expr path (attr_get object key) = walk_expr path object ++ walk_expr path key
  walk_expr path (call line func receiver method args) =
      call_findings path line (call_name func receiver method) args
      ++ (walk_expr path func ++ (walk_expr path receiver ++ walk_exprs path args))
  walk_expr path (function body) = walk_stmts path body
  walk_expr path (table fields) = walk_fields path fields
  walk_expr path (binary lhs rhs) = walk_expr path lhs ++ walk_expr path rhs
  walk_expr path (unary e) = walk_expr path e

  pub walk_exprs : Text → Exprs → List Finding
  walk_exprs path no_exprs = []
  walk_exprs path (expr e rest) = walk_expr path e ++ walk_exprs path rest

  pub walk_fields : Text → Fields → List Finding
  walk_fields path no_fields = []
  walk_fields path (field key value rest) =
      walk_expr path key ++ (walk_expr path value ++ walk_fields path rest)

  pub walk_stmt : Text → Stmt → List Finding
  walk_stmt path (func_def body) = walk_stmts path body
  walk_stmt path (local_assign values) = walk_exprs path values
  walk_stmt path (assign lhs rhs) = walk_exprs path rhs
  walk_stmt path (func_call e) = walk_expr path e
  walk_stmt path (do_block body) = walk_stmts path body
  walk_stmt path (while_loop condition body) = walk_expr path condition ++ walk_stmts path body
  walk_stmt path (repeat_loop condition body) = walk_expr path condition ++ walk_stmts path body
  walk_stmt path (if_then condition yes_body no_body) =
      walk_expr path condition ++ (walk_stmts path yes_body ++ walk_stmts path no_body)
  walk_stmt path (number_for init limit step body) =
      walk_expr path init ++ (walk_expr path limit ++ (walk_expr path step ++ walk_stmts path body))
  walk_stmt path (generic_for values body) = walk_exprs path values ++ walk_stmts path body
  walk_stmt path (return_values values) = walk_exprs path values
  walk_stmt path other_stmt = []

  pub walk_stmts : Text → Stmts → List Finding
  walk_stmts path no_stmts = []
  walk_stmts path (stmt s rest) = walk_stmt path s ++ walk_stmts path rest

unfoldable pub usages_of : List Finding → List Usage
usages_of [] = []
usages_of (used u ∷ rest) = u ∷ usages_of rest
usages_of (unknown x ∷ rest) = usages_of rest

unfoldable pub unresolved_of : List Finding → List Unresolved
unresolved_of [] = []
unresolved_of (used u ∷ rest) = unresolved_of rest
unresolved_of (unknown x ∷ rest) = x ∷ unresolved_of rest
