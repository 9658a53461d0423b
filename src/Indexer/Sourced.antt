-- ===== src/Indexer/Sourced.antt =====
-- What `extractLuaFacts` of internal/indexer/parse.go guarantees of each fact.
pub mod Line
pub mod Parts
use wowdoc.Base.{ℕ, ◌≡◌, arith, ap, false, not, ◌&&◌, ◌||◌, ◌⊎◌, inl, inr, List, [], ◌∷◌, ◌++◌}
use wowdoc.Base.{Text, codes, ◌==◌, text_eq, if_elim, All-append}
use wowdoc.Strings.{has_suffix}
use wowdoc.Branch.Types.{SymbolFact, EdgeFact}
use wowdoc.Indexer.Syntax.{
  Expr, absent, ident, string, constant, attr_get, call, function, table, binary, unary, Exprs,
  no_exprs, expr, Fields, no_fields, field,
}
use wowdoc.Indexer.Syntax.{
  Stmt, func_def, local_assign, assign, func_call, do_block, while_loop, repeat_loop, if_then,
  number_for, generic_for, return_values, other_stmt, Stmts, no_stmts, stmt,
}
use wowdoc.Indexer.Lua.{
  Place, expr_name, call_name, func_name, line_text, within, placed_at, symbol_at, local_symbol,
  call_edge, event_edge, call_edges, head_name, tail_of, inherit_edges, mixin_facts, walk_expr,
  walk_exprs, walk_fields, walk_locals, walk_assigns, walk_stmt, walk_stmts,
}
use wowdoc.Indexer.Sourced.Parts.{
  IsFact, IsHere, Facts, both, placed_at-IsHere, placed_at-named, symbol_at-IsFact,
  local_symbol-IsFact, call_edges-facts, mixin_facts-facts, none_facts, first_fact,
}

module _ (path : Text) (lines : List Text) where
  mutual
    unfolding walk_stmts IsHere

    walk_expr-facts :
        (p : Place) (e : Expr) → IsHere path lines p → Facts path lines (walk_expr p e)
    walk_expr-facts p absent h = none_facts path lines
    walk_expr-facts p (ident name) h = none_facts path lines
    walk_expr-facts p (string value) h = none_facts path lines
    walk_expr-facts p constant h = none_facts path lines
    walk_expr-facts p (attr_get object key) h =
        both path lines _ _ (walk_expr-facts p object h) (walk_expr-facts p key h)
    walk_expr-facts p (call line func receiver called args) h =
        let q = placed_at (codes "top-level") line p in
        let k = placed_at-IsHere path lines (codes "top-level") line p h in
        both path lines (call_edges q (call_name func receiver called) args line) _
          (call_edges-facts path lines q (call_name func receiver called) args line k
            (placed_at-named path lines (codes "top-level") line p))
          (both path lines (walk_expr q func) (walk_expr q receiver ++ walk_exprs q args)
            (walk_expr-facts q func k)
            (both path lines (walk_expr q receiver) (walk_exprs q args)
              (walk_expr-facts q receiver k) (walk_exprs-facts q args k)))
    walk_expr-facts p (function line body) h =
        walk_stmts-facts _ body (placed_at-IsHere path lines (codes "anonymous") line p h)
    walk_expr-facts p (table fields) h = walk_fields-facts p fields h
    walk_expr-facts p (binary lhs rhs) h =
        both path lines _ _ (walk_expr-facts p lhs h) (walk_expr-facts p rhs h)
    walk_expr-facts p (unary e) h = walk_expr-facts p e h

    walk_exprs-facts :
        (p : Place) (es : Exprs) → IsHere path lines p → Facts path lines (walk_exprs p es)
    walk_exprs-facts p no_exprs h = none_facts path lines
    walk_exprs-facts p (expr e rest) h =
        both path lines _ _ (walk_expr-facts p e h) (walk_exprs-facts p rest h)

    walk_fields-facts :
        (p : Place) (fs : Fields) → IsHere path lines p → Facts path lines (walk_fields p fs)
    walk_fields-facts p no_fields h = none_facts path lines
    walk_fields-facts p (field key value rest) h =
        both path lines _ _ (walk_expr-facts p key h)
          (both path lines _ _ (walk_expr-facts p value h) (walk_fields-facts p rest h))

    walk_locals-facts :
        (p : Place) (line last : ℕ) (names : List Text) (es : Exprs)
        → IsHere path lines p
        → Facts path lines (walk_locals p line last names es)
    walk_locals-facts p line last names no_exprs h = none_facts path lines
    walk_locals-facts p line last (name ∷ names) (expr (function at body) rest) h =
        first_fact path lines _ _ (local_symbol-IsFact path lines p name line last h) (
          both path lines _ _ (walk_stmts-facts (within name p) body h)
            (walk_locals-facts p line last names rest h))
    walk_locals-facts p line last (name ∷ names) (expr e rest) h =
        both path lines _ _ (walk_expr-facts p e h) (walk_locals-facts p line last names rest h)
    walk_locals-facts p line last [] (expr e rest) h =
        both path lines _ _ (walk_expr-facts p e h) (walk_locals-facts p line last [] rest h)

    walk_assigns-facts :
        (p : Place) (line last : ℕ) (lhs es : Exprs)
        → IsHere path lines p
        → Facts path lines (walk_assigns p line last lhs es)
    walk_assigns-facts p line last lhs no_exprs h = none_facts path lines
    walk_assigns-facts p line last lhs (expr (function at body) rest) h =
        both path lines _ _
          (if_elim (Facts path lines) (head_name lhs == [])
            (λ _. walk_stmts-facts _ body (placed_at-IsHere path lines (codes "anonymous") at p h))
            (λ _.
              first_fact path lines _ _
                (symbol_at-IsFact path lines p (codes "function") (head_name lhs) line last h)
                (walk_stmts-facts (within (head_name lhs) p) body h)))
          (walk_assigns-facts p line last (tail_of lhs) rest h)
    walk_assigns-facts p line last lhs (expr e rest) h =
        both path lines _ _ (mixin_facts-facts path lines p (head_name lhs) e line last h) (
          both path lines _ _ (walk_expr-facts p e h)
            (walk_assigns-facts p line last (tail_of lhs) rest h))

    walk_stmt-facts :
        (p : Place) (s : Stmt) → IsHere path lines p → Facts path lines (walk_stmt p s)
    walk_stmt-facts p (func_def line last name body) h =
        first_fact path lines _ _
          (symbol_at-IsFact path lines p (codes "function") (func_name name) line last h)
          (walk_stmts-facts (within (func_name name) p) body h)
    walk_stmt-facts p (local_assign line last names values) h =
        walk_locals-facts p line last names values h
    walk_stmt-facts p (assign line last lhs rhs) h = walk_assigns-facts p line last lhs rhs h
    walk_stmt-facts p (func_call e) h = walk_expr-facts p e h
    walk_stmt-facts p (do_block body) h = walk_stmts-facts p body h
    walk_stmt-facts p (while_loop condition body) h =
        both path lines _ _ (walk_expr-facts p condition h) (walk_stmts-facts p body h)
    walk_stmt-facts p (repeat_loop condition body) h =
        both path lines _ _ (walk_expr-facts p condition h) (walk_stmts-facts p body h)
    walk_stmt-facts p (if_then condition yes_body no_body) h =
        both path lines _ _ (walk_expr-facts p condition h)
          (both path lines _ _ (walk_stmts-facts p yes_body h) (walk_stmts-facts p no_body h))
    walk_stmt-facts p (number_for init limit step body) h =
        both path lines _ _ (walk_expr-facts p init h) (
          both path lines _ _ (walk_expr-facts p limit h)
            (both path lines _ _ (walk_expr-facts p step h) (walk_stmts-facts p body h)))
    walk_stmt-facts p (generic_for values body) h =
        both path lines _ _ (walk_exprs-facts p values h) (walk_stmts-facts p body h)
    walk_stmt-facts p (return_values values) h = walk_exprs-facts p values h
    walk_stmt-facts p other_stmt h = none_facts path lines

    walk_stmts-facts :
        (p : Place) (ss : Stmts) → IsHere path lines p → Facts path lines (walk_stmts p ss)
    walk_stmts-facts p no_stmts h = none_facts path lines
    walk_stmts-facts p (stmt s rest) h =
        both path lines _ _ (walk_stmt-facts p s h) (walk_stmts-facts p rest h)
