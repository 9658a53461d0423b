-- ===== src/Indexer/Syntax.antt =====
-- The syntax trees of the Lua parser that internal/indexer/parse.go walks: the parts of `ast.Expr`
-- and `ast.Stmt` that it reads.
use wowdoc.Base.{ℕ, List, Text}

mutual
  -- `absent` is a nil expression, `constant` one with no parts that are walked, `binary` any of
  -- the logical, relational, concatenation and arithmetic ones, `unary` any of the unary ones.
  pub data Expr : Type 0 where
    absent : Expr
    ident : Text → Expr
    string : Text → Expr
    constant : Expr
    attr_get : Expr → Expr → Expr
    call : ℕ → Expr → Expr → Text → Exprs → Expr
    function : ℕ → Stmts → Expr
    table : Fields → Expr
    binary : Expr → Expr → Expr
    unary : Expr → Expr

  pub data Exprs : Type 0 where
    no_exprs : Exprs
    expr : Expr → Exprs → Exprs

  pub data Fields : Type 0 where
    no_fields : Fields
    field : Expr → Expr → Fields → Fields

  -- `ast.FuncName`: a function of its own, or a method of a receiver.
  pub data FuncName : Type 0 where
    named : Expr → FuncName
    method : Expr → Text → FuncName

  -- The numbers are the first line of a statement and its last.
  pub data Stmt : Type 0 where
    func_def : ℕ → ℕ → FuncName → Stmts → Stmt
    local_assign : ℕ → ℕ → List Text → Exprs → Stmt
    assign : ℕ → ℕ → Exprs → Exprs → Stmt
    func_call : Expr → Stmt
    do_block : Stmts → Stmt
    while_loop : Expr → Stmts → Stmt
    repeat_loop : Expr → Stmts → Stmt
    if_then : Expr → Stmts → Stmts → Stmt
    number_for : Expr → Expr → Expr → Stmts → Stmt
    generic_for : Exprs → Stmts → Stmt
    return_values : Exprs → Stmt
    other_stmt : Stmt

  pub data Stmts : Type 0 where
    no_stmts : Stmts
    stmt : Stmt → Stmts → Stmts
