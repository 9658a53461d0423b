-- ===== src/Validator/Analyze/Accounted.antt =====
-- The calls in a Lua file, and the findings of internal/validator/analyze.go on them.
use wowdoc.Base.{ℕ, ◌≡◌, refl, arith, false, not, ◌&&◌, ◌⊎◌, inl, inr, List, [], ◌++◌, Text, codes}
use wowdoc.Base.{◌==◌, text_eq, if_elim, Any, Any-append_left, Any-append_right}
use wowdoc.Strings.{has_prefix, contains_text}
use wowdoc.Validator.Analyze.Syntax.{
  Expr, absent, ident, string, constant, attr_get, call, function, table, binary, unary, Exprs,
  no_exprs, expr, Fields, no_fields, field,
}
use wowdoc.Validator.Analyze.Syntax.{
  Stmt, func_def, local_assign, assign, func_call, do_block, while_loop, repeat_loop, if_then,
  number_for, generic_for, return_values, other_stmt, Stmts, no_stmts, stmt,
}
use wowdoc.Validator.Analyze.Lua.{
  Finding, used, unknown, unresolved_at, call_name, call_findings, target_findings,
  argument_findings, walk_expr, walk_exprs, walk_fields, walk_stmt, walk_stmts,
}

module _ (line : ℕ) (name : Text) where
  -- A call on the line, of the name, stands somewhere in the tree, other than on the left of an
  -- assignment.
  unfoldable mutual
    pub Calls : Expr → Type 0
    Calls absent = ⊥
    Calls (ident x) = ⊥
    Calls (string x) = ⊥
    Calls constant = ⊥
    Calls (attr_get object key) = Calls object ⊎ Calls key
    Calls (call at func receiver method args) =
        ((at ≡ line) × (call_name func receiver method ≡ name))
        ⊎ (Calls func ⊎ (Calls receiver ⊎ CallsIn args))
    Calls (function body) = CallsBody body
    Calls (table fields) = CallsField fields
    Calls (binary lhs rhs) = Calls lhs ⊎ Calls rhs
    Calls (unary e) = Calls e

    pub CallsIn : Exprs → Type 0
    CallsIn no_exprs = ⊥
    CallsIn (expr e rest) = Calls e ⊎ CallsIn rest

    pub CallsField : Fields → Type 0
    CallsField no_fields = ⊥
    CallsField (field key value rest) = Calls key ⊎ (Calls value ⊎ CallsField rest)

    pub CallsStmt : Stmt → Type 0
    CallsStmt (func_def body) = CallsBody body
    CallsStmt (local_assign values) = CallsIn values
    CallsStmt (assign lhs rhs) = CallsIn rhs
    CallsStmt (func_call e) = Calls e
    CallsStmt (do_block body) = CallsBody body
    CallsStmt (while_loop condition body) = Calls condition ⊎ CallsBody body
    CallsStmt (repeat_loop condition body) = Calls condition ⊎ CallsBody body
    CallsStmt (if_then condition yes_body no_body) =
        Calls condition ⊎ (CallsBody yes_body ⊎ CallsBody no_body)
    CallsStmt (number_for init limit step body) =
        Calls init ⊎ (Calls limit ⊎ (Calls step ⊎ CallsBody body))
    CallsStmt (generic_for values body) = CallsIn values ⊎ CallsBody body
    CallsStmt (return_values values) = CallsIn values
    CallsStmt other_stmt = ⊥

    pub CallsBody : Stmts → Type 0
    CallsBody no_stmts = ⊥
    CallsBody (stmt s rest) = CallsStmt s ⊎ CallsBody rest

-- The finding is a usage of the name on the line, or says that the line's call has no name.
abbrev pub IsReportOf : Text → ℕ → Text → Finding → Type 0
IsReportOf path line name (used u) = (u.name ≡ name) × (u.file ≡ path) × (u.line ≡ line)
IsReportOf path line name (unknown x) = (name ≡ []) × (x.file ≡ path) × (x.line ≡ line)

module _ (path : Text) (line : ℕ) (name : Text)
    (plain : contains_text name (codes ":") ≡ false) where
  Reported : List Finding → Type 0
  Reported = Any (IsReportOf path line name)

  left : (xs ys : List Finding) → Reported xs → Reported (xs ++ ys)
  unfolding Reported
  left xs ys h = Any-append_left (IsReportOf path line name) xs ys h

  right : (xs ys : List Finding) → Reported ys → Reported (xs ++ ys)
  unfolding Reported
  right xs ys h = Any-append_right (IsReportOf path line name) xs ys h

  -- Of two parts that are walked one after the other, either reports.
  both :
      {A B : Type 0} (xs ys : List Finding)
      → (A → Reported xs)
      → (B → Reported ys)
      → A ⊎ B
      → Reported (xs ++ ys)
  both xs ys f g (inl a) = left xs ys (f a)
  both xs ys f g (inr b) = right xs ys (g b)

  target-reported : Reported (target_findings name path line)
  unfolding Reported target_findings unresolved_at
  target-reported =
      if_elim Reported (name == []) (λ empty. inl (ground arith, refl, refl))
        (λ full.
          if_elim Reported (has_prefix name (codes "C_") && contains_text name (codes "."))
            (λ api. inl (refl, refl, refl))
            (λ other.
              if_elim Reported (not (contains_text name (codes ":")))
                (λ candidate. inl (refl, refl, refl)) (λ method. absurd (ground arith))))

  call-reported :
      (at : ℕ) (found : Text) (args : Exprs)
      → (at ≡ line) × (found ≡ name)
      → Reported (call_findings path at found args)
  unfolding call_findings
  call-reported at found args h =
      rw (h.0, h.1)
        (left (target_findings name path line) (argument_findings name args path line)
          target-reported)

  mutual
    unfolding walk_expr Calls

    walk_expr-reports : (e : Expr) → Calls line name e → Reported (walk_expr path e)
    walk_expr-reports absent h = absurd h
    walk_expr-reports (ident x) h = absurd h
    walk_expr-reports (string x) h = absurd h
    walk_expr-reports constant h = absurd h
    walk_expr-reports (attr_get object key) h =
        both _ _ (walk_expr-reports object) (walk_expr-reports key) h
    walk_expr-reports (call at func receiver method args) h =
        both _ _ (call-reported at (call_name func receiver method) args)
          (both _ _ (walk_expr-reports func)
            (both _ _ (walk_expr-reports receiver) (walk_exprs-reports args)))
          h
    walk_expr-reports (function body) h = walk_stmts-reports body h
    walk_expr-reports (table fields) h = walk_fields-reports fields h
    walk_expr-reports (binary lhs rhs) h =
        both _ _ (walk_expr-reports lhs) (walk_expr-reports rhs) h
    walk_expr-reports (unary e) h = walk_expr-reports e h

    walk_exprs-reports : (es : Exprs) → CallsIn line name es → Reported (walk_exprs path es)
    walk_exprs-reports no_exprs h = absurd h
    walk_exprs-reports (expr e rest) h = both _ _ (walk_expr-reports e) (walk_exprs-reports rest) h

    walk_fields-reports : (fs : Fields) → CallsField line name fs → Reported (walk_fields path fs)
    walk_fields-reports no_fields h = absurd h
    walk_fields-reports (field key value rest) h =
        both _ _ (walk_expr-reports key)
          (both _ _ (walk_expr-reports value) (walk_fields-reports rest)) h

    walk_stmt-reports : (s : Stmt) → CallsStmt line name s → Reported (walk_stmt path s)
    walk_stmt-reports (func_def body) h = walk_stmts-reports body h
    walk_stmt-reports (local_assign values) h = walk_exprs-reports values h
    walk_stmt-reports (assign lhs rhs) h = walk_exprs-reports rhs h
    walk_stmt-reports (func_call e) h = walk_expr-reports e h
    walk_stmt-reports (do_block body) h = walk_stmts-reports body h
    walk_stmt-reports (while_loop condition body) h =
        both _ _ (walk_expr-reports condition) (walk_stmts-reports body) h
    walk_stmt-reports (repeat_loop condition body) h =
        both _ _ (walk_expr-reports condition) (walk_stmts-reports body) h
    walk_stmt-reports (if_then condition yes_body no_body) h =
        both _ _ (walk_expr-reports condition)
          (both _ _ (walk_stmts-reports yes_body) (walk_stmts-reports no_body)) h
    walk_stmt-reports (number_for init limit step body) h =
        both _ _ (walk_expr-reports init)
          (both _ _ (walk_expr-reports limit)
            (both _ _ (walk_expr-reports step) (walk_stmts-reports body)))
          h
    walk_stmt-reports (generic_for values body) h =
        both _ _ (walk_exprs-reports values) (walk_stmts-reports body) h
    walk_stmt-reports (return_values values) h = walk_exprs-reports values h
    walk_stmt-reports other_stmt h = absurd h

    walk_stmts-reports : (ss : Stmts) → CallsBody line name ss → Reported (walk_stmts path ss)
    walk_stmts-reports no_stmts h = absurd h
    walk_stmts-reports (stmt s rest) h = both _ _ (walk_stmt-reports s) (walk_stmts-reports rest) h

-- A call anywhere in a Lua file, other than on the left of an assignment and other than of a name
-- with a colon, is reported on its line: as a usage of its name, or as unresolved where the name
-- is computed.
pub walk-IsReportOf :
    (path : Text) (line : ℕ) (name : Text) (tree : Stmts)
    → contains_text name (codes ":") ≡ false
    → CallsBody line name tree
    → Any (IsReportOf path line name) (walk_stmts path tree)
unfolding Reported
walk-IsReportOf path line name tree plain h = walk_stmts-reports path line name plain tree h
