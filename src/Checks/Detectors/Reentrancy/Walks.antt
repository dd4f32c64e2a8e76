-- ===== src/Checks/Detectors/Reentrancy/Walks.antt =====
-- The walks of a body: the orders in which the default walk of syn meets its calls if one branch of each
-- `if` is chosen. This is the order of the text and no execution: a call comes before its receiver and
-- its arguments, the body of a loop once, the arms of a `match` one after another, and the condition of
-- an `if` not at all, as in the visitor.
use guard_cli.Prelude.{◌≡◌, ◌⊎◌, List, [], ◌∷◌, ◌++◌, string_eq}
use guard_cli.Checks.Syntax.{
  Expr, Exprs, Else, Stmt, Stmts, Parts, path_expr, lit, method_call, call, field, index, reference,
  paren, binary, macro_call, if_expr, loop_expr, other_expr, no_args, arg, no_else, else_expr,
  local, expr_stmt, macro_stmt, item_stmt, no_stmts, stmt, no_parts, expr_part, block_part,
  macro_part,
}
use guard_cli.Checks.Syntax.Walk.{MethodCall}

-- one list of calls behind another
abbrev pub InOrder :
    (List MethodCall → Type 0) → (List MethodCall → Type 0) → List MethodCall → Type 0
InOrder P Q t = (a : List MethodCall) × (b : List MethodCall) × (t ≡ a ++ b) × P a × Q b

-- the calls of a walk, in their order
abbrev mutual
  pub WalkOfExpr : Expr → List MethodCall → Type 0
  WalkOfExpr (path_expr l p) t = t ≡ []
  WalkOfExpr (lit l s) t = t ≡ []
  WalkOfExpr (method_call l r m args) t =
      (u : List MethodCall) × (t ≡ record { line = l; receiver = r; method = m; args = args } ∷ u)
      × InOrder (WalkOfExpr r) (WalkOfExprs args) u
  WalkOfExpr (call l f args) t = InOrder (WalkOfExpr f) (WalkOfExprs args) t
  WalkOfExpr (field l b m) t = WalkOfExpr b t
  WalkOfExpr (index l b p) t = InOrder (WalkOfExpr b) (WalkOfExpr p) t
  WalkOfExpr (reference l e) t = WalkOfExpr e t
  WalkOfExpr (paren l e) t = WalkOfExpr e t
  WalkOfExpr (binary l op a b) t = InOrder (WalkOfExpr a) (WalkOfExpr b) t
  WalkOfExpr (macro_call l m) t = t ≡ []
  WalkOfExpr (if_expr l c b e) t = WalkOfBlock b t ⊎ WalkOfElse e t
  WalkOfExpr (loop_expr l k ps) t = WalkOfParts ps t
  WalkOfExpr (other_expr l ps) t = WalkOfParts ps t

  pub WalkOfExprs : Exprs → List MethodCall → Type 0
  WalkOfExprs no_args t = t ≡ []
  WalkOfExprs (arg e es) t = InOrder (WalkOfExpr e) (WalkOfExprs es) t

  pub WalkOfElse : Else → List MethodCall → Type 0
  WalkOfElse no_else t = t ≡ []
  WalkOfElse (else_expr e) t = WalkOfExpr e t

  pub WalkOfStmt : Stmt → List MethodCall → Type 0
  WalkOfStmt (local p i d) t = InOrder (WalkOfElse i) (WalkOfElse d) t
  WalkOfStmt (expr_stmt e) t = WalkOfExpr e t
  WalkOfStmt (macro_stmt m) t = t ≡ []
  WalkOfStmt (item_stmt ps) t = WalkOfParts ps t

  pub WalkOfBlock : Stmts → List MethodCall → Type 0
  WalkOfBlock no_stmts t = t ≡ []
  WalkOfBlock (stmt s ss) t = InOrder (WalkOfStmt s) (WalkOfBlock ss) t

  pub WalkOfParts : Parts → List MethodCall → Type 0
  WalkOfParts no_parts t = t ≡ []
  WalkOfParts (expr_part e ps) t = InOrder (WalkOfExpr e) (WalkOfParts ps) t
  WalkOfParts (block_part b ps) t = InOrder (WalkOfBlock b) (WalkOfParts ps) t
  WalkOfParts (macro_part m ps) t = WalkOfParts ps t
