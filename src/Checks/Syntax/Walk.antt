-- ===== src/Checks/Syntax/Walk.antt =====
-- The default walk of `syn::visit` over a block. A visitor whose overrides all go on with the default
-- walk is called on these nodes, in this order.
use guard_cli.Prelude.{ℕ, String, List, [], ◌∷◌, ◌++◌}
use guard_cli.Checks.Syntax.{
  Expr, Exprs, Else, Stmt, Stmts, Parts, SynMacro, BinOp, path_expr, lit, method_call, call, field,
  index, reference, paren, binary, macro_call, if_expr, loop_expr, other_expr, no_args, arg,
  no_else, else_expr, local, expr_stmt, macro_stmt, item_stmt, no_stmts, stmt, no_parts, expr_part,
  block_part, macro_part,
}

pub data Visited : Type 0 where
  at_stmt : Stmt → Visited
  at_expr : Expr → Visited
  at_macro : SynMacro → Visited

unfoldable mutual
  pub visit_expr : Expr → List Visited
  visit_expr (path_expr l p) = at_expr (path_expr l p) ∷ []
  visit_expr (lit l t) = at_expr (lit l t) ∷ []
  visit_expr (method_call l r m args) =
      at_expr (method_call l r m args) ∷ visit_expr r ++ visit_exprs args
  visit_expr (call l f args) = at_expr (call l f args) ∷ visit_expr f ++ visit_exprs args
  visit_expr (field l b m) = at_expr (field l b m) ∷ visit_expr b
  visit_expr (index l b p) = at_expr (index l b p) ∷ visit_expr b ++ visit_expr p
  visit_expr (reference l e) = at_expr (reference l e) ∷ visit_expr e
  visit_expr (paren l e) = at_expr (paren l e) ∷ visit_expr e
  visit_expr (binary l op a b) = at_expr (binary l op a b) ∷ visit_expr a ++ visit_expr b
  visit_expr (macro_call l m) = at_expr (macro_call l m) ∷ at_macro m ∷ []
  visit_expr (if_expr l c t e) =
      at_expr (if_expr l c t e) ∷ visit_expr c ++ visit_block t ++ visit_else e
  visit_expr (loop_expr l k ps) = at_expr (loop_expr l k ps) ∷ visit_parts ps
  visit_expr (other_expr l ps) = at_expr (other_expr l ps) ∷ visit_parts ps

  pub visit_exprs : Exprs → List Visited
  visit_exprs no_args = []
  visit_exprs (arg e es) = visit_expr e ++ visit_exprs es

  pub visit_else : Else → List Visited
  visit_else no_else = []
  visit_else (else_expr e) = visit_expr e

  pub visit_stmt : Stmt → List Visited
  visit_stmt (local p i d) = at_stmt (local p i d) ∷ visit_else i ++ visit_else d
  visit_stmt (expr_stmt e) = at_stmt (expr_stmt e) ∷ visit_expr e
  visit_stmt (macro_stmt m) = at_stmt (macro_stmt m) ∷ at_macro m ∷ []
  visit_stmt (item_stmt ps) = at_stmt (item_stmt ps) ∷ visit_parts ps

  pub visit_block : Stmts → List Visited
  visit_block no_stmts = []
  visit_block (stmt s ss) = visit_stmt s ++ visit_block ss

  pub visit_parts : Parts → List Visited
  visit_parts no_parts = []
  visit_parts (expr_part e ps) = visit_expr e ++ visit_parts ps
  visit_parts (block_part b ps) = visit_block b ++ visit_parts ps
  visit_parts (macro_part m ps) = at_macro m ∷ visit_parts ps

-- `syn::ExprMethodCall`
pub record MethodCall : Type 0 where
  pub line : ℕ
  pub receiver : Expr
  pub method : String
  pub args : Exprs

-- the method calls among the nodes, in order
unfoldable pub calls_in : List Visited → List MethodCall
calls_in [] = []
calls_in (at_expr (method_call l r m args) ∷ vs) =
    record { line = l; receiver = r; method = m; args = args } ∷ calls_in vs
calls_in (_ ∷ vs) = calls_in vs

-- what `visit_expr_method_call` is called on
abbrev pub method_calls : Stmts → List MethodCall
method_calls block = calls_in (visit_block block)

-- `syn::ExprBinary`
pub record Binary : Type 0 where
  pub line : ℕ
  pub op : BinOp
  pub left : Expr
  pub right : Expr

unfoldable pub binaries_in : List Visited → List Binary
binaries_in [] = []
binaries_in (at_expr (binary l op a b) ∷ vs) =
    record { line = l; op = op; left = a; right = b } ∷ binaries_in vs
binaries_in (_ ∷ vs) = binaries_in vs

-- what `visit_expr_binary` is called on
abbrev pub binaries : Stmts → List Binary
binaries block = binaries_in (visit_block block)
