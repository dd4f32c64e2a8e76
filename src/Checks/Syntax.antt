-- ===== src/Checks/Syntax.antt =====
-- The expressions and statements of a function body, as far as the detectors of crates/checks look at
-- them. The types are parts of `syn`'s syntax tree. Whatever no detector names is an `other_expr` or
-- an item inside a body: it keeps the parts that the default walk of `syn::visit` goes through, in
-- the order of that walk. Attributes, types and generic arguments, which hold no code, are left out,
-- and so is what stands inside the brackets of a macro, which `syn` does not parse. A line is that of
-- `span().start()`.
pub mod Walk
pub mod Util
use guard_cli.Prelude.{ℕ, String, Bool, Option, List}

-- `syn::Path`: the identifiers of its segments, and `get_ident`
pub record SynPath : Type 0 where
  pub segments : List String
  pub get_ident : Option String

pub data SynType : Type 0 where
  path_type : SynPath → SynType
  reference_type : SynType → SynType
  -- in parentheses, or in a group without delimiters
  paren_type : SynType → SynType
  other_type : SynType

pub data Pat : Type 0 where
  ident_pat : String → Pat
  typed_pat : Pat → SynType → Pat
  other_pat : Pat

pub data FnArg : Type 0 where
  receiver_arg : FnArg
  typed_arg : Pat → SynType → FnArg

pub data BinOp : Type 0 where
  add sub mul div rem add_assign sub_assign mul_assign div_assign rem_assign other_op : BinOp

pub data LoopKind : Type 0 where
  plain_loop while_loop for_loop : LoopKind

-- the segments of a macro's path, and its line
pub record SynMacro : Type 0 where
  pub segments : List String
  pub line : ℕ

mutual
  pub data Expr : Type 0 where
    path_expr : (line : ℕ) (path : SynPath) → Expr
    lit : (line : ℕ) (text : String) → Expr
    method_call : (line : ℕ) (receiver : Expr) (method : String) (args : Exprs) → Expr
    call : (line : ℕ) (func : Expr) (args : Exprs) → Expr
    field : (line : ℕ) (base : Expr) (member : Option String) → Expr
    index : (line : ℕ) (base position : Expr) → Expr
    reference : (line : ℕ) (inner : Expr) → Expr
    paren : (line : ℕ) (inner : Expr) → Expr
    binary : (line : ℕ) (op : BinOp) (left right : Expr) → Expr
    macro_call : (line : ℕ) (mac : SynMacro) → Expr
    if_expr : (line : ℕ) (condition : Expr) (then_branch : Stmts) (else_branch : Else) → Expr
    loop_expr : (line : ℕ) (kind : LoopKind) (parts : Parts) → Expr
    other_expr : (line : ℕ) (parts : Parts) → Expr

  pub data Exprs : Type 0 where
    no_args : Exprs
    arg : Expr → Exprs → Exprs

  pub data Else : Type 0 where
    no_else : Else
    else_expr : Expr → Else

  -- `let` with its pattern, its initial value and what stands behind its `else`
  pub data Stmt : Type 0 where
    local : (pat : Pat) (init : Else) (diverge : Else) → Stmt
    expr_stmt : Expr → Stmt
    macro_stmt : SynMacro → Stmt
    item_stmt : Parts → Stmt

  pub data Stmts : Type 0 where
    no_stmts : Stmts
    stmt : Stmt → Stmts → Stmts

  pub data Parts : Type 0 where
    no_parts : Parts
    expr_part : Expr → Parts → Parts
    block_part : Stmts → Parts → Parts
    macro_part : SynMacro → Parts → Parts
