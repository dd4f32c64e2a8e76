-- ===== src/Checks/Detectors/Reentrancy.antt =====
-- crates/checks/src/reentrancy.rs: `reentrancy-risk`. The visitor overrides the walk of an `if`, so
-- that it is a recursion of its own over the body.
pub mod Walks
pub mod Laws
use guard_cli.Prelude.{
  ℕ, String, Bool, true, false, not, ◌&&◌, ◌||◌, Option, none, some, List, [], ◌∷◌, if◌then◌else◌,
  contains, string_eq,
}
use guard_cli.Prelude.Text.{◌<>◌}
use guard_cli.Checks.Ast.{Items, Method}
use guard_cli.Checks.Finding.{high, Finding}
use guard_cli.Checks.Names
use guard_cli.Checks.Syntax.{
  Expr, Exprs, Else, Stmt, Stmts, Parts, path_expr, lit, method_call, call, field, index, reference,
  paren, binary, macro_call, if_expr, loop_expr, other_expr, no_args, arg, no_else, else_expr,
  local, expr_stmt, macro_stmt, item_stmt, no_stmts, stmt, no_parts, expr_part, block_part,
  macro_part,
}
use guard_cli.Checks.Syntax.Walk.{MethodCall}
use guard_cli.Checks.Syntax.Util.{receiver_chain_contains_storage}
use guard_cli.Checks.Detectors.{docs, over_methods}

unfoldable pub is_storage_write : MethodCall → Bool
unfolding receiver_chain_contains_storage
is_storage_write m =
    contains ("set" ∷ "remove" ∷ "append" ∷ []) m.method
    && receiver_chain_contains_storage m.receiver

unfoldable pub is_storage_read : MethodCall → Bool
unfolding receiver_chain_contains_storage
is_storage_read m =
    contains ("get" ∷ "get_unchecked" ∷ "has" ∷ []) m.method
    && receiver_chain_contains_storage m.receiver

unfoldable pub is_invoke_contract : MethodCall → Bool
is_invoke_contract m = contains ("invoke_contract" ∷ "invoke_contract_check" ∷ []) m.method

pub record ReentrancyVisitor : Type 0 where
  pub wrote : Bool
  pub re_read_after_write : Bool
  pub invoke_after_write_line : Option ℕ

abbrev pub start : ReentrancyVisitor
start = record { wrote = false; re_read_after_write = false; invoke_after_write_line = none }

abbrev pub is_none : Option ℕ → Bool
is_none none = true
is_none (some line) = false

-- `visit_expr_method_call`, in front of the default walk
unfoldable pub on_call : ReentrancyVisitor → MethodCall → ReentrancyVisitor
on_call s m =
    if is_storage_write m
    then record s { wrote = true; re_read_after_write = false }
    else if s.wrote && is_storage_read m
    then record s { re_read_after_write = true }
    else if s.wrote
        && not s.re_read_after_write
        && is_invoke_contract m
        && is_none s.invoke_after_write_line
    then record s { invoke_after_write_line = some m.line }
    else s

abbrev pub or_else : Option ℕ → Option ℕ → Option ℕ
or_else none line = line
or_else (some line) other = some line

-- the states behind the two branches, joined
unfoldable pub join : ReentrancyVisitor → ReentrancyVisitor → ReentrancyVisitor → ReentrancyVisitor
join s then_visitor else_visitor = record {
  wrote = then_visitor.wrote || else_visitor.wrote;
  re_read_after_write = then_visitor.re_read_after_write && else_visitor.re_read_after_write;
  invoke_after_write_line =
      or_else s.invoke_after_write_line
        (or_else then_visitor.invoke_after_write_line else_visitor.invoke_after_write_line);
}

-- The walk, with `visit_expr_method_call` and `visit_expr_if` as the visitor overrides them: the
-- latter goes through the two branches, and not through the condition.
unfoldable mutual
  unfolding on_call join

  pub visit_expr : Expr → ReentrancyVisitor → ReentrancyVisitor
  visit_expr (path_expr l p) s = s
  visit_expr (lit l t) s = s
  visit_expr (method_call l r m args) s =
      visit_exprs args
        (visit_expr r (on_call s (record { line = l; receiver = r; method = m; args = args })))
  visit_expr (call l f args) s = visit_exprs args (visit_expr f s)
  visit_expr (field l b m) s = visit_expr b s
  visit_expr (index l b p) s = visit_expr p (visit_expr b s)
  visit_expr (reference l e) s = visit_expr e s
  visit_expr (paren l e) s = visit_expr e s
  visit_expr (binary l op a b) s = visit_expr b (visit_expr a s)
  visit_expr (macro_call l m) s = s
  visit_expr (if_expr l c t e) s = join s (visit_block t s) (visit_else e s)
  visit_expr (loop_expr l k ps) s = visit_parts ps s
  visit_expr (other_expr l ps) s = visit_parts ps s

  pub visit_exprs : Exprs → ReentrancyVisitor → ReentrancyVisitor
  visit_exprs no_args s = s
  visit_exprs (arg e es) s = visit_exprs es (visit_expr e s)

  pub visit_else : Else → ReentrancyVisitor → ReentrancyVisitor
  visit_else no_else s = s
  visit_else (else_expr e) s = visit_expr e s

  pub visit_stmt : Stmt → ReentrancyVisitor → ReentrancyVisitor
  visit_stmt (local p i d) s = visit_else d (visit_else i s)
  visit_stmt (expr_stmt e) s = visit_expr e s
  visit_stmt (macro_stmt m) s = s
  visit_stmt (item_stmt ps) s = visit_parts ps s

  pub visit_block : Stmts → ReentrancyVisitor → ReentrancyVisitor
  visit_block no_stmts s = s
  visit_block (stmt st ss) s = visit_block ss (visit_stmt st s)

  pub visit_parts : Parts → ReentrancyVisitor → ReentrancyVisitor
  visit_parts no_parts s = s
  visit_parts (expr_part e ps) s = visit_parts ps (visit_expr e s)
  visit_parts (block_part b ps) s = visit_parts ps (visit_block b s)
  visit_parts (macro_part m ps) s = visit_parts ps s

abbrev pub risk_finding : Method → ℕ → Finding
risk_finding method line =
    let fn_name = method.ident in
    record {
      check_name = Names.reentrancy_risk;
      severity = high;
      file_path = "";
      line = line;
      function_name = fn_name;
      description =
          "Method `"
          <> (fn_name
              <> "` calls `invoke_contract` after a storage write. The callee is an untrusted contract that may re-enter this contract before state is finalised. Perform all external calls before writing storage (checks-effects-interactions) or re-read state after the call.");
      rule_url = docs "reentrancy-risk-high";
      suggestion = some (
          "Move all `env.storage().*.set(…)` calls in `"
          <> (fn_name
              <> "` to *after* the `invoke_contract` call (checks-effects-interactions pattern), or re-read and re-validate state immediately after the external call returns."));
    }

abbrev pub report : Method → Option ℕ → List Finding
report method none = []
report method (some line) = risk_finding method line ∷ []

unfoldable pub run_method : Method → List Finding
unfolding visit_block
run_method method = report method (visit_block method.block start).invoke_after_write_line

unfoldable pub run : Items → List Finding
unfolding run_method
run file = over_methods run_method file
