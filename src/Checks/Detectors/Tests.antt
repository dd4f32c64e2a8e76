-- ===== src/Checks/Detectors/Tests.antt =====
-- Runs of the detectors on small methods.
mod Examples
mod Guards
mod Branches
use guard_cli.Prelude.{
  ℕ, String, ◌≡◌, refl, ◌⊎◌, inl, inr, Bool, true, not, ◌&&◌, Option, none, some, List, [], ◌∷◌,
  map, flat, any, all, retain, contains, is_empty, if◌then◌else◌, ◌==◌, string_eq,
}
use guard_cli.Checks.Ast.{Method, ImplItem, fn_item, ItemImpl, Item, Items, impl_block, nil, cons}
use guard_cli.Checks.Finding.{Finding}
use guard_cli.Checks.Registry.{name, missing_require_auth_check}
use guard_cli.Checks.Syntax.{
  SynPath, SynType, path_type, Pat, ident_pat, other_pat, FnArg, typed_arg, Expr, path_expr, lit,
  method_call, binary, if_expr, Exprs, no_args, arg, no_else, else_expr, BinOp, add, div, Stmt,
  expr_stmt, Stmts, no_stmts, stmt,
}
use guard_cli.Checks.Syntax.Walk.{visit_block, calls_in, method_calls, binaries}
use guard_cli.Checks.Syntax.Util.{is_storage_mutation_call, receiver_chain_contains_storage, or_env}
use guard_cli.Checks.Detectors.Auth
use guard_cli.Checks.Detectors.AuthOrder
use guard_cli.Checks.Detectors.AuthOrder.Laws.{auth_findings-disjoint}
use guard_cli.Checks.Detectors.Reentrancy
use guard_cli.Checks.Detectors.Events
use guard_cli.Checks.Detectors.Events.Laws.{
  at_first_write, events_run_method-reports, admin_change-missing_event,
}
use guard_cli.Checks.Detectors.AdminChange
use guard_cli.Checks.Detectors.Ttl
use guard_cli.Checks.Detectors.Ttl.Laws.{mutations_of, extensions_of, ttl_run_method-reports}
use guard_cli.Checks.Detectors.Delegate
use guard_cli.Checks.Detectors.Delegate.Laws.{delegate_run_method-reports}
use guard_cli.Checks.Detectors.Overflow
use guard_cli.Checks.Detectors.Overflow.Laws.{reported, overflow_run_method-reports}
use guard_cli.Checks.Detectors.Address.Keys.{find_candidate_keys}
use guard_cli.Checks.Detectors.Address.Boundaries.{is_key, Holds}
use guard_cli.Checks.Detectors.Address.Exact.{find_candidate_keys-exact}

abbrev pub ident : String → SynPath
ident s = record { segments = s ∷ []; get_ident = some s }

abbrev pub named : String → Expr
named s = path_expr 1 (ident s)

abbrev pub no_arg_call : ℕ → Expr → String → Expr
no_arg_call line receiver method = method_call line receiver method no_args

-- `env.storage().persistent()`
abbrev pub persistent : ℕ → Expr
persistent line = no_arg_call line (no_arg_call line (named "env") "storage") "persistent"

abbrev pub storage_call : ℕ → String → Expr
storage_call line method = method_call line (persistent line) method (arg (named "key") no_args)

abbrev pub invoke : ℕ → Expr
invoke line = no_arg_call line (named "env") "invoke_contract"

abbrev pub authorize : ℕ → Expr
authorize line = no_arg_call line (named "admin") "require_auth"

abbrev pub body : List Expr → Stmts
body [] = no_stmts
body (e ∷ es) = stmt (expr_stmt e) (body es)

-- `pub fn set_owner(env: Env, admin: Address)` with a body
abbrev pub method_of : Stmts → Method
method_of block = record {
  ident = "set_owner";
  ident_line = 3;
  fn_line = 3;
  is_public = true;
  inputs =
      typed_arg (ident_pat "env") (path_type (ident "Env"))
      ∷ typed_arg (ident_pat "admin") (path_type (ident "Address"))
      ∷ [];
  span = record { start_line = 3; end_line = 9 };
  block = block;
  block_end_line = 9;
}

abbrev pub unauthorized : Method
unauthorized = method_of (body (storage_call 4 "set" ∷ invoke 5 ∷ []))

abbrev authorized_late : Method
authorized_late = method_of (body (storage_call 4 "set" ∷ authorize 5 ∷ []))

auth_findings-disjoint_example :
    (Auth.run_method authorized_late ≡ []) ⊎ (AuthOrder.run_method authorized_late ≡ [])
auth_findings-disjoint_example = auth_findings-disjoint authorized_late

unfoldable pub lines_of : List Finding → List ℕ
lines_of fs = map (λ (f : Finding). f.line) fs

auth_test : lines_of (Auth.run_method unauthorized) ≡ 4 ∷ []
unfolding lines_of Auth.run_method visit_block calls_in
auth_test = refl

late_test :
    (Auth.run_method authorized_late ≡ [])
    × (lines_of (AuthOrder.run_method authorized_late) ≡ 4 ∷ [])
unfolding lines_of Auth.run_method AuthOrder.run_method visit_block calls_in
late_test = (refl, refl)

events_run_method-reports_example : Events.run_method unauthorized ≡ (
    if any Events.is_storage_mutation_call (method_calls unauthorized.block)
      && not (any Events.is_event_publish_call (method_calls unauthorized.block))
    then at_first_write unauthorized ∷ []
    else [])
events_run_method-reports_example = events_run_method-reports unauthorized

admin_change-missing_event_example :
    Events.run_method unauthorized ≡ at_first_write unauthorized ∷ []
unfolding AdminChange.run_method visit_block calls_in receiver_chain_contains_storage
admin_change-missing_event_example = admin_change-missing_event unauthorized refl

-- the text of a path or a literal, for `quote`
abbrev pub text_of : Expr → String
text_of (path_expr line p) = elim p.get_ident [ none ↦ "" | some i ↦ i ]
text_of (lit line text) = text
text_of _ = "expr"

ttl_run_method-reports_example :
    Ttl.run_method text_of unauthorized
    ≡ map
        (λ (e : String × ℕ). Ttl.ttl_finding text_of unauthorized.ident e.1)
        (retain
          (λ (e : String × ℕ).
            not
              (contains (flat (map (extensions_of text_of) (method_calls unauthorized.block))) e.0))
          (flat (map (mutations_of text_of) (method_calls unauthorized.block))))
ttl_run_method-reports_example = ttl_run_method-reports text_of unauthorized

ttl_test :
    (lines_of (Ttl.run_method text_of unauthorized) ≡ 4 ∷ [])
    × (Ttl.run_method text_of
          (method_of (body (storage_call 4 "set" ∷ storage_call 5 "extend_ttl" ∷ [])))
        ≡ [])
unfolding lines_of Ttl.run_method visit_block calls_in
ttl_test = (refl, refl)

abbrev delegating : Method
delegating = method_of (body (storage_call 4 "get" ∷ invoke 5 ∷ invoke 6 ∷ []))

delegate_run_method-reports_example :
    is_empty (Delegate.run_method delegating)
    ≡ not (
        any Delegate.is_storage_read (method_calls delegating.block)
        && any
            (Delegate.is_env_invoke (or_env (Delegate.env_param_name delegating.inputs)))
            (method_calls delegating.block))
delegate_run_method-reports_example = delegate_run_method-reports delegating

delegate_test : lines_of (Delegate.run_method delegating) ≡ 5 ∷ []
unfolding lines_of Delegate.run_method visit_block receiver_chain_contains_storage
    Delegate.is_invoke_or_try_call Delegate.is_env_receiver
delegate_test = refl
