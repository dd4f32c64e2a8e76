-- ===== src/Checks/Detectors/Auth.antt =====
-- crates/checks/src/auth.rs: `missing-require-auth`.
pub mod Laws
use guard_cli.Prelude.{
  ℕ, String, Bool, true, false, not, ◌&&◌, ◌||◌, Option, none, some, List, [], ◌∷◌, if◌then◌else◌,
  ◌==◌, string_eq, contains,
}
use guard_cli.Prelude.Text.{◌<>◌, starts_with}
use guard_cli.Checks.Ast.{Items, Method}
use guard_cli.Checks.Finding.{high, Finding}
use guard_cli.Checks.Names
use guard_cli.Checks.Syntax.{
  Pat, ident_pat, typed_pat, other_pat, Expr, path_expr, method_call, Else, no_else, else_expr,
  Stmt, Stmts, local,
}
use guard_cli.Checks.Syntax.Walk.{Visited, at_stmt, at_expr, visit_block, MethodCall, method_calls}
use guard_cli.Checks.Syntax.Util.{
  is_storage_mutation_call, receiver_is_auth_gate, type_is_address, env_param_name,
  address_param_names, or_env, or_line,
}
use guard_cli.Checks.Detectors.{docs, over_methods, first_line}

-- the names that a call is judged by: the `Env` parameter, the `Address` parameters and the locals
pub record Gates : Type 0 where
  pub env_name : String
  pub address_names : List String
  pub address_locals : List String

unfoldable pub is_env_require_auth : Gates → MethodCall → Bool
unfolding receiver_is_auth_gate
is_env_require_auth g m =
    contains ("require_auth" ∷ "require_auth_for_args" ∷ []) m.method
    && receiver_is_auth_gate m.receiver g.env_name g.address_names g.address_locals

-- `matches!(&*m.receiver, Expr::Path(_))`
abbrev pub is_path_expr : Expr → Bool
is_path_expr (path_expr line p) = true
is_path_expr _ = false

unfoldable pub is_auth_helper_method_call : Gates → MethodCall → Bool
unfolding is_env_require_auth starts_with
is_auth_helper_method_call g m =
    m.method == "assert_auth"
    || m.method == "check_auth"
    || starts_with m.method "require_auth"
      && not (is_env_require_auth g m)
      && not (is_path_expr m.receiver)

unfoldable pub address_local_binding : Pat → Option String
unfolding type_is_address
address_local_binding (typed_pat pat ty) =
    let inner = address_local_binding pat in if type_is_address ty then inner else none
address_local_binding (ident_pat name) = some name
address_local_binding other_pat = none

-- what a statement adds to the locals: a binding with a value
unfoldable pub bound_by : Stmt → List String
unfolding address_local_binding
bound_by (local pat (else_expr init) diverge) = elim (address_local_binding pat) [
  | none ↦ []
  | some name ↦ name ∷ []
]
bound_by _ = []

abbrev pub add_locals : List String → List String → List String
add_locals [] locals = locals
add_locals (n ∷ ns) locals = n ∷ add_locals ns locals

abbrev pub bind : Gates → Stmt → Gates
bind g s = record g { address_locals = add_locals (bound_by s) g.address_locals }

pub record FuncBodyScan : Type 0 where
  pub gates : Gates
  pub storage_write : Bool
  pub env_require_auth : Bool
  pub auth_helper_called : Bool

unfoldable pub new : Option String → List String → FuncBodyScan
new env_name address_names = record {
  gates = record { env_name = or_env env_name; address_names = address_names; address_locals = [] };
  storage_write = false;
  env_require_auth = false;
  auth_helper_called = false;
}

-- `visit_expr_method_call`, in front of the default walk
unfoldable pub on_call : FuncBodyScan → MethodCall → FuncBodyScan
unfolding is_storage_mutation_call is_env_require_auth is_auth_helper_method_call
on_call s m = record s {
  storage_write = s.storage_write || is_storage_mutation_call m;
  env_require_auth = s.env_require_auth || is_env_require_auth s.gates m;
  auth_helper_called = s.auth_helper_called || is_auth_helper_method_call s.gates m;
}

-- the overrides `visit_stmt` and `visit_expr_method_call`
unfoldable pub scan_visits : FuncBodyScan → List Visited → FuncBodyScan
unfolding on_call bound_by
scan_visits s [] = s
scan_visits s (at_stmt st ∷ vs) = scan_visits (record s { gates = bind s.gates st }) vs
scan_visits s (at_expr (method_call l r m args) ∷ vs) =
    scan_visits (on_call s (record { line = l; receiver = r; method = m; args = args })) vs
scan_visits s (_ ∷ vs) = scan_visits s vs

unfoldable pub first_storage_write_line : Stmts → Option ℕ
unfolding first_line is_storage_mutation_call
first_storage_write_line block = first_line is_storage_mutation_call (method_calls block)

abbrev pub missing_auth_finding : Method → Finding
missing_auth_finding method =
    let fn_name = method.ident in
    let env_name = or_env (env_param_name method.inputs) in
    record {
      check_name = Names.missing_require_auth;
      severity = high;
      file_path = "";
      line = or_line (first_storage_write_line method.block) method.ident_line;
      function_name = fn_name;
      description =
          "Method `"
          <> (fn_name
              <> ("` writes to `"
                  <> (env_name
                      <> (".storage()` but does not call `"
                          <> (env_name
                              <> ".require_auth()`. Callers may mutate contract state without proving they are authorized.")))));
      rule_url = docs "missing-require-auth-high";
      suggestion = some (
          "Add `"
          <> (env_name <> ".require_auth();` as the first statement in the function body."));
    }

abbrev pub scan_method : Method → FuncBodyScan
scan_method method =
    scan_visits (new (env_param_name method.inputs) (address_param_names method.inputs))
      (visit_block method.block)

unfoldable pub run_method : Method → List Finding
unfolding scan_visits new first_storage_write_line env_param_name address_param_names
run_method method =
    let scan = scan_method method in
    if not scan.storage_write || scan.env_require_auth || scan.auth_helper_called
    then []
    else missing_auth_finding method ∷ []

unfoldable pub run : Items → List Finding
unfolding run_method
run file = over_methods run_method file
