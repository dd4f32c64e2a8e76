-- ===== src/Checks/Detectors/AuthOrder.antt =====
-- crates/checks/src/auth_order.rs: `auth-after-storage-write`. The file has copies of helpers of
-- util.rs and auth.rs, word for word; here they are those modules' own.
pub mod Laws
use guard_cli.Prelude.{ℕ, String, Bool, Option, none, some, List, [], ◌∷◌, if◌then◌else◌, ltb}
use guard_cli.Prelude.Text.{◌<>◌}
use guard_cli.Prelude.Decimal.{decimal}
use guard_cli.Checks.Ast.{Items, Method}
use guard_cli.Checks.Finding.{high, Finding}
use guard_cli.Checks.Names
use guard_cli.Checks.Syntax.{method_call, Stmts}
use guard_cli.Checks.Syntax.Walk.{Visited, at_stmt, at_expr, visit_block, MethodCall}
use guard_cli.Checks.Syntax.Util.{env_param_name, address_param_names, or_env}
use guard_cli.Checks.Detectors.{docs, over_methods}
use guard_cli.Checks.Detectors.Auth.{
  Gates, is_env_require_auth, bound_by, bind, first_storage_write_line,
}

-- the visitor `FirstRequireAuth`
pub record FirstRequireAuth : Type 0 where
  pub line : Option ℕ
  pub gates : Gates

abbrev pub set_line : Option ℕ → Bool → ℕ → Option ℕ
set_line none found line = if found then some line else none
set_line (some l) found line = some l

unfoldable pub auth_visits : FirstRequireAuth → List Visited → FirstRequireAuth
unfolding is_env_require_auth bound_by
auth_visits s [] = s
auth_visits s (at_stmt st ∷ vs) = auth_visits (record s { gates = bind s.gates st }) vs
auth_visits s (at_expr (method_call l r m args) ∷ vs) =
    let call : MethodCall = record { line = l; receiver = r; method = m; args = args } in
    auth_visits (record s { line = set_line s.line (is_env_require_auth s.gates call) l }) vs
auth_visits s (_ ∷ vs) = auth_visits s vs

unfoldable pub first_require_auth_line : Stmts → String → List String → Option ℕ
unfolding auth_visits
first_require_auth_line block env_name address_names =
    (auth_visits
      (record {
        line = none;
        gates = record { env_name = env_name; address_names = address_names; address_locals = [] };
      })
      (visit_block block)).line

abbrev pub order_finding : Method → ℕ → ℕ → Finding
order_finding method write auth =
    let fn_name = method.ident in
    record {
      check_name = Names.auth_after_storage_write;
      severity = high;
      file_path = "";
      line = write;
      function_name = fn_name;
      description =
          "Method `"
          <> (fn_name
              <> ("` calls `require_auth()` on line "
                  <> (decimal auth
                      <> (" but already wrote to storage on line "
                          <> (decimal write
                              <> ". State was mutated before the caller was authorized.")))));
      rule_url = docs "auth-after-storage-write-high";
      suggestion =
          some ("Move the `require_auth()` call to the very first line of `" <> (fn_name <> "`."));
    }

-- the `if let` on the two lines, and the comparison
abbrev pub compare_lines : Method → Option ℕ → Option ℕ → List Finding
compare_lines method (some write) (some auth) =
    if ltb write auth then order_finding method write auth ∷ [] else []
compare_lines method _ _ = []

unfoldable pub run_method : Method → List Finding
unfolding first_require_auth_line first_storage_write_line env_param_name address_param_names
run_method method = compare_lines method (first_storage_write_line method.block) (
    first_require_auth_line method.block (or_env (env_param_name method.inputs))
      (address_param_names method.inputs))

unfoldable pub run : Items → List Finding
unfolding run_method
run file = over_methods run_method file
