-- ===== src/Checks/Detectors/Tests/Guards.antt =====
-- Runs of the detectors for upgrades, mints and deployments.
use guard_cli.Prelude.{ℕ, ◌≡◌, refl, [], ◌∷◌, take}
use guard_cli.Checks.Ast.{Method}
use guard_cli.Checks.Syntax.{Expr, no_args, ident_pat, no_else, else_expr, local, Stmts, stmt}
use guard_cli.Checks.Syntax.Walk.{visit_block, calls_in, method_calls}
use guard_cli.Checks.Syntax.Util.{
  is_admin_var_name, env_param_name, receiver_chain_contains_storage,
}
use guard_cli.Checks.Detectors.Protected.{scan, on_call, new, is_valid_auth_call, admin_bound}
use guard_cli.Checks.Detectors.Protected.Laws.{
  GuardedBefore, upgrade_run_method-GuardedBefore, deployment_run_method-GuardedBefore,
}
use guard_cli.Checks.Detectors.Upgrade
use guard_cli.Checks.Detectors.Mint
use guard_cli.Checks.Detectors.Deployment
use guard_cli.Checks.Detectors.Tests.{
  named, no_arg_call, storage_call, body, authorize, method_of, lines_of,
}

-- `let admin = env.storage().persistent().get(key);` in front of other statements
abbrev with_admin : Stmts → Stmts
with_admin rest = stmt (local (ident_pat "admin") (else_expr (storage_call 4 "get")) no_else) rest

abbrev upgrading : Method
upgrading =
    record (method_of
      (with_admin (body (authorize 5 ∷ no_arg_call 6 (named "env") "invoke_wasm" ∷ [])))) {
        ident = "upgrade";
      }

abbrev deploy : ℕ → Expr
deploy line = no_arg_call line (named "env") "deployer"

abbrev deploying : Method
deploying = method_of (with_admin (body (authorize 5 ∷ deploy 6 ∷ [])))

upgrade_run_method-GuardedBefore_example : GuardedBefore is_admin_var_name upgrading 6
unfolding Upgrade.run_method visit_block calls_in Upgrade.is_invoke_wasm scan on_call new
    is_valid_auth_call env_param_name admin_bound is_admin_var_name
upgrade_run_method-GuardedBefore_example =
    upgrade_run_method-GuardedBefore upgrading 6 refl refl refl refl

deployment_run_method-GuardedBefore_example : GuardedBefore is_admin_var_name deploying 6
unfolding Deployment.run_method visit_block calls_in scan on_call new is_valid_auth_call
    env_param_name admin_bound is_admin_var_name
deployment_run_method-GuardedBefore_example =
    deployment_run_method-GuardedBefore deploying (take 4 (method_calls deploying.block)) []
      (record { line = 6; receiver = named "env"; method = "deployer"; args = no_args }) refl refl
      refl refl refl

unguarded_test :
    lines_of (
      Upgrade.run_method (record upgrading {
        block = body (no_arg_call 6 (named "env") "invoke_wasm" ∷ authorize 7 ∷ []);
      }))
    ≡ 6 ∷ []
unfolding lines_of Upgrade.run_method visit_block calls_in Upgrade.is_invoke_wasm scan on_call new
    is_valid_auth_call env_param_name admin_bound is_admin_var_name
unguarded_test = refl

-- A deployment in front of the check is not reported if another one follows the check.
last_deployment_test :
    (lines_of (Deployment.run_method (method_of (with_admin (body (deploy 5 ∷ authorize 6 ∷ [])))))
      ≡ 5 ∷ [])
    × (Deployment.run_method
          (method_of (with_admin (body (deploy 5 ∷ authorize 6 ∷ deploy 7 ∷ []))))
        ≡ [])
unfolding lines_of Deployment.run_method visit_block calls_in scan on_call new is_valid_auth_call
    env_param_name admin_bound is_admin_var_name
last_deployment_test = (refl, refl)

mint_test :
    lines_of
      (Mint.run_method (record (method_of (body (storage_call 4 "set" ∷ []))) { ident = "mint" }))
    ≡ 4 ∷ []
unfolding lines_of Mint.run_method visit_block calls_in Mint.is_storage_mutation
    receiver_chain_contains_storage scan on_call new is_valid_auth_call env_param_name admin_bound
    is_admin_var_name
mint_test = refl
