-- ===== src/Checks/Detectors/Deployment.antt =====
-- crates/checks/src/unprotected_contract_deployment.rs: `unprotected-contract-deployment`.
use guard_cli.Prelude.{
  ℕ, Bool, true, false, ◌&&◌, some, List, [], ◌∷◌, if◌then◌else◌, ◌==◌, string_eq,
}
use guard_cli.Checks.Ast.{Items, Method}
use guard_cli.Checks.Finding.{high, Finding}
use guard_cli.Checks.Names
use guard_cli.Checks.Syntax.{Stmts}
use guard_cli.Checks.Syntax.Walk.{MethodCall, method_calls}
use guard_cli.Checks.Syntax.Util.{is_admin_var_name}
use guard_cli.Checks.Detectors.{docs, over_methods}
use guard_cli.Checks.Detectors.Protected.{valid_auth_line, is_unprotected}

pub record DeployerVisitor : Type 0 where
  pub found_deployer : Bool
  pub line : ℕ

-- The line is that of the last call, not of the first.
unfoldable pub deployer_calls : DeployerVisitor → List MethodCall → DeployerVisitor
deployer_calls v [] = v
deployer_calls v (m ∷ ms) =
    deployer_calls
      (if m.method == "deployer" then record { found_deployer = true; line = m.line } else v) ms

unfoldable pub has_deployer_call : Stmts → DeployerVisitor
unfolding deployer_calls
has_deployer_call block =
    deployer_calls (record { found_deployer = false; line = 0 }) (method_calls block)

abbrev pub deployment_finding : Method → ℕ → Finding
deployment_finding method line = record {
  check_name = Names.unprotected_contract_deployment;
  severity = high;
  file_path = "";
  line = line;
  function_name = method.ident;
  description = "Contract deployment call lacks valid require_auth protection";
  rule_url = docs "unprotected-contract-deployment-high";
  suggestion = some "Add env.require_auth() before deployment operations";
}

unfoldable pub run_method : Method → List Finding
unfolding has_deployer_call valid_auth_line
run_method method =
    let v = has_deployer_call method.block in
    if method.is_public
      && v.found_deployer
      && is_unprotected (some v.line) (valid_auth_line is_admin_var_name method)
    then deployment_finding method v.line ∷ []
    else []

unfoldable pub run : Items → List Finding
unfolding run_method
run file = over_methods run_method file
