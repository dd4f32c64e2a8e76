-- ===== src/Checks/Detectors/Upgrade.antt =====
-- crates/checks/src/unprotected_upgrade.rs: `unprotected-upgrade`.
use guard_cli.Prelude.{
  ℕ, String, Bool, ◌&&◌, Option, some, List, [], ◌∷◌, if◌then◌else◌, ◌==◌, string_eq, contains,
}
use guard_cli.Prelude.Text.{◌<>◌}
use guard_cli.Checks.Ast.{Items, Method}
use guard_cli.Checks.Finding.{high, Finding}
use guard_cli.Checks.Names
use guard_cli.Checks.Syntax.{Stmts}
use guard_cli.Checks.Syntax.Walk.{MethodCall, method_calls}
use guard_cli.Checks.Syntax.Util.{is_admin_var_name, or_line}
use guard_cli.Checks.Detectors.{docs, over_methods, first_line}
use guard_cli.Checks.Detectors.Protected.{valid_auth_line, is_unprotected}

unfoldable pub is_sensitive_name : String → Bool
is_sensitive_name name = contains ("upgrade" ∷ "migrate" ∷ "set_wasm" ∷ "replace_wasm" ∷ []) name

unfoldable pub is_invoke_wasm : MethodCall → Bool
is_invoke_wasm m = m.method == "invoke_wasm"

unfoldable pub first_invoke_wasm_line : Stmts → Option ℕ
unfolding first_line is_invoke_wasm
first_invoke_wasm_line block = first_line is_invoke_wasm (method_calls block)

abbrev pub upgrade_finding : Method → Option ℕ → Finding
upgrade_finding method sensitive_line = record {
  check_name = Names.unprotected_upgrade;
  severity = high;
  file_path = "";
  line = or_line sensitive_line method.fn_line;
  function_name = method.ident;
  description =
      "Upgrade/migrate method `"
      <> (method.ident <> "` lacks valid require_auth protection before the sensitive operation");
  rule_url = docs "unprotected-upgrade-high";
  suggestion = some "Add env.require_auth() at the start";
}

unfoldable pub run_method : Method → List Finding
unfolding is_sensitive_name first_invoke_wasm_line valid_auth_line
run_method method =
    let sensitive_line = first_invoke_wasm_line method.block in
    if is_sensitive_name method.ident
      && method.is_public
      && is_unprotected sensitive_line (valid_auth_line is_admin_var_name method)
    then upgrade_finding method sensitive_line ∷ []
    else []

unfoldable pub run : Items → List Finding
unfolding run_method
run file = over_methods run_method file
