-- ===== src/Checks/Detectors/Mint.antt =====
-- crates/checks/src/unprotected_token_mint.rs: `unprotected-token-mint`.
use guard_cli.Prelude.{
  ℕ, String, Bool, ◌&&◌, ◌||◌, Option, some, List, [], ◌∷◌, if◌then◌else◌, string_eq, contains,
}
use guard_cli.Prelude.Text.{◌<>◌, includes}
use guard_cli.Prelude.Lowercase.{to_lowercase}
use guard_cli.Checks.Ast.{Items, Method}
use guard_cli.Checks.Finding.{high, Finding}
use guard_cli.Checks.Names
use guard_cli.Checks.Syntax.{Stmts}
use guard_cli.Checks.Syntax.Walk.{MethodCall, method_calls}
use guard_cli.Checks.Syntax.Util.{receiver_chain_contains_storage, or_line}
use guard_cli.Checks.Detectors.{docs, over_methods, first_line}
use guard_cli.Checks.Detectors.Protected.{valid_auth_line, is_unprotected}

unfoldable pub is_mint_name : String → Bool
is_mint_name name = contains ("mint" ∷ "burn" ∷ "issue" ∷ "redeem" ∷ "create_tokens" ∷ []) name

unfoldable pub is_storage_mutation : MethodCall → Bool
unfolding receiver_chain_contains_storage
is_storage_mutation m =
    contains ("set" ∷ "remove" ∷ "extend_ttl" ∷ "bump" ∷ "append" ∷ []) m.method
    && receiver_chain_contains_storage m.receiver

unfoldable pub first_storage_mutation_line : Stmts → Option ℕ
unfolding first_line is_storage_mutation
first_storage_mutation_line block = first_line is_storage_mutation (method_calls block)

-- the names that this file counts as an admin's
unfoldable pub is_authority_name : String → Bool
unfolding to_lowercase includes
is_authority_name name =
    includes (to_lowercase name) "admin" || includes (to_lowercase name) "authority"

abbrev pub mint_finding : Method → Option ℕ → Finding
mint_finding method sensitive_line = record {
  check_name = Names.unprotected_token_mint;
  severity = high;
  file_path = "";
  line = or_line sensitive_line method.fn_line;
  function_name = method.ident;
  description =
      "Mint/burn method `"
      <> (method.ident <> "` lacks valid require_auth protection before the sensitive operation");
  rule_url = docs "unprotected-token-mint-high";
  suggestion =
      some
        "Add env.require_auth() before the mint/burn operation to restrict it to authorized callers";
}

unfoldable pub run_method : Method → List Finding
unfolding is_mint_name first_storage_mutation_line valid_auth_line
run_method method =
    let sensitive_line = first_storage_mutation_line method.block in
    if is_mint_name method.ident
      && method.is_public
      && is_unprotected sensitive_line (valid_auth_line is_authority_name method)
    then mint_finding method sensitive_line ∷ []
    else []

unfoldable pub run : Items → List Finding
unfolding run_method
run file = over_methods run_method file
