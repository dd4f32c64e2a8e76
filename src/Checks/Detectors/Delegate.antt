-- ===== src/Checks/Detectors/Delegate.antt =====
-- crates/checks/src/delegate.rs: `delegate-call-risk`.
pub mod Laws
use guard_cli.Prelude.{
  ℕ, String, Bool, true, false, ◌&&◌, ◌||◌, Option, none, some, List, [], ◌∷◌, if◌then◌else◌, ◌==◌,
  string_eq, contains,
}
use guard_cli.Prelude.Text.{◌<>◌}
use guard_cli.Checks.Ast.{Items, Method}
use guard_cli.Checks.Finding.{high, Finding}
use guard_cli.Checks.Names
use guard_cli.Checks.Syntax.{
  SynType, reference_type, FnArg, receiver_arg, typed_arg, ident_pat, Expr, path_expr, method_call,
}
use guard_cli.Checks.Syntax.Walk.{Visited, at_expr, visit_block, MethodCall}
use guard_cli.Checks.Syntax.Util.{
  receiver_chain_contains_storage, type_is_env, arg_name, path_is, or_env,
}
use guard_cli.Checks.Detectors.{docs, over_methods}

unfoldable pub is_invoke_or_try_call : MethodCall → Bool
is_invoke_or_try_call m = contains ("invoke_contract" ∷ "try_call" ∷ []) m.method

unfoldable pub is_env_receiver : Expr → String → Bool
is_env_receiver (path_expr line p) env_ident = path_is p env_ident
is_env_receiver _ env_ident = false

-- the type, or what a reference type points to
abbrev pub type_or_referent_is_env : SynType → Bool
type_or_referent_is_env (reference_type inner) = type_is_env inner
type_or_referent_is_env ty = type_is_env ty

-- This file's own `env_param_name`: it looks through a reference.
unfoldable pub env_param_name : List FnArg → Option String
unfolding type_is_env
env_param_name [] = none
env_param_name (a ∷ inputs) =
    let rest = env_param_name inputs in
    elim (arg_name type_or_referent_is_env a) [ some name ↦ some name | none ↦ rest ]

pub record DelegateVisitor : Type 0 where
  pub has_storage_read : Bool
  pub last_invoke_contract_line : Option ℕ
  pub env_ident : String

abbrev pub is_storage_read : MethodCall → Bool
is_storage_read m = receiver_chain_contains_storage m.receiver && m.method == "get"

abbrev pub is_env_invoke : String → MethodCall → Bool
is_env_invoke env_ident m = is_invoke_or_try_call m && is_env_receiver m.receiver env_ident

-- `visit_expr_method_call`, in front of the default walk
unfoldable pub on_call : DelegateVisitor → MethodCall → DelegateVisitor
on_call s m = record s {
  has_storage_read = s.has_storage_read || is_storage_read m;
  last_invoke_contract_line =
      if is_env_invoke s.env_ident m then some m.line else s.last_invoke_contract_line;
}

-- the guard of `visit_expr`
abbrev pub is_done : Bool → Option ℕ → Bool
is_done true (some line) = true
is_done _ _ = false

-- Once the guard holds it keeps holding, so that no node behind it, its children included, has an
-- effect.
unfoldable pub delegate_visits : DelegateVisitor → List Visited → DelegateVisitor
unfolding on_call
delegate_visits s [] = s
delegate_visits s (at_expr (method_call l r m args) ∷ vs) =
    delegate_visits
      (if is_done s.has_storage_read s.last_invoke_contract_line
        then s
        else on_call s (record { line = l; receiver = r; method = m; args = args }))
      vs
delegate_visits s (_ ∷ vs) = delegate_visits s vs

abbrev pub delegate_finding : String → ℕ → Finding
delegate_finding fn_name line = record {
  check_name = Names.delegate_call_risk;
  severity = high;
  file_path = "";
  line = line;
  function_name = fn_name;
  description =
      "Method `"
      <> (fn_name
          <> "` reads from storage and calls `env.invoke_contract`/`env.try_call`. If storage can be poisoned (e.g., via upgrade or temp-storage race), the call can be redirected to an attacker-controlled contract.");
  rule_url = docs "delegate-call-risk-high";
  suggestion =
      some
        "Pass the callee address as a verified parameter or store it under an admin-controlled key; call `caller.require_auth()` before using any storage-derived address in `env.invoke_contract`.";
}

abbrev pub report : String → Bool → Option ℕ → List Finding
report fn_name true (some line) = delegate_finding fn_name line ∷ []
report fn_name _ _ = []

abbrev pub start : Method → DelegateVisitor
start method = record {
  has_storage_read = false;
  last_invoke_contract_line = none;
  env_ident = or_env (env_param_name method.inputs);
}

unfoldable pub run_method : Method → List Finding
unfolding delegate_visits env_param_name
run_method method =
    let v = delegate_visits (start method) (visit_block method.block) in
    report method.ident v.has_storage_read v.last_invoke_contract_line

unfoldable pub run : Items → List Finding
unfolding run_method
run file = over_methods run_method file
