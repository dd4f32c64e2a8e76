-- ===== src/Checks/Detectors/Auth/Laws.antt =====
-- What the scan of crates/checks/src/auth.rs finds, against the calls of the body and the locals that
-- are bound in front of each.
use guard_cli.Prelude.{◌≡◌, Bool, false, not, ◌&&◌, ◌||◌, List, [], ◌∷◌, if◌then◌else◌, any, arith}
use guard_cli.Checks.Ast.{Method}
use guard_cli.Checks.Syntax.{method_call}
use guard_cli.Checks.Syntax.Walk.{
  Visited, at_stmt, at_expr, visit_block, MethodCall, calls_in, method_calls,
}
use guard_cli.Checks.Syntax.Util.{is_storage_mutation_call, env_param_name, address_param_names}
use guard_cli.Checks.Detectors.Auth.{
  Gates, is_env_require_auth, is_auth_helper_method_call, bind, FuncBodyScan, new, on_call,
  scan_visits, missing_auth_finding, run_method,
}

-- a call, as a node of the walk
abbrev pub at_call : MethodCall → Visited
at_call m = at_expr (method_call m.line m.receiver m.method m.args)

-- the names that a call behind these nodes is judged by
abbrev pub gates_behind : Gates → List Visited → Gates
gates_behind g [] = g
gates_behind g (at_stmt st ∷ vs) = gates_behind (bind g st) vs
gates_behind g (_ ∷ vs) = gates_behind g vs

-- a call that proves that somebody is authorized
abbrev pub is_gate : Gates → MethodCall → Bool
is_gate g m = is_env_require_auth g m || is_auth_helper_method_call g m

-- whether a node is such a call
abbrev pub gate_at : Gates → Visited → Bool
gate_at g (at_expr (method_call l r m args)) =
    is_gate g (record { line = l; receiver = r; method = m; args = args })
gate_at g _ = false

abbrev pub any_gate : Gates → List Visited → Bool
any_gate g [] = false
any_gate g (v ∷ vs) = gate_at g v || any_gate (gates_behind g (v ∷ [])) vs

abbrev pub gate_found : FuncBodyScan → Bool
gate_found s = s.env_require_auth || s.auth_helper_called

pub scan_visits-writes :
    (s : FuncBodyScan) (vs : List Visited)
    → (scan_visits s vs).storage_write
      ≡ (s.storage_write || any is_storage_mutation_call (calls_in vs))
unfolding scan_visits calls_in on_call
scan_visits-writes s [] = ground arith
scan_visits-writes s (at_stmt st ∷ vs) =
    scan_visits-writes (record s { gates = bind s.gates st }) vs
scan_visits-writes s (at_expr (method_call l r m args) ∷ vs) = ground (
  arith,
  scan_visits-writes (on_call s (record { line = l; receiver = r; method = m; args = args })) vs,
)
scan_visits-writes s (_ ∷ vs) = scan_visits-writes s vs

pub scan_visits-gates :
    (s : FuncBodyScan) (vs : List Visited)
    → gate_found (scan_visits s vs) ≡ (gate_found s || any_gate s.gates vs)
unfolding scan_visits on_call
scan_visits-gates s [] = ground arith
scan_visits-gates s (at_stmt st ∷ vs) = scan_visits-gates (record s { gates = bind s.gates st }) vs
scan_visits-gates s (at_expr (method_call l r m args) ∷ vs) = ground (
  arith,
  scan_visits-gates (on_call s (record { line = l; receiver = r; method = m; args = args })) vs,
)
scan_visits-gates s (_ ∷ vs) = scan_visits-gates s vs

abbrev pub start : Method → FuncBodyScan
start method = new (env_param_name method.inputs) (address_param_names method.inputs)

abbrev pub any_gate_in : Method → Bool
any_gate_in method = any_gate (start method).gates (visit_block method.block)

pub auth_run_method_lem :
    (method : Method)
    → run_method method ≡ (
        if any is_storage_mutation_call (method_calls method.block) && not (any_gate_in method)
        then missing_auth_finding method ∷ []
        else [])
unfolding run_method
auth_run_method_lem method = ground (
  arith,
  scan_visits-writes (start method) (visit_block method.block),
  scan_visits-gates (start method) (visit_block method.block),
)
