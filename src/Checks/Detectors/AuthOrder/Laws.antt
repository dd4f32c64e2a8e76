-- ===== src/Checks/Detectors/AuthOrder/Laws.antt =====
-- How the detectors of crates/checks/src/auth_order.rs and auth.rs share the methods.
use guard_cli.Prelude.{
  ℕ, ◌≡◌, refl, ap, ◌∙◌, ◌⊎◌, Bool, false, ◌||◌, Option, none, some, List, [], ◌∷◌, inl, inr,
  Bool-cases, arith, is_some,
}
use guard_cli.Checks.Ast.{Method}
use guard_cli.Checks.Syntax.{method_call}
use guard_cli.Checks.Syntax.Walk.{Visited, at_stmt, at_expr, visit_block, MethodCall}
use guard_cli.Checks.Syntax.Util.{env_param_name, address_param_names, or_env}
use guard_cli.Checks.Detectors.Auth.{
  is_env_require_auth, bind, FuncBodyScan, new, on_call, scan_visits, run_method as auth_run_method,
}
use guard_cli.Checks.Detectors.AuthOrder.{
  FirstRequireAuth, auth_visits, set_line, compare_lines, first_require_auth_line, run_method,
}

set_line-found : (o : Option ℕ) (b : Bool) (l : ℕ) → is_some (set_line o b l) ≡ (is_some o || b)
set_line-found none b l = ground arith
set_line-found (some k) b l = refl

-- The two visitors agree on whether there is a `require_auth`.
auth_visits-found :
    (s : FirstRequireAuth) (f : FuncBodyScan) (vs : List Visited)
    → s.gates ≡ f.gates
    → is_some s.line ≡ f.env_require_auth
    → is_some (auth_visits s vs).line ≡ (scan_visits f vs).env_require_auth
unfolding auth_visits scan_visits on_call
auth_visits-found s f [] g h = h
auth_visits-found s f (at_stmt st ∷ vs) g h =
    auth_visits-found (record s { gates = bind s.gates st }) (record f { gates = bind f.gates st })
      vs (ap (λ x. bind x st) g) h
auth_visits-found s f (at_expr (method_call l r m args) ∷ vs) g h =
    let c : MethodCall = record { line = l; receiver = r; method = m; args = args } in
    auth_visits-found (record s { line = set_line s.line (is_env_require_auth s.gates c) l })
      (on_call f c) vs g
      (set_line-found s.line (is_env_require_auth s.gates c) l
        ∙ (ap (λ b. b || is_env_require_auth s.gates c) h
            ∙ ap (λ x. f.env_require_auth || is_env_require_auth x c) g))
auth_visits-found s f (_ ∷ vs) g h = auth_visits-found s f vs g h

compare_lines-none :
    (method : Method) (write auth : Option ℕ)
    → is_some auth ≡ false
    → compare_lines method write auth ≡ []
compare_lines-none method none auth h = refl
compare_lines-none method (some w) none h = refl
compare_lines-none method (some w) (some a) h = cc

-- No method is reported for a missing `require_auth` and also for one behind a write.
pub auth_findings-disjoint :
    (method : Method) → (auth_run_method method ≡ []) ⊎ (run_method method ≡ [])
unfolding auth_run_method run_method first_require_auth_line new
auth_findings-disjoint method =
    let found =
      auth_visits-found
        (record {
          line = none;
          gates = record {
            env_name = or_env (env_param_name method.inputs);
            address_names = address_param_names method.inputs;
            address_locals = [];
          };
        })
        (new (env_param_name method.inputs) (address_param_names method.inputs))
        (visit_block method.block) refl refl in
    let env_found =
      (scan_visits (new (env_param_name method.inputs) (address_param_names method.inputs))
        (visit_block method.block)).env_require_auth in
    elim (Bool-cases env_found) [
      | inl e ↦ inl (ground (arith, e))
      | inr e ↦ inr (compare_lines-none method _ _ (found ∙ e))
    ]
