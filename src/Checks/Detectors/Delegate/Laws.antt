-- ===== src/Checks/Detectors/Delegate/Laws.antt =====
-- What crates/checks/src/delegate.rs reports: the guard of its visitor changes no verdict.
use guard_cli.Prelude.{
  ℕ, String, ◌≡◌, refl, ap, ◌∙◌, Bool, true, false, not, ◌&&◌, ◌||◌, Option, none, some, List, [],
  ◌∷◌, if◌then◌else◌, any, arith, is_some, is_empty,
}
use guard_cli.Checks.Ast.{Method}
use guard_cli.Checks.Syntax.{method_call}
use guard_cli.Checks.Syntax.Util.{or_env}
use guard_cli.Checks.Syntax.Walk.{Visited, at_expr, visit_block, MethodCall, calls_in, method_calls}
use guard_cli.Checks.Detectors.Delegate.{
  DelegateVisitor, is_storage_read, is_env_invoke, is_done, on_call, delegate_visits,
  env_param_name, report, start, run_method,
}

-- both things that the detector looks for have been met
abbrev pub complete : DelegateVisitor → Bool
complete s = s.has_storage_read && is_some s.last_invoke_contract_line

is_done_lem : (b : Bool) (o : Option ℕ) → is_done b o ≡ (b && is_some o)
is_done_lem true none = refl
is_done_lem true (some l) = refl
is_done_lem false o = refl

last_line-found :
    (b : Bool) (l : ℕ) (o : Option ℕ) → is_some (if b then some l else o) ≡ (is_some o || b)
last_line-found b l o = ground arith

delegate_visits-complete :
    (s : DelegateVisitor) (vs : List Visited)
    → complete (delegate_visits s vs) ≡ (
        (s.has_storage_read || any is_storage_read (calls_in vs))
        && (is_some s.last_invoke_contract_line || any (is_env_invoke s.env_ident) (calls_in vs)))
unfolding delegate_visits calls_in on_call
delegate_visits-complete s [] = ground arith
delegate_visits-complete s (at_expr (method_call l r m args) ∷ vs) =
    let c : MethodCall = record { line = l; receiver = r; method = m; args = args } in
    ground (
      arith,
      delegate_visits-complete s vs,
      delegate_visits-complete (on_call s c) vs,
      is_done_lem s.has_storage_read s.last_invoke_contract_line,
      last_line-found (is_env_invoke s.env_ident c) l s.last_invoke_contract_line,
    )
delegate_visits-complete s (_ ∷ vs) = delegate_visits-complete s vs

report-reported :
    (fn_name : String) (b : Bool) (o : Option ℕ)
    → is_empty (report fn_name b o) ≡ not (b && is_some o)
report-reported fn_name true none = refl
report-reported fn_name true (some l) = refl
report-reported fn_name false o = refl

-- A method is reported exactly if one of its calls is a `get` on the storage and one is an external call on
-- the `Env` parameter, in whatever order and with whatever arguments.
pub delegate_run_method-reports :
    (method : Method)
    → is_empty (run_method method)
      ≡ not (
          any is_storage_read (method_calls method.block)
          && any
              (is_env_invoke (or_env (env_param_name method.inputs)))
              (method_calls method.block))
unfolding run_method
delegate_run_method-reports method =
    let v = delegate_visits (start method) (visit_block method.block) in
    report-reported method.ident v.has_storage_read v.last_invoke_contract_line
    ∙ ap not (delegate_visits-complete (start method) (visit_block method.block))
