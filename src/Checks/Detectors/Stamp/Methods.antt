-- ===== src/Checks/Detectors/Stamp/Methods.antt =====
-- The findings of each detector carry its check name and an empty path.
use guard_cli.Prelude.{
  ℕ, not, String, ◌≡◌, refl, Bool, true, Option, some, List, [], ◌∷◌, map, ◌+◌, string_eq, all,
  arith,
}
use guard_cli.Prelude.Text.{lines}
use guard_cli.Checks.Ast.{Items, Method}
use guard_cli.Checks.Ast.Util.{contractimpl_functions_excluding_test}
use guard_cli.Checks.Finding.{Finding}
use guard_cli.Checks.Names
use guard_cli.Checks.Syntax.{Expr, Stmts, method_call}
use guard_cli.Checks.Syntax.Walk.{
  Visited, at_expr, at_macro, visit_block, Binary, binaries, method_calls,
}
use guard_cli.Checks.Detectors.{over_methods}
use guard_cli.Checks.Detectors.Auth
use guard_cli.Checks.Detectors.AuthOrder
use guard_cli.Checks.Detectors.Reentrancy
use guard_cli.Checks.Detectors.Events
use guard_cli.Checks.Detectors.AdminChange
use guard_cli.Checks.Detectors.Ttl
use guard_cli.Checks.Detectors.Panics
use guard_cli.Checks.Detectors.Division
use guard_cli.Checks.Detectors.Overflow
use guard_cli.Checks.Detectors.LargeLoop
use guard_cli.Checks.Detectors.Delegate
use guard_cli.Checks.Detectors.Upgrade
use guard_cli.Checks.Detectors.InputLength
use guard_cli.Checks.Detectors.Mint
use guard_cli.Checks.Detectors.Deployment
use guard_cli.Checks.Detectors.Annotations
use guard_cli.Checks.Detectors.Address
use guard_cli.Checks.Detectors.Stamp.Lists.{stamped, all-append, all-if, all-map, all-over}

-- a detector that looks at the methods one by one
pub over_methods-stamped :
    (check : String) (run_method : Method → List Finding) (file : Items)
    → ((m : Method) → all (stamped check) (run_method m) ≡ true)
    → all (stamped check) (over_methods run_method file) ≡ true
over_methods-stamped check run_method file h =
    all-over (stamped check) run_method (contractimpl_functions_excluding_test file) h

pub auth-stamped :
    (m : Method) → all (stamped Names.missing_require_auth) (Auth.run_method m) ≡ true
unfolding Auth.run_method
auth-stamped m = ground arith

pub order-stamped :
    (m : Method) → all (stamped Names.auth_after_storage_write) (AuthOrder.run_method m) ≡ true
unfolding AuthOrder.run_method
order-stamped m = ground arith

pub reentrancy-stamped :
    (m : Method) → all (stamped Names.reentrancy_risk) (Reentrancy.run_method m) ≡ true
unfolding Reentrancy.run_method
reentrancy-stamped m = ground arith

pub events-stamped :
    (m : Method) → all (stamped Names.missing_event_emission) (Events.run_method m) ≡ true
unfolding Events.run_method
events-stamped m = ground arith

pub admin_change-stamped :
    (m : Method)
    → all (stamped Names.missing_event_for_admin_change) (AdminChange.run_method m) ≡ true
unfolding AdminChange.run_method
admin_change-stamped m = ground arith

pub delegate-stamped :
    (m : Method) → all (stamped Names.delegate_call_risk) (Delegate.run_method m) ≡ true
unfolding Delegate.run_method
delegate-stamped m = ground arith

pub upgrade-stamped :
    (m : Method) → all (stamped Names.unprotected_upgrade) (Upgrade.run_method m) ≡ true
unfolding Upgrade.run_method
upgrade-stamped m = ground arith

pub mint-stamped :
    (m : Method) → all (stamped Names.unprotected_token_mint) (Mint.run_method m) ≡ true
unfolding Mint.run_method
mint-stamped m = ground arith

pub deployment-stamped :
    (m : Method)
    → all (stamped Names.unprotected_contract_deployment) (Deployment.run_method m) ≡ true
unfolding Deployment.run_method
deployment-stamped m = ground arith

params-stamped :
    (m : Method) (params : List (String × String))
    → all (stamped Names.missing_input_length_bound) (InputLength.param_findings m params) ≡ true
unfolding InputLength.param_findings
params-stamped m [] = refl
params-stamped m ((n, t) ∷ params) =
    all-if (stamped Names.missing_input_length_bound) (not (InputLength.has_length_check m.block n))
      (InputLength.length_finding m n) (InputLength.param_findings m params) refl
      (params-stamped m params)

pub input_length-stamped :
    (m : Method) → all (stamped Names.missing_input_length_bound) (InputLength.run_method m) ≡ true
unfolding InputLength.run_method
input_length-stamped m =
    ground (arith, params-stamped m (InputLength.find_bytes_vec_params m.inputs))

pub large_loop-stamped :
    (m : Method) → all (stamped Names.large_loop) (LargeLoop.run_method m) ≡ true
unfolding LargeLoop.run_method
large_loop-stamped m = ground (
  arith,
  all-map (stamped Names.large_loop) (LargeLoop.loop_finding m.ident)
      (LargeLoop.loops_in (visit_block m.block)) (λ x. refl),
)

pub panic_visits-stamped :
    (fn_name : String) (vs : List Visited)
    → all (stamped Names.panic_in_contract) (Panics.panic_visits fn_name vs) ≡ true
unfolding Panics.panic_visits Panics.on_macro Panics.on_call
panic_visits-stamped fn_name [] = refl
panic_visits-stamped fn_name (at_macro mac ∷ vs) =
    all-append (stamped Names.panic_in_contract) (Panics.on_macro fn_name mac)
      (Panics.panic_visits fn_name vs) (ground arith) (panic_visits-stamped fn_name vs)
panic_visits-stamped fn_name (at_expr (method_call l r m args) ∷ vs) =
    all-append (stamped Names.panic_in_contract)
      (Panics.on_call fn_name (record { line = l; receiver = r; method = m; args = args }))
      (Panics.panic_visits fn_name vs) (ground arith) (panic_visits-stamped fn_name vs)
panic_visits-stamped fn_name (_ ∷ vs) = panic_visits-stamped fn_name vs

pub panics-stamped :
    (m : Method) → all (stamped Names.panic_in_contract) (Panics.run_method m) ≡ true
unfolding Panics.run_method
panics-stamped m = panic_visits-stamped m.ident (visit_block m.block)

pub div_visits-stamped :
    (fn_name : String) (is : List Binary)
    → all (stamped Names.integer_division_truncation) (Division.div_visits fn_name is) ≡ true
unfolding Division.div_visits
div_visits-stamped fn_name [] = refl
div_visits-stamped fn_name (i ∷ is) = ground (arith, div_visits-stamped fn_name is)

pub division-stamped :
    (m : Method) → all (stamped Names.integer_division_truncation) (Division.run_method m) ≡ true
unfolding Division.run_method
division-stamped m = div_visits-stamped m.ident (binaries m.block)

pub orphans-stamped :
    (names : List String) (impls : List (String × ℕ))
    → all (stamped Names.missing_contract_annotation) (Annotations.orphans names impls) ≡ true
unfolding Annotations.orphans
orphans-stamped names [] = refl
orphans-stamped names ((t, l) ∷ impls) = ground (arith, orphans-stamped names impls)

pub key_findings-stamped :
    (spans : List (ℕ × ℕ × String)) (line_no : ℕ) (keys : List String)
    → all (stamped Names.hardcoded_address) (map (Address.address_finding spans line_no) keys)
      ≡ true
key_findings-stamped spans line_no keys =
    all-map (stamped Names.hardcoded_address) (Address.address_finding spans line_no) keys
      (λ key. refl)

pub line_findings-stamped :
    (spans : List (ℕ × ℕ × String)) (ranges : List (ℕ × ℕ)) (n : ℕ) (raw line : String)
    → all (stamped Names.hardcoded_address) (Address.line_findings spans ranges n raw line) ≡ true
unfolding Address.line_findings
line_findings-stamped spans ranges n raw line =
    ground (arith, key_findings-stamped spans n (Address.Keys.find_candidate_keys line))

pub lines-stamped :
    (spans : List (ℕ × ℕ × String)) (ranges : List (ℕ × ℕ)) (line_no : ℕ)
    (lines raw_lines : List String)
    → all
        (stamped Names.hardcoded_address)
        (Address.scan_lines spans ranges line_no lines raw_lines)
      ≡ true
unfolding Address.scan_lines
lines-stamped spans ranges n [] raws = refl
lines-stamped spans ranges n (line ∷ lines) [] =
    all-append (stamped Names.hardcoded_address) (Address.line_findings spans ranges n "" line)
      (Address.scan_lines spans ranges (n + 1) lines [])
      (line_findings-stamped spans ranges n "" line) (lines-stamped spans ranges (n + 1) lines [])
lines-stamped spans ranges n (line ∷ lines) (raw ∷ raws) =
    all-append (stamped Names.hardcoded_address) (Address.line_findings spans ranges n raw line)
      (Address.scan_lines spans ranges (n + 1) lines raws)
      (line_findings-stamped spans ranges n raw line)
      (lines-stamped spans ranges (n + 1) lines raws)

pub address-stamped :
    (file : Items) (source : String)
    → all (stamped Names.hardcoded_address) (Address.run file source) ≡ true
unfolding Address.run
address-stamped file source =
    lines-stamped (Address.Ranges.function_spans file) (Address.Ranges.test_only_line_ranges file) 1
      (Address.Lines.effective_lines source) (lines source)

pub annotations-stamped :
    (file : Items) → all (stamped Names.missing_contract_annotation) (Annotations.run file) ≡ true
unfolding Annotations.run
annotations-stamped file =
    orphans-stamped (Annotations.contract_structs file) (Annotations.contract_impls file)

pub found_lem :
    (p : Finding → Bool) {a b : List Finding}
    → ◌≡◌ {A = Option (List Finding)} (some a) (some b)
    → all p a ≡ true
    → all p b ≡ true
found_lem p h k = cc

module _ (tokens : Expr → String) (same_expr : Expr → Expr → Bool) where
  pub arith_visits-stamped :
      (fn_name : String) (block : Stmts) (is : List Binary)
      → all (stamped Names.unchecked_arithmetic) (Overflow.arith_visits same_expr fn_name block is)
        ≡ true
  unfolding Overflow.arith_visits
  arith_visits-stamped fn_name block [] = refl
  arith_visits-stamped fn_name block (i ∷ is) =
      all-if (stamped Names.unchecked_arithmetic) _ (Overflow.overflow_finding fn_name i)
        (Overflow.arith_visits same_expr fn_name block is) refl
        (arith_visits-stamped fn_name block is)

  pub overflow-stamped :
      (m : Method)
      → all (stamped Names.unchecked_arithmetic) (Overflow.run_method same_expr m) ≡ true
  unfolding Overflow.run_method
  overflow-stamped m = arith_visits-stamped m.ident m.block (binaries m.block)

  pub report-stamped :
      (fn_name : String) (keys : List String) (mutations : List (String × ℕ))
      → all (stamped Names.missing_ttl_extension) (Ttl.report tokens fn_name keys mutations) ≡ true
  unfolding Ttl.report
  report-stamped fn_name keys [] = refl
  report-stamped fn_name keys ((k, l) ∷ ms) = ground (arith, report-stamped fn_name keys ms)

  pub ttl-stamped :
      (m : Method) → all (stamped Names.missing_ttl_extension) (Ttl.run_method tokens m) ≡ true
  unfolding Ttl.run_method
  ttl-stamped m =
      let v =
        Ttl.ttl_visits tokens (record { mutations = []; extended_keys = [] })
          (method_calls m.block) in
      report-stamped m.ident v.extended_keys v.mutations
