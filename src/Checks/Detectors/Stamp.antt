-- ===== src/Checks/Detectors/Stamp.antt =====
-- The runs of the detectors as one function, and what their findings have in common: the check name and
-- the empty path that the analyzer relies on.
pub mod Lists
pub mod Methods
use guard_cli.Prelude.{
  ℕ, String, ◌≡◌, refl, ap, ◌∙◌, Bool, true, false, not, ◌&&◌, ◌||◌, Option, none, some, List, [],
  ◌∷◌, ◌++◌, map, flat, if◌then◌else◌, ◌+◌, ◌==◌, string_eq, all, contains, Bool-cases, inl, inr,
  arith,
}
use guard_cli.Prelude.Text.{lines}
use guard_cli.Checks.Ast.{Items, Method}
use guard_cli.Checks.Ast.Util.{contractimpl_functions_excluding_test}
use guard_cli.Checks.Finding.{Finding}
use guard_cli.Checks.Names
use guard_cli.Checks.Registry.{
  Detector, name, missing_require_auth_check, unprotected_upgrade_check,
  missing_input_length_bound_check, unprotected_token_mint_check,
  unprotected_contract_deployment_check, auth_after_storage_write_check, unchecked_arithmetic_check,
  missing_ttl_extension_check, hardcoded_address_check, missing_contract_annotation_check,
  delegate_call_risk_check, integer_division_truncation_check, missing_event_emission_check,
  panic_in_contract_check, large_loop_check, reentrancy_risk_check,
  missing_event_for_admin_change_check,
}
use guard_cli.Checks.Syntax.{Expr, Stmts, method_call}
use guard_cli.Checks.Syntax.Walk.{
  Visited, at_expr, at_macro, visit_block, Binary, binaries, method_calls, MethodCall,
}
use guard_cli.Checks.Syntax.{SynMacro}
use guard_cli.Checks.Detectors.{over_methods}
use guard_cli.Checks.Detectors.Auth
use guard_cli.Checks.Detectors.AuthOrder
use guard_cli.Checks.Detectors.Reentrancy
use guard_cli.Checks.Detectors.Events
use guard_cli.Checks.Detectors.AdminChange
use guard_cli.Checks.Detectors.Ttl
use guard_cli.Checks.Detectors.Panics
use guard_cli.Checks.Detectors.Division
use guard_cli.Checks.Detectors.Overflow
use guard_cli.Checks.Detectors.LargeLoop
use guard_cli.Checks.Detectors.Delegate
use guard_cli.Checks.Detectors.Upgrade
use guard_cli.Checks.Detectors.InputLength
use guard_cli.Checks.Detectors.Mint
use guard_cli.Checks.Detectors.Deployment
use guard_cli.Checks.Detectors.Annotations
use guard_cli.Checks.Detectors.Address
use guard_cli.Checks.Detectors.Stamp.Lists.{stamped}
use guard_cli.Checks.Detectors.Stamp.Methods.{
  over_methods-stamped, auth-stamped, upgrade-stamped, input_length-stamped, mint-stamped,
  deployment-stamped, order-stamped, reentrancy-stamped, events-stamped, admin_change-stamped,
  delegate-stamped, large_loop-stamped, panics-stamped, division-stamped, overflow-stamped,
  ttl-stamped, address-stamped, annotations-stamped, found_lem,
}

module _ (tokens : Expr → String) (same_expr : Expr → Expr → Bool) where
  -- the runs of the detectors that are modelled
  unfoldable pub findings_of : Detector → Items → String → Option (List Finding)
  findings_of missing_require_auth_check file source = some (Auth.run file)
  findings_of auth_after_storage_write_check file source = some (AuthOrder.run file)
  findings_of unchecked_arithmetic_check file source = some (Overflow.run same_expr file)
  findings_of missing_ttl_extension_check file source = some (Ttl.run tokens file)
  findings_of hardcoded_address_check file source = some (Address.run file source)
  findings_of missing_contract_annotation_check file source = some (Annotations.run file)
  findings_of delegate_call_risk_check file source = some (Delegate.run file)
  findings_of integer_division_truncation_check file source = some (Division.run file)
  findings_of missing_event_emission_check file source = some (Events.run file)
  findings_of panic_in_contract_check file source = some (Panics.run file)
  findings_of large_loop_check file source = some (LargeLoop.run file)
  findings_of reentrancy_risk_check file source = some (Reentrancy.run file)
  findings_of missing_event_for_admin_change_check file source = some (AdminChange.run file)
  findings_of unprotected_upgrade_check file source = some (Upgrade.run file)
  findings_of unprotected_token_mint_check file source = some (Mint.run file)
  findings_of unprotected_contract_deployment_check file source = some (Deployment.run file)
  findings_of missing_input_length_bound_check file source = some (InputLength.run file)
  findings_of _ file source = none

  -- For each of the 17 detectors whose run is modelled, which are those that `findings_of` lists, every
  -- finding of a run carries the name under which the detector is registered, and an empty path, for
  -- the analyzer to fill in. For the other 17 detectors nothing is stated.
  pub findings_of-stamped :
      (d : Detector) (file : Items) (source : String) (found : List Finding)
      → findings_of d file source ≡ some found
      → all (stamped (name d)) found ≡ true
  unfolding findings_of name Auth.run AuthOrder.run Overflow.run Ttl.run Delegate.run Division.run
      Events.run Panics.run LargeLoop.run Reentrancy.run AdminChange.run Upgrade.run InputLength.run
      Mint.run Deployment.run
  findings_of-stamped missing_require_auth_check file source found h =
      found_lem (stamped Names.missing_require_auth) h
        (over_methods-stamped Names.missing_require_auth Auth.run_method file auth-stamped)
  findings_of-stamped auth_after_storage_write_check file source found h =
      found_lem (stamped Names.auth_after_storage_write) h (
        over_methods-stamped Names.auth_after_storage_write AuthOrder.run_method file order-stamped)
  findings_of-stamped unchecked_arithmetic_check file source found h =
      found_lem (stamped Names.unchecked_arithmetic) h (
        over_methods-stamped Names.unchecked_arithmetic (Overflow.run_method same_expr) file
          (overflow-stamped tokens same_expr))
  findings_of-stamped missing_ttl_extension_check file source found h =
      found_lem (stamped Names.missing_ttl_extension) h (
        over_methods-stamped Names.missing_ttl_extension (Ttl.run_method tokens) file
          (ttl-stamped tokens same_expr))
  findings_of-stamped delegate_call_risk_check file source found h =
      found_lem (stamped Names.delegate_call_risk) h
        (over_methods-stamped Names.delegate_call_risk Delegate.run_method file delegate-stamped)
  findings_of-stamped integer_division_truncation_check file source found h =
      found_lem (stamped Names.integer_division_truncation) h (
        over_methods-stamped Names.integer_division_truncation Division.run_method file
          division-stamped)
  findings_of-stamped missing_event_emission_check file source found h =
      found_lem (stamped Names.missing_event_emission) h
        (over_methods-stamped Names.missing_event_emission Events.run_method file events-stamped)
  findings_of-stamped panic_in_contract_check file source found h =
      found_lem (stamped Names.panic_in_contract) h
        (over_methods-stamped Names.panic_in_contract Panics.run_method file panics-stamped)
  findings_of-stamped large_loop_check file source found h =
      found_lem (stamped Names.large_loop) h
        (over_methods-stamped Names.large_loop LargeLoop.run_method file large_loop-stamped)
  findings_of-stamped reentrancy_risk_check file source found h =
      found_lem (stamped Names.reentrancy_risk) h
        (over_methods-stamped Names.reentrancy_risk Reentrancy.run_method file reentrancy-stamped)
  findings_of-stamped missing_event_for_admin_change_check file source found h =
      found_lem (stamped Names.missing_event_for_admin_change) h (
        over_methods-stamped Names.missing_event_for_admin_change AdminChange.run_method file
          admin_change-stamped)
  findings_of-stamped hardcoded_address_check file source found h =
      found_lem (stamped Names.hardcoded_address) h (address-stamped file source)
  findings_of-stamped missing_contract_annotation_check file source found h =
      found_lem (stamped Names.missing_contract_annotation) h (annotations-stamped file)
  findings_of-stamped unprotected_upgrade_check file source found h =
      found_lem (stamped Names.unprotected_upgrade) h
        (over_methods-stamped Names.unprotected_upgrade Upgrade.run_method file upgrade-stamped)
  findings_of-stamped unprotected_token_mint_check file source found h =
      found_lem (stamped Names.unprotected_token_mint) h
        (over_methods-stamped Names.unprotected_token_mint Mint.run_method file mint-stamped)
  findings_of-stamped unprotected_contract_deployment_check file source found h =
      found_lem (stamped Names.unprotected_contract_deployment) h (
        over_methods-stamped Names.unprotected_contract_deployment Deployment.run_method file
          deployment-stamped)
  findings_of-stamped missing_input_length_bound_check file source found h =
      found_lem (stamped Names.missing_input_length_bound) h (
        over_methods-stamped Names.missing_input_length_bound InputLength.run_method file
          input_length-stamped)
  findings_of-stamped _ file source found h = cc
