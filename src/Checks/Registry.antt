-- ===== src/Checks/Registry.antt =====
-- The registry of crates/checks/src/lib.rs: the list of built-in checks and its construction.
-- A panic of the source is the error of a `Result`, with the panic's message.
pub mod Unique
use guard_cli.Prelude.{
  String, not, List, [], ◌∷◌, map, Result, ok, err, if◌then◌else◌, ◌==◌, string_eq, contains,
  retain,
}
use guard_cli.Prelude.Text.{◌<>◌}
use guard_cli.Checks.Names

-- One constructor for each struct that implements `Check`.
pub data Detector : Type 0 where
  missing_require_auth_check auth_after_storage_write_check : Detector
  unchecked_arithmetic_check unsafe_storage_patterns_check : Detector
  missing_ttl_extension_check forbidden_std_imports_check : Detector
  hardcoded_address_check unsafe_cross_contract_input_check : Detector
  missing_contract_annotation_check delegate_call_risk_check : Detector
  integer_division_truncation_check missing_event_emission_check : Detector
  symbol_key_collision_check self_transfer_check : Detector
  missing_zero_address_check mutable_global_state_check : Detector
  re_initialization_risk_check unchecked_invoke_return_check : Detector
  missing_balance_check unbounded_vec_growth_check : Detector
  unsafe_randomness_check unchecked_divisor_check : Detector
  panic_in_contract_check unprotected_upgrade_check : Detector
  unprotected_token_mint_check unprotected_contract_deployment_check : Detector
  unchecked_token_amount_check large_loop_check : Detector
  missing_nonce_check uninitialized_storage_read_check : Detector
  reentrancy_risk_check missing_event_for_admin_change_check : Detector
  missing_input_length_bound_check : Detector
  unprotected_admin_check : (extra_names : List String) → Detector

-- `Check::name` of each
unfoldable pub name : Detector → String
name missing_require_auth_check = Names.missing_require_auth
name auth_after_storage_write_check = Names.auth_after_storage_write
name unchecked_arithmetic_check = Names.unchecked_arithmetic
name (unprotected_admin_check extra) = Names.unprotected_admin
name unsafe_storage_patterns_check = Names.unsafe_storage_patterns
name missing_ttl_extension_check = Names.missing_ttl_extension
name forbidden_std_imports_check = Names.forbidden_std_imports
name hardcoded_address_check = Names.hardcoded_address
name unsafe_cross_contract_input_check = Names.unsafe_cross_contract_input
name missing_contract_annotation_check = Names.missing_contract_annotation
name delegate_call_risk_check = Names.delegate_call_risk
name integer_division_truncation_check = Names.integer_division_truncation
name missing_event_emission_check = Names.missing_event_emission
name symbol_key_collision_check = Names.symbol_key_collision
name self_transfer_check = Names.self_transfer
name missing_zero_address_check = Names.missing_zero_address_check
name mutable_global_state_check = Names.mutable_global_state
name re_initialization_risk_check = Names.re_initialization_risk
name unchecked_invoke_return_check = Names.unchecked_invoke_return
name missing_balance_check = Names.missing_balance_check
name unbounded_vec_growth_check = Names.unbounded_vec_growth
name unsafe_randomness_check = Names.unsafe_randomness
name unchecked_divisor_check = Names.unchecked_divisor
name panic_in_contract_check = Names.panic_in_contract
name unprotected_upgrade_check = Names.unprotected_upgrade
name unprotected_token_mint_check = Names.unprotected_token_mint
name unprotected_contract_deployment_check = Names.unprotected_contract_deployment
name unchecked_token_amount_check = Names.unchecked_token_amount
name large_loop_check = Names.large_loop
name missing_nonce_check = Names.missing_nonce
name uninitialized_storage_read_check = Names.uninitialized_storage_read
name reentrancy_risk_check = Names.reentrancy_risk
name missing_event_for_admin_change_check = Names.missing_event_for_admin_change
name missing_input_length_bound_check = Names.missing_input_length_bound

unfoldable pub all_checks_base : List Detector
all_checks_base =
    missing_require_auth_check
    ∷ auth_after_storage_write_check
    ∷ unchecked_arithmetic_check
    ∷ unprotected_admin_check []
    ∷ unsafe_storage_patterns_check
    ∷ missing_ttl_extension_check
    ∷ forbidden_std_imports_check
    ∷ hardcoded_address_check
    ∷ unsafe_cross_contract_input_check
    ∷ missing_contract_annotation_check
    ∷ delegate_call_risk_check
    ∷ integer_division_truncation_check
    ∷ missing_event_emission_check
    ∷ symbol_key_collision_check
    ∷ self_transfer_check
    ∷ missing_zero_address_check
    ∷ mutable_global_state_check
    ∷ re_initialization_risk_check
    ∷ unchecked_invoke_return_check
    ∷ missing_balance_check
    ∷ unbounded_vec_growth_check
    ∷ unsafe_randomness_check
    ∷ unchecked_divisor_check
    ∷ panic_in_contract_check
    ∷ unprotected_upgrade_check
    ∷ unprotected_token_mint_check
    ∷ unprotected_contract_deployment_check
    ∷ unchecked_token_amount_check
    ∷ large_loop_check
    ∷ missing_nonce_check
    ∷ uninitialized_storage_read_check
    ∷ reentrancy_risk_check
    ∷ missing_event_for_admin_change_check
    ∷ missing_input_length_bound_check
    ∷ []

-- the `HashSet` of the names seen so far, and the assertion that each name is new
ensure_unique_from : List String → List Detector → Result (Unit {0}) String
ensure_unique_from names [] = ok tt
ensure_unique_from names (check ∷ checks) =
    let rest = ensure_unique_from (name check ∷ names) checks in
    if contains names (name check) then err ("duplicate check name: " <> name check) else rest

unfoldable pub ensure_unique_check_names : List Detector → Result (Unit {0}) String
unfolding ensure_unique_from
ensure_unique_check_names = ensure_unique_from []

and_return : List Detector → Result (Unit {0}) String → Result (List Detector) String
and_return checks (ok _) = ok checks
and_return checks (err message) = err message

unfoldable pub default_checks : Result (List Detector) String
unfolding and_return ensure_unique_check_names all_checks_base name
default_checks = and_return all_checks_base (ensure_unique_check_names all_checks_base)

-- the swap of the admin check for one with the extra names
configure : List String → Detector → Detector
configure extra check =
    if name check == name (unprotected_admin_check []) then unprotected_admin_check extra else check

unfoldable pub default_checks_with_config :
    (disabled extra_sensitive_names : List String) → Result (List Detector) String
unfolding and_return configure ensure_unique_check_names all_checks_base name
default_checks_with_config disabled extra =
    let checks =
      retain (λ c. not (contains disabled (name c))) (map (configure extra) all_checks_base) in
    and_return checks (ensure_unique_check_names checks)
