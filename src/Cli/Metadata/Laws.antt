-- ===== src/Cli/Metadata/Laws.antt =====
-- The table of descriptions covers the registry.
use guard_cli.Prelude.{
  String, some, List, [], ◌∷◌, ◌≡◌, refl, true, string_eq, map, distinct, contains, all,
}
use guard_cli.Checks.Registry.{
  Detector, name, all_checks_base, missing_require_auth_check, auth_after_storage_write_check,
  unchecked_arithmetic_check, unprotected_admin_check, unsafe_storage_patterns_check,
  missing_ttl_extension_check, forbidden_std_imports_check, hardcoded_address_check,
  unsafe_cross_contract_input_check, missing_contract_annotation_check, delegate_call_risk_check,
  integer_division_truncation_check, missing_event_emission_check, symbol_key_collision_check,
  self_transfer_check, missing_zero_address_check, mutable_global_state_check,
  re_initialization_risk_check, unchecked_invoke_return_check, missing_balance_check,
  unbounded_vec_growth_check, unsafe_randomness_check, unchecked_divisor_check,
  panic_in_contract_check, unprotected_upgrade_check, unprotected_token_mint_check,
  unprotected_contract_deployment_check, unchecked_token_amount_check, large_loop_check,
  missing_nonce_check, uninitialized_storage_read_check, reentrancy_risk_check,
  missing_event_for_admin_change_check, missing_input_length_bound_check,
}
use guard_cli.Cli.Metadata.Meta.{CheckMeta}
use guard_cli.Cli.Metadata.{
  check_metadata, check_meta, describe_rule, describe_check, explain_details, details_of,
}

abbrev severities : List String
severities = "high" ∷ "medium" ∷ "low" ∷ []

-- the entry of a check, which all the descriptions are read from
abbrev pub IsDocumented : String → CheckMeta → Type 0
IsDocumented k m =
    (check_meta k ≡ some m)
    × (m.name ≡ k)
    × (contains severities m.severity ≡ true)
    × (describe_check k ≡ (m.severity, m.short))
    × (describe_rule k ≡ m.rule)
    × (some (explain_details k) ≡ m.long)

-- Every detector, whatever its configuration, has an entry in the table under its own name, with one
-- of the three severities and a long text, and the three descriptions are those of the entry.
pub check_meta-name : (d : Detector) → (m : CheckMeta) × IsDocumented (name d) m
unfolding check_meta name describe_rule describe_check explain_details details_of
check_meta-name missing_require_auth_check = (_, (refl, refl, refl, refl, refl, refl))
check_meta-name auth_after_storage_write_check = (_, (refl, refl, refl, refl, refl, refl))
check_meta-name unchecked_arithmetic_check = (_, (refl, refl, refl, refl, refl, refl))
check_meta-name (unprotected_admin_check extra) = (_, (refl, refl, refl, refl, refl, refl))
check_meta-name unsafe_storage_patterns_check = (_, (refl, refl, refl, refl, refl, refl))
check_meta-name missing_ttl_extension_check = (_, (refl, refl, refl, refl, refl, refl))
check_meta-name forbidden_std_imports_check = (_, (refl, refl, refl, refl, refl, refl))
check_meta-name hardcoded_address_check = (_, (refl, refl, refl, refl, refl, refl))
check_meta-name unsafe_cross_contract_input_check = (_, (refl, refl, refl, refl, refl, refl))
check_meta-name missing_contract_annotation_check = (_, (refl, refl, refl, refl, refl, refl))
check_meta-name delegate_call_risk_check = (_, (refl, refl, refl, refl, refl, refl))
check_meta-name integer_division_truncation_check = (_, (refl, refl, refl, refl, refl, refl))
check_meta-name missing_event_emission_check = (_, (refl, refl, refl, refl, refl, refl))
check_meta-name symbol_key_collision_check = (_, (refl, refl, refl, refl, refl, refl))
check_meta-name self_transfer_check = (_, (refl, refl, refl, refl, refl, refl))
check_meta-name missing_zero_address_check = (_, (refl, refl, refl, refl, refl, refl))
check_meta-name mutable_global_state_check = (_, (refl, refl, refl, refl, refl, refl))
check_meta-name re_initialization_risk_check = (_, (refl, refl, refl, refl, refl, refl))
check_meta-name unchecked_invoke_return_check = (_, (refl, refl, refl, refl, refl, refl))
check_meta-name missing_balance_check = (_, (refl, refl, refl, refl, refl, refl))
check_meta-name unbounded_vec_growth_check = (_, (refl, refl, refl, refl, refl, refl))
check_meta-name unsafe_randomness_check = (_, (refl, refl, refl, refl, refl, refl))
check_meta-name unchecked_divisor_check = (_, (refl, refl, refl, refl, refl, refl))
check_meta-name panic_in_contract_check = (_, (refl, refl, refl, refl, refl, refl))
check_meta-name unprotected_upgrade_check = (_, (refl, refl, refl, refl, refl, refl))
check_meta-name unprotected_token_mint_check = (_, (refl, refl, refl, refl, refl, refl))
check_meta-name unprotected_contract_deployment_check = (_, (refl, refl, refl, refl, refl, refl))
check_meta-name unchecked_token_amount_check = (_, (refl, refl, refl, refl, refl, refl))
check_meta-name large_loop_check = (_, (refl, refl, refl, refl, refl, refl))
check_meta-name missing_nonce_check = (_, (refl, refl, refl, refl, refl, refl))
check_meta-name uninitialized_storage_read_check = (_, (refl, refl, refl, refl, refl, refl))
check_meta-name reentrancy_risk_check = (_, (refl, refl, refl, refl, refl, refl))
check_meta-name missing_event_for_admin_change_check = (_, (refl, refl, refl, refl, refl, refl))
check_meta-name missing_input_length_bound_check = (_, (refl, refl, refl, refl, refl, refl))

-- No entry of the table describes an unknown check, and no check has two entries.
check_metadata-distinct :
    (all (λ m. contains (map name all_checks_base) m.name) check_metadata ≡ true)
    × (distinct (map (λ m. m.name) check_metadata) ≡ true)
unfolding name all_checks_base
check_metadata-distinct = (refl, refl)
