-- ===== src/Checks/Names.antt =====
-- The name constants of the detectors, one in each file of crates/checks/src.
use Prim.Native.String.{String}

abbrev pub missing_require_auth : String
missing_require_auth = "missing-require-auth"

abbrev pub auth_after_storage_write : String
auth_after_storage_write = "auth-after-storage-write"

abbrev pub unchecked_arithmetic : String
unchecked_arithmetic = "unchecked-arithmetic"

abbrev pub unprotected_admin : String
unprotected_admin = "unprotected-admin"

abbrev pub unsafe_storage_patterns : String
unsafe_storage_patterns = "unsafe-storage-patterns"

abbrev pub missing_ttl_extension : String
missing_ttl_extension = "missing-ttl-extension"

abbrev pub forbidden_std_imports : String
forbidden_std_imports = "forbidden-std-imports"

abbrev pub hardcoded_address : String
hardcoded_address = "hardcoded-address"

abbrev pub unsafe_cross_contract_input : String
unsafe_cross_contract_input = "unsafe-cross-contract-input"

abbrev pub missing_contract_annotation : String
missing_contract_annotation = "missing-contract-annotation"

abbrev pub delegate_call_risk : String
delegate_call_risk = "delegate-call-risk"

abbrev pub integer_division_truncation : String
integer_division_truncation = "integer-division-truncation"

abbrev pub missing_event_emission : String
missing_event_emission = "missing-event-emission"

abbrev pub symbol_key_collision : String
symbol_key_collision = "symbol-key-collision"

abbrev pub self_transfer : String
self_transfer = "self-transfer"

abbrev pub missing_zero_address_check : String
missing_zero_address_check = "missing-zero-address-check"

abbrev pub mutable_global_state : String
mutable_global_state = "mutable-global-state"

abbrev pub re_initialization_risk : String
re_initialization_risk = "re-initialization-risk"

abbrev pub unchecked_invoke_return : String
unchecked_invoke_return = "unchecked-invoke-return"

abbrev pub missing_balance_check : String
missing_balance_check = "missing-balance-check"

abbrev pub unbounded_vec_growth : String
unbounded_vec_growth = "unbounded-vec-growth"

abbrev pub unsafe_randomness : String
unsafe_randomness = "unsafe-randomness"

abbrev pub unchecked_divisor : String
unchecked_divisor = "unchecked-divisor"

abbrev pub panic_in_contract : String
panic_in_contract = "panic-in-contract"

abbrev pub unprotected_upgrade : String
unprotected_upgrade = "unprotected-upgrade"

abbrev pub unprotected_token_mint : String
unprotected_token_mint = "unprotected-token-mint"

abbrev pub unprotected_contract_deployment : String
unprotected_contract_deployment = "unprotected-contract-deployment"

abbrev pub unchecked_token_amount : String
unchecked_token_amount = "unchecked-token-amount"

abbrev pub large_loop : String
large_loop = "large-loop"

abbrev pub missing_nonce : String
missing_nonce = "missing-nonce"

abbrev pub uninitialized_storage_read : String
uninitialized_storage_read = "uninitialized-storage-read"

abbrev pub reentrancy_risk : String
reentrancy_risk = "reentrancy-risk"

abbrev pub missing_event_for_admin_change : String
missing_event_for_admin_change = "missing-event-for-admin-change"

abbrev pub missing_input_length_bound : String
missing_input_length_bound = "missing-input-length-bound"
