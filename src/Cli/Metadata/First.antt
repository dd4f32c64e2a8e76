-- ===== src/Cli/Metadata/First.antt =====
-- `CHECK_METADATA` of crates/cli/src/main.rs, the first half.
use guard_cli.Prelude.{some, List, [], ◌∷◌}
use guard_cli.Cli.Metadata.Meta.{CheckMeta}

abbrev pub first_metadata : List CheckMeta
first_metadata =
    record {
      name = "missing-require-auth";
      severity = "high";
      short = "Missing env.require_auth() before storage writes";
      rule = "Method writes to storage without env.require_auth()";
      long =
          some
            "Reports contract methods that mutate storage without calling require_auth or require_auth_for_args.";
    }
    ∷ record {
      name = "unchecked-arithmetic";
      severity = "high";
      short = "Flags unchecked arithmetic on contract state (High / Medium / Low per operand)";
      rule = "Wrapping arithmetic operations may overflow";
      long =
          some
            "Reports wrapping +, -, *, and compound arithmetic in contract methods; prefer checked_* or saturating_* APIs. Severity is computed per call site: High for financial-named operands (e.g. amount, balance, price), Low for index-named operands, Medium otherwise.";
    }
    ∷ record {
      name = "unprotected-admin";
      severity = "high";
      short = "Flags privileged entrypoints without auth";
      rule = "Sensitive admin entrypoints lack an authorization gate";
      long =
          some
            "Reports public admin-like entrypoints such as set_owner, pause, migrate, or upgrade when they lack an auth gate.";
    }
    ∷ record {
      name = "unsafe-storage-patterns";
      severity = "medium";
      short = "Flags temporary storage and dynamic Symbol keys";
      rule = "Temporary storage or dynamic Symbol keys are risky";
      long =
          some
            "Reports temporary storage mutations and dynamic Symbol keys that may expire unexpectedly or collide.";
    }
    ∷ record {
      name = "missing-ttl-extension";
      severity = "low";
      short = "Flags persistent storage entries without TTL extension";
      rule = "Persistent entries may expire without TTL bump";
      long = some "Reports persistent storage writes that do not extend TTL in the same function.";
    }
    ∷ record {
      name = "forbidden-std-imports";
      severity = "high";
      short = "Flags use of std in no_std Soroban contracts";
      rule = "Crate imports std which is forbidden in no_std contracts";
      long =
          some
            "Reports std imports in Soroban contract files because deployable contracts must compile for no_std WASM.";
    }
    ∷ record {
      name = "hardcoded-address";
      severity = "medium";
      short = "Flags hardcoded Stellar address literals";
      rule = "Contract contains a hardcoded Stellar address string";
      long = some "Reports Stellar public-key-shaped string literals embedded directly in source.";
    }
    ∷ record {
      name = "unsafe-cross-contract-input";
      severity = "high";
      short = "Flags unvalidated return values from cross-contract calls";
      rule = "Cross-contract call return value used without validation";
      long = some "Reports invoke_contract return values stored directly without local validation.";
    }
    ∷ record {
      name = "missing-contract-annotation";
      severity = "low";
      short = "Flags structs missing the #[contract] attribute";
      rule = "Struct missing #[contract] annotation";
      long =
          some "Reports contractimpl blocks without a sibling struct annotated with #[contract].";
    }
    ∷ record {
      name = "delegate-call-risk";
      severity = "high";
      short = "Flags delegate-call patterns that transfer execution control";
      rule = "Delegate-style call pattern can transfer control unexpectedly";
      long =
          some
            "Reports storage-derived cross-contract callees that can redirect execution if storage is poisoned.";
    }
    ∷ record {
      name = "integer-division-truncation";
      severity = "medium";
      short = "Flags integer division that silently truncates";
      rule = "Integer division silently truncates the remainder";
      long =
          some
            "Reports integer division where truncation may silently change financial or accounting results.";
    }
    ∷ record {
      name = "missing-event-emission";
      severity = "medium";
      short = "Flags state-mutating functions with no event emission";
      rule = "State-mutating function emits no events";
      long =
          some
            "Reports state-mutating functions that do not publish events for off-chain indexers.";
    }
    ∷ record {
      name = "symbol-key-collision";
      severity = "medium";
      short = "Flags storage keys that share the same Symbol value";
      rule = "Multiple storage keys share the same Symbol value";
      long = some "Reports duplicate symbol_short! keys in the same impl block.";
    }
    ∷ record {
      name = "self-transfer";
      severity = "medium";
      short = "Flags token transfers where sender may equal receiver";
      rule = "Token transfer destination may equal the sender";
      long =
          some
            "Reports transfer-like functions that do not guard against sender and recipient being equal.";
    }
    ∷ record {
      name = "missing-zero-address-check";
      severity = "medium";
      short = "Flags Address parameters not checked for the zero address";
      rule = "Address argument not validated against the zero address";
      long =
          some
            "Reports Address parameters stored or used without checking for default or zero-address values.";
    }
    ∷ record {
      name = "mutable-global-state";
      severity = "high";
      short = "Flags mutable global state in contract code";
      rule = "Mutable global state is unsafe and not persisted on-chain";
      long =
          some
            "Reports static mut items, which are unsafe and not valid persistent contract state.";
    }
    ∷ record {
      name = "re-initialization-risk";
      severity = "high";
      short = "Flags initializer-like functions without re-init guards";
      rule = "Initializer-like function can overwrite critical state";
      long =
          some
            "Reports initializer-like methods that write state without checking whether initialization already happened.";
    }
    ∷ []
