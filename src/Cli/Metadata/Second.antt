-- ===== src/Cli/Metadata/Second.antt =====
-- `CHECK_METADATA` of crates/cli/src/main.rs, the second half.
use guard_cli.Prelude.{some, List, [], ◌∷◌}
use guard_cli.Cli.Metadata.Meta.{CheckMeta}

abbrev pub second_metadata : List CheckMeta
second_metadata =
    record {
      name = "unchecked-invoke-return";
      severity = "medium";
      short = "Flags discarded cross-contract call return values";
      rule = "Cross-contract invocation result is discarded";
      long = some "Reports bare invoke_contract statements whose return values are discarded.";
    }
    ∷ record {
      name = "missing-balance-check";
      severity = "high";
      short = "Flags token transfers without balance or authorization checks";
      rule = "Token transfer occurs without a balance or authorization check";
      long =
          some "Reports token transfer calls that lack a preceding balance or authorization check.";
    }
    ∷ record {
      name = "unbounded-vec-growth";
      severity = "medium";
      short = "Flags storage-backed Vec growth without a length cap";
      rule = "Storage-backed Vec can grow without a bound";
      long =
          some
            "Reports storage-backed Vec values pushed and written back without an apparent length cap.";
    }
    ∷ record {
      name = "unsafe-randomness";
      severity = "high";
      short = "Flags ledger timestamp or sequence as randomness";
      rule = "Ledger data is used as a randomness source";
      long = some "Reports ledger timestamp or sequence usage as a randomness source.";
    }
    ∷ record {
      name = "unchecked-divisor";
      severity = "high";
      short = "Flags division by runtime values without zero guards";
      rule = "Division uses a runtime divisor without a zero guard";
      long = some "Reports division by runtime values without an apparent non-zero guard.";
    }
    ∷ record {
      name = "reentrancy-risk";
      severity = "high";
      short = "Flags storage writes followed by cross-contract calls";
      rule = "Storage write followed by cross-contract invocation risks reentrancy";
      long =
          some
            "Reports contract methods that write to storage and then perform a cross-contract invocation, leaving state observable to a reentrant callee.";
    }
    ∷ record {
      name = "panic-in-contract";
      severity = "medium";
      short = "Flags panic!, unwrap, and expect in contract methods";
      rule = "Contract uses panic!, unwrap, or expect which abort the WASM execution";
      long =
          some
            "Reports panic!, unwrap(), expect(), and unreachable!() in contract methods, all of which trap and abort WASM execution.";
    }
    ∷ record {
      name = "unprotected-upgrade";
      severity = "high";
      short = "Flags upgrade entrypoints without authorization";
      rule = "Contract upgrade entrypoint lacks an authorization gate";
      long =
          some
            "Reports contract upgrade entrypoints that swap the contract WASM without an authorization gate.";
    }
    ∷ record {
      name = "unprotected-token-mint";
      severity = "high";
      short = "Flags token mint entrypoints without authorization";
      rule = "Token mint entrypoint lacks an authorization gate";
      long =
          some
            "Reports token mint entrypoints that create new supply without an authorization gate.";
    }
    ∷ record {
      name = "unprotected-contract-deployment";
      severity = "high";
      short = "Flags contract deployment calls without authorization";
      rule = "Contract deployment call lacks an authorization gate";
      long =
          some
            "Reports contract deployment calls that are reachable without an authorization gate.";
    }
    ∷ record {
      name = "unchecked-token-amount";
      severity = "medium";
      short = "Flags token amounts used without validation";
      rule = "Token amount used without validation";
      long =
          some
            "Reports token amount parameters passed to transfers or mints without a positivity or bounds check.";
    }
    ∷ record {
      name = "large-loop";
      severity = "medium";
      short = "Flags loops over unbounded collections";
      rule = "Loop may iterate over an unbounded collection";
      long =
          some
            "Reports loops that iterate over collections whose length is not bounded by a constant or validated input.";
    }
    ∷ record {
      name = "missing-nonce";
      severity = "medium";
      short = "Flags functions susceptible to replay attacks";
      rule = "Function susceptible to replay attacks lacks a nonce check";
      long = some "Reports replay-sensitive entrypoints that do not consume or verify a nonce.";
    }
    ∷ record {
      name = "uninitialized-storage-read";
      severity = "high";
      short = "Flags storage reads without initialization checks";
      rule = "Storage value read without checking if it has been initialized";
      long = some "Reports storage reads that are not guarded by a has() check or a default value.";
    }
    ∷ record {
      name = "missing-event-for-admin-change";
      severity = "medium";
      short = "Flags admin changes with no event emission";
      rule = "Admin-state change emits no event for off-chain indexers";
      long =
          some
            "Reports functions that change admin or ownership state without publishing an event for off-chain indexers.";
    }
    ∷ record {
      name = "missing-input-length-bound";
      severity = "medium";
      short = "Flags input collections without length bound checks";
      rule = "Input collection used without a length bound check";
      long =
          some
            "Reports input collection parameters used without checking their length against an upper bound.";
    }
    ∷ record {
      name = "auth-after-storage-write";
      severity = "high";
      short = "Flags authorization checks after storage writes";
      rule = "Authorization check occurs after a storage write";
      long =
          some
            "Reports functions that perform a storage write before their require_auth call, so unauthorized callers can still cause state changes.";
    }
    ∷ []
