-- ===== src/Checks/Detectors/Tests/Examples.antt =====
-- Runs of the arithmetic, address and annotation detectors, and of all detectors as one function.
use guard_cli.Prelude.{
  ℕ, String, ◌≡◌, refl, ◌↔◌, Bool, true, none, some, [], ◌∷◌, map, all, retain, contains, ◌==◌,
  string_eq,
}
use guard_cli.Checks.Ast.{Method, fn_item, Items, impl_block, nil, cons}
use guard_cli.Prelude.Text.{◌<>◌}
use guard_cli.Prelude.Lowercase.{lower_char}
use guard_cli.Checks.Registry.{name, missing_require_auth_check}
use guard_cli.Checks.Syntax.{Expr, method_call, binary, no_args, arg, add, div}
use guard_cli.Checks.Syntax.Walk.{visit_block, calls_in, Binary, binaries, binaries_in}
use guard_cli.Checks.Detectors.Tests.{
  named, no_arg_call, body, method_of, unauthorized, text_of, lines_of,
}
use guard_cli.Checks.Detectors.Auth
use guard_cli.Checks.Detectors.Division
use guard_cli.Checks.Detectors.Panics
use guard_cli.Checks.Detectors.Address.Lines.{effective_lines}
use guard_cli.Checks.Detectors.Overflow.{name_words}
use guard_cli.Checks.Detectors.Overflow
use guard_cli.Checks.Detectors.Overflow.Laws.{Wraps, IsGuarded, overflow_run_method-reports}
use guard_cli.Checks.Detectors.Address.Keys.{find_candidate_keys}
use guard_cli.Checks.Detectors.Address.Places.{is_address, StandsAlone}
use guard_cli.Checks.Detectors.Address.Exact.{find_candidate_keys-exact}
use guard_cli.Checks.Detectors.Stamp.{findings_of, findings_of-stamped}
use guard_cli.Checks.Detectors.Stamp.Lists.{stamped}

-- the equality of two names, for that of `syn`
abbrev same_name : Expr → Expr → Bool
same_name a b = text_of a == text_of b

abbrev sum_at : ℕ → String → String → Expr
sum_at line a b = binary line add (named a) (named b)

-- `balance + amount; count.checked_add(step); count + step; a / b; limit.unwrap();`, with the guarded sum on
-- the line of its guard
abbrev arithmetic : Method
arithmetic = method_of (
    body (
      sum_at 4 "balance" "amount"
      ∷ method_call 5 (named "count") "checked_add" (arg (named "step") no_args)
      ∷ sum_at 5 "count" "step"
      ∷ binary 6 div (named "a") (named "b")
      ∷ no_arg_call 7 (named "limit") "unwrap"
      ∷ []))

overflow_run_method-reports_example :
    (wanted : Binary → Bool) × (Overflow.run_method same_name arithmetic
      ≡ map
          (Overflow.overflow_finding arithmetic.ident)
          (retain wanted (binaries arithmetic.block)))
    × ((e : Binary) → (wanted e ≡ true) ↔ (Wraps e × (IsGuarded same_name arithmetic.block e → ⊥)))
overflow_run_method-reports_example = overflow_run_method-reports same_name arithmetic

arithmetic_test :
    (lines_of (Overflow.run_method same_name arithmetic) ≡ 4 ∷ [])
    × (lines_of (Division.run_method arithmetic) ≡ 6 ∷ [])
    × (lines_of (Panics.run_method arithmetic) ≡ 7 ∷ [])
unfolding lines_of Overflow.run_method Division.run_method Panics.run_method visit_block calls_in
    binaries_in Panics.panic_visits Panics.on_call Panics.is_storage_get
arithmetic_test = (refl, refl, refl)

name_words_test : name_words "itemCount_max" ≡ "item" ∷ "count" ∷ "max" ∷ []
unfolding name_words lower_char
name_words_test = refl

abbrev account : String
account = "GAAAAAAAAAAAAAAAAAAAAAAAAAAAAAAAAAAAAAAAAAAAAAAAAAAAAWHF"

find_candidate_keys-exact_example :
    (contains (find_candidate_keys ("\"" <> (account <> "\""))) account ≡ true)
    ↔ ((is_address account ≡ true) × StandsAlone ("\"" <> (account <> "\"")) account)
find_candidate_keys-exact_example = find_candidate_keys-exact ("\"" <> (account <> "\"")) account

keys_test :
    (find_candidate_keys ("\"" <> (account <> "\"")) ≡ account ∷ [])
    × (find_candidate_keys ("_" <> account) ≡ [])
unfolding find_candidate_keys
keys_test = (refl, refl)

effective_test : effective_lines "a/*b\nc*/d // e\n\"//\" f" ≡ "a" ∷ "d " ∷ "\"//\" f" ∷ []
unfolding effective_lines
effective_test = refl

abbrev contract : Items
contract =
    cons
      (impl_block (record {
        attrs =
            record {
              path = record { segments = "contractimpl" ∷ []; get_ident = some "contractimpl" };
              args = none;
            }
            ∷ [];
        self_ty = some ("Token" ∷ []);
        items = fn_item unauthorized ∷ [];
        span = record { start_line = 2; end_line = 10 };
      }))
      nil

findings_of-stamped_example :
    all (stamped (name missing_require_auth_check)) (Auth.run contract) ≡ true
unfolding findings_of
findings_of-stamped_example =
    findings_of-stamped text_of same_name missing_require_auth_check contract "" (Auth.run contract)
      refl
