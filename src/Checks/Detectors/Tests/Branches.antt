-- ===== src/Checks/Detectors/Tests/Branches.antt =====
-- Runs of the detector for reentrancy on methods with branches.
use guard_cli.Prelude.{ℕ, String, ◌≡◌, refl, List, [], ◌∷◌, string_eq}
use guard_cli.Checks.Ast.{Method}
use guard_cli.Checks.Syntax.{Expr, method_call, if_expr, Exprs, no_args, arg, no_else}
use guard_cli.Checks.Syntax.Walk.{MethodCall}
use guard_cli.Checks.Detectors.Reentrancy
use guard_cli.Checks.Detectors.Tests.{
  named, no_arg_call, persistent, storage_call, invoke, body, method_of, lines_of,
}

abbrev called : ℕ → Expr → String → Exprs → MethodCall
called line receiver method args = record {
  line = line;
  receiver = receiver;
  method = method;
  args = args;
}

-- `if flag { env.storage().persistent().set(key); } env.invoke_contract();`
abbrev branching : Method
branching =
    method_of
      (body (if_expr 4 (named "flag") (body (storage_call 5 "set" ∷ [])) no_else ∷ invoke 6 ∷ []))

abbrev set_call : MethodCall
set_call = called 5 (persistent 5) "set" (arg (named "key") no_args)

abbrev chain_calls : List MethodCall
chain_calls =
    called 5 (no_arg_call 5 (named "env") "storage") "persistent" no_args
    ∷ called 5 (named "env") "storage" no_args
    ∷ []

abbrev invoke_call : MethodCall
invoke_call = called 6 (named "env") "invoke_contract" no_args

branching_test : lines_of (Reentrancy.run_method branching) ≡ 6 ∷ []
unfolding lines_of Reentrancy.run_method Reentrancy.is_storage_write Reentrancy.is_storage_read
    Reentrancy.is_invoke_contract
branching_test = refl

-- An external call in the condition of an `if` is not seen, even behind a write.
condition_test :
    Reentrancy.run_method
      (method_of (body (storage_call 4 "set" ∷ if_expr 5 (invoke 5) (body []) no_else ∷ [])))
    ≡ []
unfolding Reentrancy.run_method Reentrancy.is_storage_write Reentrancy.is_storage_read
    Reentrancy.is_invoke_contract
condition_test = refl

-- A branch that reads back what it wrote does not calm the visitor, where the other branch does nothing.
read_back_test :
    lines_of (
      Reentrancy.run_method (
        method_of (
          body (
            if_expr 4
              (named "flag")
              (body (storage_call 5 "set" ∷ storage_call 6 "get" ∷ []))
              no_else
            ∷ invoke 7
            ∷ []))))
    ≡ 7 ∷ []
unfolding lines_of Reentrancy.run_method Reentrancy.is_storage_write Reentrancy.is_storage_read
    Reentrancy.is_invoke_contract
read_back_test = refl

-- `env.storage().persistent().set(key, env.invoke_contract());`, where the external call runs in front of the
-- write whose value it gives: it is reported as one behind it.
stored_result_test :
    lines_of (
      Reentrancy.run_method (
        method_of (
          body (
            method_call 4 (persistent 4) "set" (arg (named "key") (arg (invoke 4) no_args)) ∷ []))))
    ≡ 4 ∷ []
unfolding lines_of Reentrancy.run_method Reentrancy.is_storage_write Reentrancy.is_storage_read
    Reentrancy.is_invoke_contract
stored_result_test = refl
