-- ===== src/Checks/Ast/Util/Tests.antt =====
-- Tests of the walk over contract implementations.
use guard_cli.Prelude.{true, String, ◌≡◌, none, some, [], ◌∷◌, map, flat}
use guard_cli.Checks.Syntax.{no_stmts}
use guard_cli.Checks.Ast.{
  Span, Method, fn_item, Items, mod_inline, impl_block, other_item, nil, cons,
}
use guard_cli.Checks.Ast.Util.{
  contractimpl_functions_excluding_test, contractimpl_functions_with_type_excluding_test,
}
use guard_cli.Checks.Ast.Util.Laws.{live, typed_methods, contractimpl_functions-live}

abbrev one_line : Span
one_line = record { start_line = 1; end_line = 1 }

abbrev method_of : String → Method
method_of ident = record {
  ident = ident;
  ident_line = 1;
  fn_line = 1;
  is_public = true;
  inputs = [];
  span = one_line;
  block = no_stmts;
  block_end_line = 1;
}

abbrev contract_of : String → Items → Items
contract_of ident rest =
    cons
      (impl_block (record {
        attrs =
            record {
              path = record { segments = "contractimpl" ∷ []; get_ident = some "contractimpl" };
              args = none;
            }
            ∷ [];
        self_ty = some ("Token" ∷ []);
        items = fn_item (method_of ident) ∷ [];
        span = one_line;
      }))
      rest

abbrev small_file : Items
small_file =
    contract_of "mint"
      (cons (mod_inline one_line [] "tests" (contract_of "mock" nil)) (cons other_item nil))

contractimpl_functions-live_example :
    (contractimpl_functions_with_type_excluding_test small_file
      ≡ flat (map typed_methods (live small_file)))
    × (map (λ p. p.1) (contractimpl_functions_with_type_excluding_test small_file)
        ≡ contractimpl_functions_excluding_test small_file)
contractimpl_functions-live_example = contractimpl_functions-live small_file
