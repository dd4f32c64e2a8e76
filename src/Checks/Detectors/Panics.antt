-- ===== src/Checks/Detectors/Panics.antt =====
-- crates/checks/src/panics.rs: `panic-in-contract`.
use guard_cli.Prelude.{
  ℕ, String, Bool, false, not, ◌&&◌, some, List, [], ◌∷◌, ◌++◌, if◌then◌else◌, string_eq, contains,
}
use guard_cli.Prelude.Text.{◌<>◌}
use guard_cli.Checks.Ast.{Items, Method}
use guard_cli.Checks.Finding.{medium, Finding}
use guard_cli.Checks.Names
use guard_cli.Checks.Syntax.{Expr, method_call, SynMacro}
use guard_cli.Checks.Syntax.Walk.{Visited, at_expr, at_macro, visit_block, MethodCall}
use guard_cli.Checks.Syntax.Util.{receiver_chain_contains_storage}
use guard_cli.Checks.Detectors.{docs, over_methods}

unfoldable pub is_storage_get : Expr → Bool
unfolding receiver_chain_contains_storage
is_storage_get (method_call line receiver m args) =
    contains ("get" ∷ "get_unchecked" ∷ []) m && receiver_chain_contains_storage receiver
is_storage_get _ = false

-- the last segment of the macro's path
unfoldable pub macro_name : List String → String
macro_name [] = ""
macro_name (s ∷ []) = s
macro_name (s ∷ t ∷ rest) = macro_name (t ∷ rest)

-- the finding that `push` appends
abbrev pub panic_finding : String → ℕ → String → Finding
panic_finding fn_name line pattern_text = record {
  check_name = Names.panic_in_contract;
  severity = medium;
  file_path = "";
  line = line;
  function_name = fn_name;
  description =
      "`"
      <> (pattern_text
          <> ("` in `"
              <> (fn_name
                  <> "` will abort the transaction with an unhelpful error. Use `env.panic_with_error` or return a `Result` with a typed error instead.")));
  rule_url = docs "panic-in-contract-medium";
  suggestion =
      some
        "Replace with `env.panic_with_error(&MyError::Variant)` or change the return type to `Result<T, MyError>` and return `Err(…)` instead.";
}

abbrev pub is_panic_macro : SynMacro → Bool
is_panic_macro mac =
    contains ("panic" ∷ "unreachable" ∷ "todo" ∷ "unimplemented" ∷ []) (macro_name mac.segments)

-- `visit_macro`
unfoldable pub on_macro : String → SynMacro → List Finding
on_macro fn_name mac =
    if is_panic_macro mac
    then panic_finding fn_name mac.line (macro_name mac.segments <> "!") ∷ []
    else []

abbrev pub is_panic_call : MethodCall → Bool
is_panic_call m = contains ("unwrap" ∷ "expect" ∷ []) m.method && not (is_storage_get m.receiver)

-- `visit_expr_method_call`, in front of the default walk
unfoldable pub on_call : String → MethodCall → List Finding
on_call fn_name m =
    if is_panic_call m then panic_finding fn_name m.line ("." <> (m.method <> "()")) ∷ [] else []

-- What the visitor pushes, in the order of the walk.
unfoldable pub panic_visits : String → List Visited → List Finding
panic_visits fn_name [] = []
panic_visits fn_name (at_macro mac ∷ vs) = on_macro fn_name mac ++ panic_visits fn_name vs
panic_visits fn_name (at_expr (method_call l r m args) ∷ vs) =
    on_call fn_name (record { line = l; receiver = r; method = m; args = args })
    ++ panic_visits fn_name vs
panic_visits fn_name (_ ∷ vs) = panic_visits fn_name vs

unfoldable pub run_method : Method → List Finding
run_method method = panic_visits method.ident (visit_block method.block)

unfoldable pub run : Items → List Finding
unfolding run_method
run file = over_methods run_method file
