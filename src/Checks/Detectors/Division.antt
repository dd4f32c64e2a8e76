-- ===== src/Checks/Detectors/Division.antt =====
-- crates/checks/src/division.rs: `integer-division-truncation`.
use guard_cli.Prelude.{String, Bool, true, false, not, ◌&&◌, some, List, [], ◌∷◌, if◌then◌else◌}
use guard_cli.Prelude.Text.{◌<>◌}
use guard_cli.Checks.Ast.{Items, Method}
use guard_cli.Checks.Finding.{medium, Finding}
use guard_cli.Checks.Names
use guard_cli.Checks.Syntax.{Expr, lit, BinOp, div, div_assign}
use guard_cli.Checks.Syntax.Walk.{Binary, binaries}
use guard_cli.Checks.Detectors.{docs, over_methods}

unfoldable pub is_literal : Expr → Bool
is_literal (lit line text) = true
is_literal _ = false

abbrev pub flagged_op : BinOp → Expr → Expr → Bool
flagged_op div left right = not (is_literal left && is_literal right)
flagged_op div_assign left right = not (is_literal right)
flagged_op _ left right = false

-- the condition `flagged` of `visit_expr_binary`
unfoldable pub flagged : Binary → Bool
unfolding is_literal
flagged i = flagged_op i.op i.left i.right

abbrev pub op_text : BinOp → String
op_text div = "/"
op_text _ = "/="

abbrev pub division_finding : String → Binary → Finding
division_finding fn_name i = record {
  check_name = Names.integer_division_truncation;
  severity = medium;
  file_path = "";
  line = i.line;
  function_name = fn_name;
  description =
      "Integer division (`"
      <> (op_text i.op
          <> ("`) in `"
              <> (fn_name
                  <> "` silently truncates the result. In token math this can drain value; consider whether rounding is intentional and use checked_div or explicit rounding where appropriate.")));
  rule_url = docs "integer-division-truncation-medium";
  suggestion =
      some
        "Use `checked_div` and handle the `None` case, or document the rounding direction explicitly (e.g. floor vs. ceiling) with a comment.";
}

-- What `visit_expr_binary` pushes, in the order of the walk.
unfoldable pub div_visits : String → List Binary → List Finding
unfolding flagged
div_visits fn_name [] = []
div_visits fn_name (i ∷ is) =
    let rest = div_visits fn_name is in
    if flagged i then division_finding fn_name i ∷ rest else rest

unfoldable pub run_method : Method → List Finding
unfolding div_visits
run_method method = div_visits method.ident (binaries method.block)

unfoldable pub run : Items → List Finding
unfolding run_method
run file = over_methods run_method file
