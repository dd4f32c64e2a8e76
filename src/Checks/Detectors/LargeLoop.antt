-- ===== src/Checks/Detectors/LargeLoop.antt =====
-- crates/checks/src/large_loop.rs: `large-loop`.
use guard_cli.Prelude.{ℕ, String, some, List, [], ◌∷◌, map, if◌then◌else◌}
use guard_cli.Prelude.Text.{◌<>◌}
use guard_cli.Checks.Ast.{Items, Method}
use guard_cli.Checks.Finding.{medium, Finding}
use guard_cli.Checks.Names
use guard_cli.Checks.Syntax.{loop_expr, LoopKind, plain_loop, while_loop, for_loop}
use guard_cli.Checks.Syntax.Walk.{Visited, at_expr, visit_block}
use guard_cli.Checks.Detectors.{docs, over_methods}

abbrev pub loop_type : LoopKind → String
loop_type plain_loop = "loop"
loop_type while_loop = "while"
loop_type for_loop = "for"

-- the visitor `LoopFinder`: what it pushes, in the order of the walk
unfoldable pub loops_in : List Visited → List (ℕ × String)
loops_in [] = []
loops_in (at_expr (loop_expr line kind parts) ∷ vs) = (line, loop_type kind) ∷ loops_in vs
loops_in (_ ∷ vs) = loops_in vs

abbrev pub loop_finding : String → ℕ × String → Finding
loop_finding fn_name (line, kind) = record {
  check_name = Names.large_loop;
  severity = medium;
  file_path = "";
  line = line;
  function_name = fn_name;
  description = "Unbounded " <> (kind <> " loop can exhaust compute budget");
  rule_url = docs "large-loop-medium";
  suggestion = some "Use bounded iteration or add explicit break conditions";
}

unfoldable pub run_method : Method → List Finding
unfolding loops_in
run_method method =
    if method.is_public
    then map (loop_finding method.ident) (loops_in (visit_block method.block))
    else []

unfoldable pub run : Items → List Finding
unfolding run_method
run file = over_methods run_method file
