-- ===== src/Checks/Detectors/AdminChange.antt =====
-- crates/checks/src/missing_event_for_admin_change.rs.
use guard_cli.Prelude.{
  String, Bool, false, not, ◌&&◌, ◌||◌, some, List, [], ◌∷◌, if◌then◌else◌, ◌==◌, string_eq,
  contains, any,
}
use guard_cli.Prelude.Text.{◌<>◌, includes}
use guard_cli.Checks.Ast.{Items, Method}
use guard_cli.Checks.Finding.{medium, Finding}
use guard_cli.Checks.Names
use guard_cli.Checks.Syntax.{Stmts}
use guard_cli.Checks.Syntax.Walk.{MethodCall, method_calls}
use guard_cli.Checks.Syntax.Util.{receiver_chain_contains_storage, receiver_chain_contains_events}
use guard_cli.Checks.Detectors.{docs, over_methods}

abbrev pub admin_names : List String
admin_names = "set_owner" ∷ "set_admin" ∷ "transfer_ownership" ∷ "set_operator" ∷ []

unfoldable pub is_admin_name : String → Bool
unfolding includes
is_admin_name name = any (λ a. includes name a) admin_names

-- a flag that is set by a call and never cleared
abbrev pub found_by : (MethodCall → Bool) → Bool → List MethodCall → Bool
found_by p found [] = found
found_by p found (m ∷ ms) = found_by p (found || p m) ms

abbrev pub writes : MethodCall → Bool
writes m =
    contains ("set" ∷ "remove" ∷ "append" ∷ []) m.method
    && receiver_chain_contains_storage m.receiver

abbrev pub publishes : MethodCall → Bool
publishes m = m.method == "publish" && receiver_chain_contains_events m.receiver

unfoldable pub has_storage_write : Stmts → Bool
has_storage_write block = found_by writes false (method_calls block)

unfoldable pub has_event_emit : Stmts → Bool
has_event_emit block = found_by publishes false (method_calls block)

abbrev pub admin_change_finding : Method → Finding
admin_change_finding method = record {
  check_name = Names.missing_event_for_admin_change;
  severity = medium;
  file_path = "";
  line = method.fn_line;
  function_name = method.ident;
  description = "Admin change function `" <> (method.ident <> "` lacks event emission");
  rule_url = docs "missing-event-for-admin-change-medium";
  suggestion = some "Emit an event with env.events().publish() to track admin changes";
}

unfoldable pub run_method : Method → List Finding
unfolding is_admin_name has_storage_write has_event_emit
run_method method =
    if is_admin_name method.ident
      && method.is_public
      && has_storage_write method.block
      && not (has_event_emit method.block)
    then admin_change_finding method ∷ []
    else []

unfoldable pub run : Items → List Finding
unfolding run_method
run file = over_methods run_method file
