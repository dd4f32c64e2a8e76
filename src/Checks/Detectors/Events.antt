-- ===== src/Checks/Detectors/Events.antt =====
-- crates/checks/src/events.rs: `missing-event-emission`.
pub mod Laws
use guard_cli.Prelude.{
  ℕ, String, Bool, true, false, not, ◌&&◌, ◌||◌, Option, some, List, [], ◌∷◌, if◌then◌else◌, ◌==◌,
  string_eq, contains,
}
use guard_cli.Prelude.Text.{◌<>◌}
use guard_cli.Checks.Ast.{Items, Method}
use guard_cli.Checks.Finding.{medium, Finding}
use guard_cli.Checks.Names
use guard_cli.Checks.Syntax.{Stmts}
use guard_cli.Checks.Syntax.Walk.{MethodCall, method_calls}
use guard_cli.Checks.Syntax.Util.{
  receiver_chain_contains_storage, receiver_chain_contains_events, or_line,
}
use guard_cli.Checks.Detectors.{docs, over_methods, first_line}

unfoldable pub is_storage_mutation_call : MethodCall → Bool
unfolding receiver_chain_contains_storage
is_storage_mutation_call m =
    contains ("set" ∷ "remove" ∷ "extend_ttl" ∷ "bump" ∷ "append" ∷ []) m.method
    && receiver_chain_contains_storage m.receiver

unfoldable pub is_event_publish_call : MethodCall → Bool
unfolding receiver_chain_contains_events
is_event_publish_call m = m.method == "publish" && receiver_chain_contains_events m.receiver

pub record FuncBodyScan : Type 0 where
  pub storage_write : Bool
  pub event_emitted : Bool

unfoldable pub scan_calls : FuncBodyScan → List MethodCall → FuncBodyScan
unfolding is_storage_mutation_call is_event_publish_call
scan_calls s [] = s
scan_calls s (m ∷ ms) =
    scan_calls
      (record {
        storage_write = s.storage_write || is_storage_mutation_call m;
        event_emitted = s.event_emitted || is_event_publish_call m;
      })
      ms

unfoldable pub first_storage_write_line : Stmts → Option ℕ
unfolding first_line is_storage_mutation_call
first_storage_write_line block = first_line is_storage_mutation_call (method_calls block)

abbrev pub missing_event_finding : Method → Finding
missing_event_finding method =
    let fn_name = method.ident in
    record {
      check_name = Names.missing_event_emission;
      severity = medium;
      file_path = "";
      line = or_line (first_storage_write_line method.block) method.ident_line;
      function_name = fn_name;
      description =
          "Method `"
          <> (fn_name
              <> "` writes to storage but does not emit an event. Consider using `env.events().publish(…)` to allow off-chain indexers to track contract activity.");
      rule_url = docs "missing-event-emission-medium";
      suggestion = some (
          "Add `env.events().publish((symbol_short!(\""
          <> (fn_name
              <> "\"), …), &payload)` after the storage write so off-chain indexers can track this state change."));
    }

unfoldable pub run_method : Method → List Finding
unfolding scan_calls first_storage_write_line
run_method method =
    let scan =
      scan_calls (record { storage_write = false; event_emitted = false })
        (method_calls method.block) in
    if not scan.storage_write || scan.event_emitted then [] else missing_event_finding method ∷ []

unfoldable pub run : Items → List Finding
unfolding run_method
run file = over_methods run_method file
