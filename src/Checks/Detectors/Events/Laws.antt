-- ===== src/Checks/Detectors/Events/Laws.antt =====
-- What crates/checks/src/events.rs and missing_event_for_admin_change.rs report, as tests on the calls of
-- the body.
use guard_cli.Prelude.{
  ℕ, ◌≡◌, refl, sym, ap, ◌∙◌, Bool, true, false, not, ◌&&◌, ◌||◌, Option, none, some, List, [], ◌∷◌,
  if◌then◌else◌, any, find, arith, Bool-cases, inl, inr, is_empty,
}
use guard_cli.Checks.Ast.{Method}
use guard_cli.Checks.Finding.{Finding}
use guard_cli.Checks.Syntax.Walk.{MethodCall, method_calls}
use guard_cli.Checks.Syntax.Util.{or_line}
use guard_cli.Checks.Detectors.{first_line, first_line_from}
use guard_cli.Checks.Detectors.Events.{
  is_storage_mutation_call, is_event_publish_call, FuncBodyScan, scan_calls,
  first_storage_write_line, missing_event_finding, run_method,
}
use guard_cli.Checks.Detectors.AdminChange

abbrev pub line_of : Option MethodCall → Option ℕ
line_of none = none
line_of (some m) = some m.line

first_line_from-some :
    (l : ℕ) (p : MethodCall → Bool) (ms : List MethodCall) → first_line_from (some l) p ms ≡ some l
unfolding first_line_from
first_line_from-some l p [] = refl
first_line_from-some l p (m ∷ ms) = first_line_from-some l p ms

-- the visitor's line is that of the first call that passes the test
pub first_line-find :
    (p : MethodCall → Bool) (ms : List MethodCall) → first_line p ms ≡ line_of (find p ms)
unfolding first_line
first_line-find p [] = refl
first_line-find p (m ∷ ms) = elim (Bool-cases (p m)) [
  | inl e ↦ rw e (first_line_from-some m.line p ms)
  | inr e ↦ rw e (first_line-find p ms)
]

scan_calls-any :
    (s : FuncBodyScan) (ms : List MethodCall)
    → ((scan_calls s ms).storage_write ≡ (s.storage_write || any is_storage_mutation_call ms))
      × ((scan_calls s ms).event_emitted ≡ (s.event_emitted || any is_event_publish_call ms))
unfolding scan_calls
scan_calls-any s [] = (ground arith, ground arith)
scan_calls-any s (m ∷ ms) =
    let next : FuncBodyScan = record {
      storage_write = s.storage_write || is_storage_mutation_call m;
      event_emitted = s.event_emitted || is_event_publish_call m;
    } in
    let ih = scan_calls-any next ms in (ground (arith, ih.0), ground (arith, ih.1))

-- the finding, at the line of the first call that writes
abbrev pub at_first_write : Method → Finding
at_first_write method = record (missing_event_finding method) {
  line =
      or_line (line_of (find is_storage_mutation_call (method_calls method.block)))
        method.ident_line;
}

missing_event_finding_lem : (method : Method) → missing_event_finding method ≡ at_first_write method
unfolding first_storage_write_line
missing_event_finding_lem method =
    ap (λ o. record (missing_event_finding method) { line = or_line o method.ident_line })
      (first_line-find is_storage_mutation_call (method_calls method.block))

-- A method is reported exactly if one of its calls writes to the storage and none publishes an event, with
-- one finding, at the line of the first call that writes.
pub events_run_method-reports :
    (method : Method)
    → run_method method ≡ (
        if any is_storage_mutation_call (method_calls method.block)
          && not (any is_event_publish_call (method_calls method.block))
        then at_first_write method ∷ []
        else [])
unfolding run_method
events_run_method-reports method =
    let scan =
      scan_calls-any (record { storage_write = false; event_emitted = false })
        (method_calls method.block) in
    ground (arith, scan.0, scan.1, missing_event_finding_lem method)

found_by-any :
    (p : MethodCall → Bool) (b : Bool) (ms : List MethodCall)
    → AdminChange.found_by p b ms ≡ (b || any p ms)
found_by-any p b [] = ground arith
found_by-any p b (m ∷ ms) = ground (arith, found_by-any p (b || p m) ms)

any_mono :
    (p q : MethodCall → Bool)
    → ((m : MethodCall) → p m ≡ true → q m ≡ true)
    → (ms : List MethodCall) → any p ms ≡ true
    → any q ms ≡ true
any_mono p q h [] k = k
any_mono p q h (m ∷ ms) k = ground (arith, k, h m, any_mono p q h ms)

-- a write of the one file is a mutation of the other
writes-mutation : (m : MethodCall) → AdminChange.writes m ≡ true → is_storage_mutation_call m ≡ true
unfolding is_storage_mutation_call
writes-mutation m h = ground (arith, h)

admin_change-no_event :
    (method : Method)
    → is_empty (AdminChange.run_method method) ≡ false
    → (AdminChange.has_storage_write method.block ≡ true)
      × (AdminChange.has_event_emit method.block ≡ false)
unfolding AdminChange.run_method
admin_change-no_event method h = (ground (arith, h), ground (arith, h))

-- A method that is reported as an admin change without an event is reported for its missing event too.
pub admin_change-missing_event :
    (method : Method)
    → is_empty (AdminChange.run_method method) ≡ false
    → run_method method ≡ at_first_write method ∷ []
unfolding AdminChange.has_storage_write AdminChange.has_event_emit is_event_publish_call
admin_change-missing_event method h =
    let calls = method_calls method.block in
    let both = admin_change-no_event method h in
    let writes : any AdminChange.writes calls ≡ true =
      sym (found_by-any AdminChange.writes false calls) ∙ both.0 in
    let silent : any is_event_publish_call calls ≡ false =
      sym (found_by-any AdminChange.publishes false calls) ∙ both.1 in
    let mutates =
      any_mono AdminChange.writes is_storage_mutation_call writes-mutation calls writes in
    ground (arith, events_run_method-reports method, mutates, silent)
