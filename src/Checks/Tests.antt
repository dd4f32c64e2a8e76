-- ===== src/Checks/Tests.antt =====
-- Tests of the registry and the grouping.
use guard_cli.Prelude.{
  ℕ, String, true, not, ◌≡◌, refl, none, List, [], ◌∷◌, map, length, ok, err, ◌==◌, string_eq,
  contains, distinct, retain,
}
use guard_cli.Prelude.Maps.{tree_entry, lookup, IsOrdered}
use guard_cli.Prelude.Text.{string_ord}
use guard_cli.Checks.Finding.{
  severity_leb, Severity, high, medium, severity_eq, severity_ord, Finding,
}
use guard_cli.Checks.Registry.{
  Detector, name, all_checks_base, ensure_unique_check_names, default_checks_with_config,
  self_transfer_check, missing_nonce_check,
}
use guard_cli.Checks.Registry.Unique.{default_checks_with_config-ok}
use guard_cli.Checks.Grouping.{group_from, group_by_file, group_by_severity}
use guard_cli.Checks.Grouping.Laws.{joined, group_by_file-groups}

abbrev pub finding_of : String → Severity → String → ℕ → Finding
finding_of check severity file line = record {
  check_name = check;
  severity = severity;
  file_path = file;
  line = line;
  function_name = "transfer";
  description = "";
  rule_url = none;
  suggestion = none;
}

abbrev pub three_findings : List Finding
three_findings =
    finding_of "self-transfer" medium "b.rs" 3
    ∷ finding_of "missing-nonce" high "a.rs" 9
    ∷ finding_of "self-transfer" medium "a.rs" 4
    ∷ []

abbrev repeated_checks : List Detector
repeated_checks = self_transfer_check ∷ missing_nonce_check ∷ self_transfer_check ∷ []

all_checks_base-34 : length all_checks_base ≡ 34
unfolding all_checks_base
all_checks_base-34 = refl

repeated_checks-err :
    ensure_unique_check_names repeated_checks ≡ err "duplicate check name: self-transfer"
unfolding ensure_unique_check_names name
repeated_checks-err = refl

group_by_severity-order : map (λ p. p.0) (group_by_severity three_findings) ≡ high ∷ medium ∷ []
unfolding group_by_severity group_from tree_entry severity_leb
group_by_severity-order = refl

default_checks_with_config-ok_example :
    (checks : List Detector) × (default_checks_with_config ("large-loop" ∷ []) ("freeze" ∷ [])
      ≡ ok checks)
    × (map name checks
        ≡ retain (λ n. not (contains ("large-loop" ∷ []) n)) (map name all_checks_base))
    × (distinct (map name checks) ≡ true)
default_checks_with_config-ok_example =
    default_checks_with_config-ok ("large-loop" ∷ []) ("freeze" ∷ [])

group_by_file-groups_example :
    IsOrdered (group_by_file three_findings)
    × ((path : String)
        → lookup path (group_by_file three_findings)
          ≡ joined none (retain (λ f. f.file_path == path) three_findings))
group_by_file-groups_example = group_by_file-groups three_findings
