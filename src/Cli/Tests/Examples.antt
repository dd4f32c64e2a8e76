-- ===== src/Cli/Tests/Examples.antt =====
-- The properties of the command line on the small project.
use guard_cli.Prelude.{String, true, false, ◌≡◌, refl, List, [], ◌∷◌, ◌++◌, length, ok, string_eq}
use guard_cli.Prelude.Maps.{lookup, IsOrdered}
use guard_cli.Prelude.Text.{string_ord}
use guard_cli.Checks.Finding.{high, Finding}
use guard_cli.Checks.Registry.{name, missing_nonce_check}
use guard_cli.Checks.Tests.{three_findings}
use guard_cli.Analyzer.Paths.{FilePath}
use guard_cli.Analyzer.Errors.{parse}
use guard_cli.Analyzer.Scan.{scan_directory_with_checks}
use guard_cli.Analyzer.Tests.{demo, broken_demo, first_error, root_dir, two_checks, broken_scan}
use guard_cli.Cli.Metadata.Meta.{CheckMeta}
use guard_cli.Cli.Metadata.Laws.{IsDocumented, check_meta-name}
use guard_cli.Cli.Report.{truncate, escape_md_cell, rule_severity}
use guard_cli.Cli.Report.Laws.{
  truncate-prefix, is_text, escape_md_cell-is_text, IsWorst, rule_severity-IsWorst,
}
use guard_cli.Cli.Run.{run_on, run_scan}
use guard_cli.Cli.Run.Laws.{
  code-run_scan, exit_code, meets, Emits, run_on-Emits, run_scan-one_message, Fails,
}
use guard_cli.Cli.Setup.{setup}
use guard_cli.Cli.Setup.Laws.{setup-IsSetup, IsSetup}
use guard_cli.Cli.Tests.{project, plain, options, to_file, arguments, some_scan}

check_meta-name_example : (m : CheckMeta) × IsDocumented (name missing_nonce_check) m
check_meta-name_example = check_meta-name missing_nonce_check

truncate-prefix_example :
    (rest : List Finding) × ((truncate three_findings 2).0 ++ rest ≡ three_findings)
    × ((truncate three_findings 2).1 ≡ length rest)
    × (length rest ≡ 1)
truncate-prefix_example = truncate-prefix three_findings 2

escape_md_cell-is_text_example : is_text false false false (escape_md_cell "a|b\nc") ≡ true
escape_md_cell-is_text_example = escape_md_cell-is_text "a|b\nc"

rule_severity-IsWorst_example :
    IsOrdered (rule_severity three_findings)
    × ((k : String) → IsWorst k three_findings (lookup k (rule_severity three_findings)))
rule_severity-IsWorst_example = rule_severity-IsWorst three_findings

code-run_scan_example :
    (run_scan demo first_error plain options (two_checks demo)).code
    ≡ exit_code plain options
        (scan_directory_with_checks demo first_error root_dir [] [] (two_checks demo))
code-run_scan_example = code-run_scan demo first_error plain options (two_checks demo)

run_on-Emits_example :
    Emits plain to_file "{}"
      (meets high some_scan.results)
      (run_on plain to_file (ok some_scan)).events
run_on-Emits_example = run_on-Emits plain to_file some_scan refl

run_scan-one_message_example :
    ((run_scan broken_demo first_error plain to_file (two_checks broken_demo)).code ≡ 2)
    × Fails plain to_file to_file.json
        (parse ("/" ∷ "r" ∷ "a.rs" ∷ []) "expected `;`")
        (run_scan broken_demo first_error plain to_file (two_checks broken_demo)).events
run_scan-one_message_example =
    run_scan-one_message broken_demo first_error plain to_file (two_checks broken_demo) broken_scan

abbrev one_name : List String
one_name = "large-loop" ∷ []

abbrev two_names : List String
two_names = "self-transfer" ∷ "large-loop" ∷ []

abbrev one_component : String → FilePath
one_component s = s ∷ []

setup-IsSetup_example :
    IsSetup project one_component plain arguments (setup project one_component plain arguments)
setup-IsSetup_example = setup-IsSetup project one_component plain arguments
