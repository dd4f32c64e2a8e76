-- ===== src/Analyzer/Tests/Examples.antt =====
-- The properties of the analyzer on the scans of the small file system.
use guard_cli.Prelude.{
  ℕ, String, true, false, not, ◌&&◌, ◌≡◌, ◌≢◌, refl, ◌↔◌, List, [], ◌∷◌, map, length, Result, ok,
  err, string_eq, contains, distinct, retain, All, ◌++◌,
}
use guard_cli.Prelude.Text.{rsplit_once}
use mathlib.Core.List.{Perm}
use guard_cli.Prelude.Sort.{sort, IsSorted}
use guard_cli.Checks.Finding.{high, medium, Finding}
use guard_cli.Checks.Tests.{finding_of}
use guard_cli.Analyzer.Paths.{display, FilePath, is_rust, is_ignored_path, file_label}
use guard_cli.Analyzer.Errors.{
  ScanError, check_panic, io_read, multiple, CheckPanic, collect_scan_results, from_errors, errs,
  of_list, parse, error_leb,
}
use guard_cli.Analyzer.Host.{Host, DirEntry}
use guard_cli.Analyzer.Suppress.{parse_suppressions, build_fn_spans}
use guard_cli.Analyzer.Dedup.{
  place, FindingKey, dedup_findings, suppress_redundant_division_finding,
}
use guard_cli.Analyzer.Filter.{
  canonicalize_root, Selection, collect_rust_paths, compile_globs, nothing_selected,
}
use guard_cli.Analyzer.Scan.{run_checks_for_file, by_file_and_line}
use guard_cli.Analyzer.Dedup.Laws.{
  dedup_findings-distinct, suppress_redundant_division_finding-split, keys, key_eq, is_division,
  has_divisor_at,
}
use guard_cli.Analyzer.Errors.Laws.{collect_scan_results-err}
use guard_cli.Analyzer.Errors.Report.{as_error, leaves_all, from_errors-ok}
use guard_cli.Analyzer.Filter.Laws.{
  wanted, collect_rust_paths-wanted, collect_rust_paths-ignored_root,
}
use guard_cli.Analyzer.Scan.Laws.{IsShown, IsPanicOn, run_checks_for_file-IsShown}
use guard_cli.Analyzer.Scan.Complete.{
  raised, panicked, shown, is_division_key, run_checks_for_file-raised,
}
use guard_cli.Checks.Ast.{nil}
use guard_cli.Analyzer.Scan.Files.{IsFilesReport, scan_files-IsFilesReport}
use guard_cli.Analyzer.Scan.{choose_files, scan_files}
use guard_cli.Analyzer.Scan.Entry.{scan_directory-IsReport}
use guard_cli.Analyzer.Scan.Single.{is_multiple, scan_directory_with_checks-single}
use guard_cli.Analyzer.Tests.{
  entry_of, demo, broken_demo, first_error, root_dir, two_checks, selected_demo, b_rs, run_b,
  b_finding, scan_demo, broken_scan,
}

dedup_findings-distinct_example :
    (distinct (keys (dedup_findings (b_finding ∷ b_finding ∷ []))) ≡ true)
    × ((k : FindingKey)
        → contains (keys (dedup_findings (b_finding ∷ b_finding ∷ []))) k
          ≡ contains (keys (b_finding ∷ b_finding ∷ [])) k)
    × (dedup_findings (dedup_findings (b_finding ∷ b_finding ∷ []))
        ≡ dedup_findings (b_finding ∷ b_finding ∷ []))
dedup_findings-distinct_example = dedup_findings-distinct (b_finding ∷ b_finding ∷ [])

-- both division checks at one place, and the truncating one alone
abbrev division_findings : List Finding
division_findings =
    finding_of "integer-division-truncation" medium "a.rs" 3
    ∷ finding_of "unchecked-divisor" high "a.rs" 3
    ∷ finding_of "integer-division-truncation" medium "a.rs" 4
    ∷ []

suppress_redundant_division_finding-split_example :
    (retain is_division (suppress_redundant_division_finding division_findings)
      ≡ retain
          (λ f. is_division f && not (has_divisor_at division_findings (place f)))
          division_findings)
    × (retain (λ f. not (is_division f)) (suppress_redundant_division_finding division_findings)
        ≡ retain (λ f. not (is_division f)) division_findings)
suppress_redundant_division_finding-split_example =
    suppress_redundant_division_finding-split division_findings

abbrev io_failure : ScanError
io_failure = io_read b_rs (record { permission_denied = true; message = "denied" })

abbrev two_results : List (Result ℕ ScanError)
two_results = ok 1 ∷ ok 2 ∷ []

abbrev failed_results : List (Result ℕ ScanError)
failed_results = ok 1 ∷ err io_failure ∷ []

failed_results-err :
    collect_scan_results failed_results ≡ err (multiple (of_list (io_failure ∷ [])))
unfolding collect_scan_results sort
failed_results-err = refl

collect_scan_results-err_example :
    (es : List ScanError) × (multiple (of_list (io_failure ∷ [])) ≡ multiple (of_list es))
    × Perm es (errs failed_results)
    × IsSorted error_leb es
    × (errs failed_results ≢ [])
collect_scan_results-err_example = collect_scan_results-err failed_results failed_results-err

abbrev b_panic : CheckPanic
b_panic = record { check = "missing-nonce"; path = b_rs; message = "out of range" }

from_errors-ok_example :
    (from_errors (as_error b_panic ∷ []) ≡ ok (b_panic ∷ []))
    ↔ (leaves_all (of_list (as_error b_panic ∷ [])) ≡ map as_error (b_panic ∷ []))
from_errors-ok_example = from_errors-ok (as_error b_panic ∷ []) (b_panic ∷ [])

mixed_errors-err : from_errors (as_error b_panic ∷ io_failure ∷ []) ≡ err io_failure
unfolding from_errors
mixed_errors-err = refl

abbrev demo_entries : List DirEntry
demo_entries =
    entry_of ("/" ∷ "r" ∷ "a.rs" ∷ []) ∷ entry_of b_rs ∷ entry_of ("/" ∷ "r" ∷ "c.md" ∷ []) ∷ []

root_dir-not_file : demo.is_file root_dir ≡ false
unfolding is_rust rsplit_once
root_dir-not_file = refl

abbrev demo_selection : Selection
demo_selection = record {
  paths = ("/" ∷ "r" ∷ "a.rs" ∷ []) ∷ b_rs ∷ [];
  files_skipped = 0;
  warnings = [];
}

collect_rust_paths-wanted_example :
    (ex : List String) × (inc : List String) × (es : List DirEntry) × (compile_globs demo []
      ≡ ok ex)
    × (compile_globs demo [] ≡ ok inc)
    × (demo.walk root_dir ≡ map ok es)
    × (demo_selection.paths ≡ map (λ entry. entry.path) (retain (wanted demo root_dir ex inc) es))
collect_rust_paths-wanted_example =
    collect_rust_paths-wanted demo root_dir [] [] root_dir-not_file selected_demo

-- the same directory inside one named target
abbrev target_dir : FilePath
target_dir = "/" ∷ "target" ∷ []

abbrev in_target : FilePath → FilePath
in_target rest = target_dir ++ rest

abbrev target_demo : Host
target_demo = record demo { walk = λ root. ok (entry_of (in_target ("a.rs" ∷ []))) ∷ [] }

target_ignored : is_ignored_path target_dir ≡ true
unfolding is_ignored_path
target_ignored = refl

target_dir-not_file : target_demo.is_file target_dir ≡ false
unfolding is_rust rsplit_once
target_dir-not_file = refl

target_selected : collect_rust_paths target_demo target_dir [] [] ≡ ok nothing_selected
unfolding collect_rust_paths is_rust rsplit_once is_ignored_path
target_selected = refl

collect_rust_paths-ignored_root_example : nothing_selected.paths ≡ []
collect_rust_paths-ignored_root_example =
    collect_rust_paths-ignored_root target_demo target_dir [] []
      (entry_of (in_target ("a.rs" ∷ [])) ∷ []) target_dir-not_file target_ignored refl
      (("a.rs" ∷ [], refl), tt) target_selected

run_checks_for_file-IsShown_example :
    (content : String) × (syn_file : String) × (demo.read_to_string b_rs ≡ ok content)
    × (demo.parse_file content ≡ ok syn_file)
    × All
        (IsShown
          (parse_suppressions content (build_fn_spans (demo.items syn_file)))
          (build_fn_spans (demo.items syn_file))
          (file_label (demo.is_file root_dir) b_rs root_dir))
        (b_finding ∷ [])
    × All (IsPanicOn b_rs) (check_panic "missing-nonce" b_rs "out of range" ∷ [])
run_checks_for_file-IsShown_example =
    run_checks_for_file-IsShown demo b_rs root_dir (two_checks demo) run_b

scan_directory-IsReport_example :
    IsSorted by_file_and_line scan_demo.0.results
    × (distinct (keys scan_demo.0.results) ≡ true)
    × ((root : FilePath) × (selected : Selection) × (canonicalize_root demo root_dir ≡ ok root)
        × (collect_rust_paths demo root [] [] ≡ ok selected)
        × (scan_demo.0.files_scanned ≡ length selected.paths)
        × (scan_demo.0.files_skipped ≡ selected.files_skipped))
    × ((ps : List CheckPanic) × (from_errors scan_demo.0.check_panics ≡ ok ps)
        × (scan_demo.0.check_panics ≡ map as_error ps))
scan_directory-IsReport_example = scan_directory-IsReport demo root_dir [] [] scan_demo.1

scan_directory_with_checks-single_example :
    is_multiple (parse ("/" ∷ "r" ∷ "a.rs" ∷ []) "expected `;`") ≡ false
scan_directory_with_checks-single_example =
    scan_directory_with_checks-single broken_demo first_error root_dir [] []
      (two_checks broken_demo) broken_scan

b_read : demo.read_to_string b_rs ≡ ok "x();\ny();\n"
unfolding display
b_read = refl

run_checks_for_file-raised_example :
    (findings : List Finding) × (run_checks_for_file demo b_rs root_dir (two_checks demo)
      ≡ ok (findings, panicked b_rs "x();\ny();\n" "x();\ny();\n" (two_checks demo)))
    × ((k : FindingKey)
        → is_division_key k ≡ false
        → contains (keys findings) k
          ≡ contains
              (keys (
                shown
                  (file_label (demo.is_file root_dir) b_rs root_dir)
                  (parse_suppressions "x();\ny();\n" (build_fn_spans nil))
                  (build_fn_spans nil)
                  (raised "x();\ny();\n" "x();\ny();\n" (two_checks demo))))
              k)
run_checks_for_file-raised_example =
    run_checks_for_file-raised demo b_rs root_dir (two_checks demo) "x();\ny();\n" "x();\ny();\n"
      b_read refl

scan_files-IsFilesReport_example :
    IsFilesReport demo
      (choose_files demo (b_rs ∷ []) root_dir [] [])
      (scan_files demo (b_rs ∷ []) root_dir [] [])
scan_files-IsFilesReport_example = scan_files-IsFilesReport demo (b_rs ∷ []) root_dir [] []
