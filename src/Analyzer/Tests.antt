-- ===== src/Analyzer/Tests.antt =====
-- A small file system, and scans of it.
mod Examples
use guard_cli.Prelude.{
  ℕ, ◌+◌, String, Bool, true, false, not, ◌&&◌, ◌≡◌, ◌≢◌, refl, ◌↔◌, Option, none, some, List, [],
  ◌∷◌, map, length, any, take, Result, ok, err, ◌==◌, string_eq, contains, distinct, retain, All,
  ◌++◌, if◌then◌else◌,
}
use guard_cli.Prelude.Text.{rsplit_once}
use mathlib.Core.List.{Perm}
use guard_cli.Prelude.Sort.{sort, IsSorted}
use guard_cli.Checks.Ast.{Items, nil}
use guard_cli.Checks.Finding.{
  Severity, high, medium, low, Finding, Outcome, hits, panics, owned, Check,
}
use guard_cli.Checks.Registry.{
  Detector, name, default_checks, missing_nonce_check, self_transfer_check, all_checks_base,
}
use guard_cli.Checks.Tests.{finding_of, three_findings}
use guard_cli.Analyzer.Paths.{FilePath, is_rust, display, is_ignored_path, file_label}
use guard_cli.Analyzer.Errors.{
  IoError, ScanError, check_panic, io_read, traversal, multiple, CheckPanic, collect_scan_results,
  from_errors, errs, of_list, parse, error_leb,
}
use guard_cli.Analyzer.Host.{Host, FileType, file, directory, DirEntry, boxed}
use guard_cli.Analyzer.Suppress.{is_suppressed, parse_suppressions, build_fn_spans}
use guard_cli.Analyzer.Dedup.{
  place, FindingKey, dedup_findings, suppress_redundant_division_finding,
}
use guard_cli.Analyzer.Filter.{
  canonicalize_root, classify_rust_path, Selection, collect_rust_paths, has_generated_file_header,
  is_generated_marker, compile_globs, nothing_selected,
}
use guard_cli.Analyzer.Scan.{
  ScanOutput, FileScanResult, run_checks_for_file, scan_directory, scan_directory_with_checks,
  by_file_and_line,
}
use guard_cli.Analyzer.Dedup.Laws.{
  dedup_findings-distinct, suppress_redundant_division_finding-split, keys, key_eq, is_division,
  has_divisor_at,
}
use guard_cli.Analyzer.Errors.Laws.{collect_scan_results-ok, collect_scan_results-err}
use guard_cli.Analyzer.Errors.Report.{
  as_error, leaves_all, is_panic, from_errors-ok, from_errors-err,
}
use guard_cli.Analyzer.Filter.Laws.{
  has_generated_file_header-any, wanted, Under, collect_rust_paths-wanted,
  collect_rust_paths-ignored_root,
}
use guard_cli.Analyzer.Scan.Laws.{IsShown, IsPanicOn, run_checks_for_file-IsShown}
use guard_cli.Analyzer.Scan.Entry.{scan_directory-IsReport}
use guard_cli.Analyzer.Scan.Single.{is_multiple, scan_directory_with_checks-single}

-- Detectors over the text of a file: the self-transfer check finds line 2, the nonce check panics.
abbrev pub detect_demo : Detector → String → String → Outcome
detect_demo self_transfer_check parsed content = hits (finding_of "self-transfer" medium "" 2 ∷ [])
detect_demo missing_nonce_check parsed content = panics (owned "out of range")
detect_demo _ parsed content = hits []

abbrev pub entry_of : FilePath → DirEntry
entry_of path = record { path = path; file_type = file }

-- A directory /r with the files a.rs, which is allowed to do a self-transfer, b.rs and c.md.
abbrev pub demo : Host
demo = record {
  File = String;
  Pattern = String;
  is_file = λ path. is_rust path;
  canonicalize = λ path. ok path;
  read_to_string = λ path.
      if display path == "/r/a.rs"
      then ok "// soroban-guard: allow(self-transfer)\ncall();\n"
      else ok "x();\ny();\n";
  lines_read = λ path. ok (ok "x();" ∷ []);
  walk = λ root.
      ok (entry_of ("/" ∷ "r" ∷ "a.rs" ∷ []))
      ∷ ok (entry_of ("/" ∷ "r" ∷ "b.rs" ∷ []))
      ∷ ok (entry_of ("/" ∷ "r" ∷ "c.md" ∷ []))
      ∷ [];
  new_pattern = λ pattern. ok pattern;
  matches_path = λ pattern path. display path == pattern;
  parse_file = λ content. ok content;
  items = λ parsed. nil;
  detect = detect_demo;
}

-- The same, where no file can be parsed.
abbrev pub broken_demo : Host
broken_demo = record demo { parse_file = λ content. err "expected `;`" }

abbrev pub first_error : List ScanError → ℕ
first_error es = 0

abbrev pub root_dir : FilePath
root_dir = "/" ∷ "r" ∷ []

abbrev pub two_checks : (h : Host) → List (Check h.File)
two_checks h = map (boxed h) (self_transfer_check ∷ missing_nonce_check ∷ [])

pub selected_demo :
    collect_rust_paths demo root_dir [] []
    ≡ ok (record {
      paths = ("/" ∷ "r" ∷ "a.rs" ∷ []) ∷ ("/" ∷ "r" ∷ "b.rs" ∷ []) ∷ [];
      files_skipped = 0;
      warnings = [];
    })
unfolding collect_rust_paths is_rust rsplit_once is_ignored_path classify_rust_path
    has_generated_file_header
selected_demo = refl

abbrev pub b_rs : FilePath
b_rs = "/" ∷ "r" ∷ "b.rs" ∷ []

-- the finding of the self-transfer check in b.rs, and the panic of the nonce check there
pub run_b :
    run_checks_for_file demo b_rs root_dir (two_checks demo)
    ≡ ok (
      finding_of "self-transfer" medium "b.rs" 2 ∷ [],
      check_panic "missing-nonce" b_rs "out of range" ∷ [],
    )
unfolding run_checks_for_file display name dedup_findings suppress_redundant_division_finding sort
    is_suppressed parse_suppressions build_fn_spans file_label is_rust rsplit_once
run_b = refl

-- the comment in a.rs hides the finding there
run_a :
    run_checks_for_file demo ("/" ∷ "r" ∷ "a.rs" ∷ []) root_dir (two_checks demo)
    ≡ ok ([], check_panic "missing-nonce" ("/" ∷ "r" ∷ "a.rs" ∷ []) "out of range" ∷ [])
unfolding run_checks_for_file display name dedup_findings suppress_redundant_division_finding sort
    is_suppressed parse_suppressions build_fn_spans file_label is_rust rsplit_once
run_a = refl

abbrev pub b_finding : Finding
b_finding = finding_of "self-transfer" medium "b.rs" 2

pub scan_demo : (out : ScanOutput Finding) × (scan_directory demo root_dir [] [] ≡ ok (ok out))
unfolding scan_directory canonicalize_root default_checks collect_rust_paths collect_scan_results
    run_checks_for_file display is_rust rsplit_once is_ignored_path classify_rust_path
    has_generated_file_header
scan_demo = (_, refl)

pub broken_scan :
    scan_directory_with_checks broken_demo first_error root_dir [] [] (two_checks broken_demo)
    ≡ err (parse ("/" ∷ "r" ∷ "a.rs" ∷ []) "expected `;`")
unfolding scan_directory_with_checks canonicalize_root collect_rust_paths run_checks_for_file
    display is_rust rsplit_once is_ignored_path classify_rust_path has_generated_file_header
broken_scan = refl
