-- ===== src/Analyzer/Scan.antt =====
-- `run_checks_for_file` and the three entry points of crates/analyzer/src/lib.rs. `par_iter` keeps
-- the order of the paths, but where it collects into a `Result` it returns any one of the errors:
-- `observed` says which.
pub mod Laws
pub mod Entry
pub mod Single
pub mod Complete
pub mod Files
use guard_cli.Prelude.{
  ℕ, zero, suc, ◌+◌, ◌%◌, String, Bool, true, false, not, ◌&&◌, ◌||◌, Option, none, some, List, [],
  ◌∷◌, ◌++◌, map, if◌then◌else◌, leb, ltb, ◌==◌, string_eq, length, is_empty, flat, retain, Result,
  ok, err, map_err,
}
use guard_cli.Prelude.Sort.{sort}
use guard_cli.Prelude.Text.{str_leb}
use guard_cli.Checks.Finding.{
  Finding, Payload, str_slice, owned, other, Outcome, hits, panics, Check,
}
use guard_cli.Checks.Registry.{Detector, default_checks}
use guard_cli.Analyzer.Paths.{FilePath, file_label}
use guard_cli.Analyzer.Errors.{
  IoError, ScanError, io_read, parse, check_panic, oks, errs, collect_scan_results,
}
use guard_cli.Analyzer.Suppress.{
  FnSpan, build_fn_spans, Suppressions, parse_suppressions, is_suppressed,
}
use guard_cli.Analyzer.Dedup.{dedup_findings, suppress_redundant_division_finding}
use guard_cli.Analyzer.Host.{Host, boxed}
use guard_cli.Analyzer.Filter.{
  Selection, nothing_selected, canonicalize_root, compile_globs, collect_rust_paths, select_paths,
  ◌>>=◌,
}

-- the message of a panic
unfoldable pub panic_message : Payload → String
panic_message (str_slice message) = message
panic_message (owned message) = message
panic_message other = "panic payload was not a string"

abbrev pub labelled : String → Finding → Finding
labelled label finding = record finding { file_path = label }

-- what the loop over the checks has gathered
pub record Hits : Type 0 where
  pub findings : List Finding
  pub check_panics : List ScanError

abbrev pub by_line : Finding → Finding → Bool
by_line a b = leb a.line b.line

-- sorted, without the redundant and the repeated findings
unfoldable pub tidy : List Finding → List Finding
tidy findings = dedup_findings (suppress_redundant_division_finding (sort by_line findings))

module _ (path : FilePath) (label : String) (suppressions : Suppressions)
    (fn_spans : List FnSpan) where
  -- the `match` on what `catch_unwind` returns
  unfoldable pub add_outcome : String → Outcome → Hits → Hits
  unfolding panic_message
  add_outcome check_name (hits found) s = record s {
    findings =
        s.findings
        ++ retain (λ f. not (is_suppressed f suppressions fn_spans)) (map (labelled label) found);
  }
  add_outcome check_name (panics payload) s = record s {
    check_panics = s.check_panics ++ check_panic check_name path (panic_message payload) ∷ [];
  }

  unfoldable pub run_checks {ℓ} : {File : Type ℓ} → File → String → List (Check File) → Hits → Hits
  unfolding add_outcome
  run_checks file content [] s = s
  run_checks file content (check ∷ checks) s =
      run_checks file content checks (add_outcome check.name (check.run file content) s)

pub record FileScanResult : Type 0 where
  pub file_path : String
  pub findings : List Finding

pub record ScanOutput (A : Type 0) : Type 0 where
  pub results : List A
  pub files_scanned : ℕ
  pub files_skipped : ℕ
  pub check_panics : List ScanError
  pub warnings : List String

abbrev pub by_file_and_line : Finding → Finding → Bool
by_file_and_line a b =
    if a.file_path == b.file_path then by_line a b else str_leb a.file_path b.file_path

abbrev pub by_file : FileScanResult → FileScanResult → Bool
by_file a b = str_leb a.file_path b.file_path

abbrev pub output_of : Selection → List (List Finding × List ScanError) → ScanOutput Finding
output_of selected collected = record {
  results = dedup_findings (sort by_file_and_line (flat (map (λ p. p.0) collected)));
  files_scanned = length selected.paths;
  files_skipped = selected.files_skipped;
  check_panics = flat (map (λ p. p.1) collected);
  warnings = selected.warnings;
}

module _ (h : Host) where
  open h use {File, is_file, read_to_string, parse_file, items}

  -- behind the read and the parse
  unfoldable pub run_checks_on :
      FilePath → FilePath → List (Check File) → String → File → List Finding × List ScanError
  unfolding run_checks tidy
  run_checks_on path root checks content syn_file =
      let fn_spans = build_fn_spans (items syn_file) in
      let found =
        run_checks path (file_label (is_file root) path root) (parse_suppressions content fn_spans)
          fn_spans syn_file content checks (record { findings = []; check_panics = [] }) in
      (tidy found.findings, found.check_panics)

  unfoldable pub run_checks_for_file :
      FilePath → FilePath → List (Check File) → Result (List Finding × List ScanError) ScanError
  unfolding run_checks_on
  run_checks_for_file path root checks = do
    content ← map_err (io_read path) (read_to_string path)
    syn_file ← map_err (parse path) (parse_file content)
    ok (run_checks_on path root checks content syn_file)

  -- the end of `scan_directory` and `scan_files`
  unfoldable pub scan_selected :
      FilePath → List (Check File) → Selection → Result (ScanOutput Finding) ScanError
  scan_selected root checks selected = do
    collected ←
        collect_scan_results (map (λ path. run_checks_for_file path root checks) selected.paths)
    ok (output_of selected collected)

  -- `default_checks()`, whose panic would end the process
  abbrev pub checked : Result (List Detector) String → Result (List (Check File)) String
  checked (ok detectors) = ok (map (boxed h) detectors)
  checked (err message) = err message

  abbrev pub with_checks {ℓ} :
      {A : Type ℓ} → Result (List (Check File)) String → (List (Check File) → A) → Result A String
  with_checks (ok checks) f = ok (f checks)
  with_checks (err message) f = err message

  -- The outer error is a panic. The root is made canonical before the checks are built.
  unfoldable pub scan_directory :
      FilePath → List String → List String → Result (Result (ScanOutput Finding) ScanError) String
  unfolding scan_selected
  scan_directory path excludes includes = elim (canonicalize_root h path) [
    | err e ↦ ok (err e)
    | ok root ↦ with_checks (checked default_checks) λ checks. do
      selected ← collect_rust_paths h root excludes includes
      scan_selected root checks selected
  ]

  -- the root and the paths of `scan_files`
  unfoldable pub choose_files :
      List FilePath → FilePath → List String → List String → Result (FilePath × Selection) ScanError
  choose_files paths path excludes includes = do
    root ← canonicalize_root h path
    exclude_patterns ← compile_globs h excludes
    include_patterns ← compile_globs h includes
    ok (root, select_paths h root exclude_patterns include_patterns paths nothing_selected)

  -- behind the choice, `default_checks()` and the scan
  unfoldable pub scan_chosen :
      Result (FilePath × Selection) ScanError
      → Result (Result (ScanOutput Finding) ScanError) String
  unfolding scan_selected
  scan_chosen (err e) = ok (err e)
  scan_chosen (ok (root, chosen)) =
      with_checks (checked default_checks) λ checks. scan_selected root checks chosen

  unfoldable pub scan_files :
      List FilePath
      → FilePath
      → List String
      → List String
      → Result (Result (ScanOutput Finding) ScanError) String
  unfolding scan_chosen choose_files
  scan_files paths path excludes includes = scan_chosen (choose_files paths path excludes includes)

  -- the closure of `scan_directory_with_checks`
  unfoldable pub scan_one :
      FilePath → List (Check File) → FilePath → Result (FileScanResult × List ScanError) ScanError
  scan_one root checks path = do
    (findings, check_panics) ← run_checks_for_file path root checks
    ok (
      record { file_path = file_label (is_file root) path root; findings = findings },
      check_panics,
    )

abbrev pub nth_or : ScanError → List ScanError → ℕ → ScanError
nth_or e [] n = e
nth_or e (x ∷ xs) zero = e
nth_or e (x ∷ xs) (suc n) = nth_or x xs n

-- `collect::<Result<Vec<_>, _>>()` of rayon
unfoldable pub collect_any {ℓ} :
    {A : Type ℓ} → (List ScanError → ℕ) → List (Result A ScanError) → Result (List A) ScanError
unfolding oks errs
collect_any observed results = elim (errs results) [
  | [] ↦ ok (oks results)
  | e ∷ es ↦ err (nth_or e es (observed (errs results)))
]

module _ (h : Host) (observed : List ScanError → ℕ) where
  open h use {File}

  unfoldable pub scan_directory_with_checks :
      FilePath
      → List String
      → List String
      → List (Check File)
      → Result (ScanOutput FileScanResult) ScanError
  unfolding collect_any scan_one
  scan_directory_with_checks path excludes includes checks = do
    root ← canonicalize_root h path
    selected ← collect_rust_paths h root excludes includes
    per_file ← collect_any observed (map (scan_one h root checks) selected.paths)
    ok (record {
      results = sort by_file (map (λ p. p.0) per_file);
      files_scanned = length selected.paths;
      files_skipped = selected.files_skipped;
      check_panics = flat (map (λ p. p.1) per_file);
      warnings = selected.warnings;
    })
