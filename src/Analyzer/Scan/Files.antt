-- ===== src/Analyzer/Scan/Files.antt =====
-- The scan of a list of files.
use guard_cli.Prelude.{String, ◌≡◌, refl, true, List, map, length, distinct, Result, ok, err}
use guard_cli.Prelude.Sort.{IsSorted}
use guard_cli.Checks.Finding.{Finding}
use guard_cli.Checks.Registry.{all_checks_base}
use guard_cli.Analyzer.Paths.{FilePath}
use guard_cli.Analyzer.Errors.{ScanError, CheckPanic, from_errors}
use guard_cli.Analyzer.Errors.Report.{as_error}
use guard_cli.Analyzer.Dedup.Laws.{keys, key_eq}
use guard_cli.Analyzer.Host.{Host, boxed}
use guard_cli.Analyzer.Filter.{Selection}
use guard_cli.Analyzer.Scan.{
  ScanOutput, by_file_and_line, scan_selected, choose_files, scan_chosen, scan_files,
}
use guard_cli.Analyzer.Scan.Laws.{scan_selected-IsSorted}
use guard_cli.Analyzer.Scan.Entry.{
  default_checks-ok, from_errors_of_AllPanics, scan_selected-AllPanics,
}

-- a report of a scan of the chosen files, or an error; never a panic
abbrev pub IsFilesReport :
    (h : Host)
    → Result (FilePath × Selection) ScanError
    → Result (Result (ScanOutput Finding) ScanError) String
    → Type 0
IsFilesReport h chosen (err message) = ⊥
IsFilesReport h chosen (ok (err e)) = Unit
IsFilesReport h chosen (ok (ok out)) =
    IsSorted by_file_and_line out.results
    × (distinct (keys out.results) ≡ true)
    × ((root : FilePath) × (selected : Selection) × (chosen ≡ ok (root, selected))
        × (out.files_scanned ≡ length selected.paths)
        × (out.files_skipped ≡ selected.files_skipped))
    × ((ps : List CheckPanic) × (from_errors out.check_panics ≡ ok ps)
        × (out.check_panics ≡ map as_error ps))

IsFilesReport-scan_selected :
    (h : Host) (root : FilePath) (s : Selection) (r : Result (ScanOutput Finding) ScanError)
    → scan_selected h root (map (boxed h) all_checks_base) s ≡ r
    → IsFilesReport h (ok (root, s)) (ok r)
IsFilesReport-scan_selected h root s (err e) q = tt
IsFilesReport-scan_selected h root s (ok out) q =
    let checks = map (boxed h) all_checks_base in
    let (sorted, once, scanned, skipped) = scan_selected-IsSorted h root checks s q in
    (
      sorted,
      once,
      (root, s, refl, scanned, skipped),
      from_errors_of_AllPanics out.check_panics (scan_selected-AllPanics h root checks s q),
    )

IsFilesReport-scan_chosen :
    (h : Host) (chosen : Result (FilePath × Selection) ScanError)
    → IsFilesReport h chosen (scan_chosen h chosen)
unfolding scan_chosen
IsFilesReport-scan_chosen h (err e) = tt
IsFilesReport-scan_chosen h (ok (root, s)) = rw default_checks-ok (
    IsFilesReport-scan_selected h root s (scan_selected h root (map (boxed h) all_checks_base) s)
      refl)

-- The scan of a list of files never panics. If it returns findings, they are in the order of file and
-- line, no two of them alike; it counts the files that were chosen and those skipped as generated; and
-- a report can be built from its panics, which holds each of them.
pub scan_files-IsFilesReport :
    (h : Host) (paths : List FilePath) (path : FilePath) (excludes includes : List String)
    → IsFilesReport h
        (choose_files h paths path excludes includes)
        (scan_files h paths path excludes includes)
unfolding scan_files
scan_files-IsFilesReport h paths path excludes includes =
    IsFilesReport-scan_chosen h (choose_files h paths path excludes includes)
