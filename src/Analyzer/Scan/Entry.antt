-- ===== src/Analyzer/Scan/Entry.antt =====
-- What the entry points return: their order, their panics and their errors.
use guard_cli.Prelude.{
  String, ◌≡◌, refl, ap, true, List, [], ◌∷◌, map, distinct, length, Result, ok, err, ok-injective,
  All, All-map, All-map-map, All-flat,
}
use mathlib.Core.Path.{subst}
use guard_cli.Prelude.Sort.{IsSorted}
use guard_cli.Checks.Finding.{Finding, Check}
use guard_cli.Checks.Registry.{all_checks_base, default_checks}
use guard_cli.Analyzer.Paths.{FilePath}
use guard_cli.Analyzer.Errors.{
  ScanError, CheckPanic, check_panic, of_list, collect_scan_results, from_errors,
}
use guard_cli.Analyzer.Errors.Laws.{collect_scan_results-ok}
use guard_cli.Analyzer.Errors.Report.{is_panic, as_error, leaves_all, from_errors-ok}
use guard_cli.Analyzer.Dedup.Laws.{keys, key_eq}
use guard_cli.Analyzer.Host.{Host, boxed}
use guard_cli.Analyzer.Filter.{Selection, canonicalize_root, collect_rust_paths, >>=-eq-ok, ◌>>=◌}
use guard_cli.Analyzer.Scan.{
  ScanOutput, output_of, by_file_and_line, run_checks_for_file, scan_selected, with_checks, checked,
  scan_directory,
}
use guard_cli.Analyzer.Scan.Laws.{scan_selected-IsSorted, run_checks_for_file-IsShown}

pub default_checks-ok : default_checks ≡ ok all_checks_base
unfolding default_checks
default_checks-ok = refl

-- all errors are panics of checks
abbrev pub AllPanics : List ScanError → Type 0
AllPanics es = All (λ e. is_panic e ≡ true) es

panics_of : (es : List ScanError) → AllPanics es → (ps : List CheckPanic) × (es ≡ map as_error ps)
panics_of [] h = ([], refl)
panics_of (check_panic c p m ∷ es) (x, h) =
    let (ps, e) = panics_of es h in
    (record { check = c; path = p; message = m } ∷ ps, ap (◌∷◌ (check_panic c p m)) e)
panics_of (_ ∷ es) (x, h) = cc

leaves_all-as_error :
    (ps : List CheckPanic) → leaves_all (of_list (map as_error ps)) ≡ map as_error ps
unfolding of_list
leaves_all-as_error [] = refl
leaves_all-as_error (p ∷ ps) = ap (◌∷◌ (as_error p)) (leaves_all-as_error ps)

pub from_errors_of_AllPanics :
    (es : List ScanError)
    → AllPanics es
    → (ps : List CheckPanic) × (from_errors es ≡ ok ps) × (es ≡ map as_error ps)
from_errors_of_AllPanics es h =
    let (ps, e) = panics_of es h in
    (ps, rw e ((from_errors-ok (map as_error ps) ps).1 (leaves_all-as_error ps)), e)

files-AllPanics :
    (h : Host) (root : FilePath) (checks : List (Check h.File)) (paths : List FilePath)
    (collected : List (List Finding × List ScanError))
    → map (λ path. run_checks_for_file h path root checks) paths ≡ map ok collected
    → All (λ p. AllPanics p.1) collected
files-AllPanics h root checks [] [] e = tt
files-AllPanics h root checks [] (c ∷ cs) e = cc
files-AllPanics h root checks (p ∷ ps) [] e = cc
files-AllPanics h root checks (p ∷ ps) ((fs, es) ∷ cs) e =
    let head : run_checks_for_file h p root checks ≡ ok (fs, es) = cc in
    let tail : map (λ path. run_checks_for_file h path root checks) ps ≡ map ok cs = cc in
    (
      All-map (λ x q. q.0) es (run_checks_for_file-IsShown h p root checks head).5,
      files-AllPanics h root checks ps cs tail,
    )

pub scan_selected-AllPanics :
    (h : Host) (root : FilePath) (checks : List (Check h.File)) (s : Selection)
    {out : ScanOutput Finding}
    → scan_selected h root checks s ≡ ok out
    → AllPanics out.check_panics
unfolding scan_selected
scan_selected-AllPanics h root checks s e =
    let results = map (λ path. run_checks_for_file h path root checks) s.paths in
    let (collected, e₁, k) = >>=-eq-ok (collect_scan_results results) _ e in
    let files =
      files-AllPanics h root checks s.paths collected
        ((collect_scan_results-ok results collected).0 e₁) in
    subst (λ (o : ScanOutput Finding). AllPanics o.check_panics)
      (ok-injective (output_of s collected) _ k)
      (All-flat _ (map (λ p. p.1) collected) (All-map-map _ (λ p. p.1) collected files))

scan_directory-steps :
    (h : Host) (path : FilePath) (excludes includes : List String) {out : ScanOutput Finding}
    → scan_directory h path excludes includes ≡ ok (ok out)
    → (root : FilePath) × (selected : Selection) × (canonicalize_root h path ≡ ok root)
      × (collect_rust_paths h root excludes includes ≡ ok selected)
      × (scan_selected h root (map (boxed h) all_checks_base) selected ≡ ok out)
unfolding scan_directory
scan_directory-steps h path excludes includes {out} e = go (canonicalize_root h path) refl e
  where
    go :
        (r : Result FilePath ScanError)
        → canonicalize_root h path ≡ r
        → elim r [
          | err e ↦ ok (err e)
          | ok root ↦ with_checks h (checked h default_checks) λ checks. do
            selected ← collect_rust_paths h root excludes includes
            scan_selected h root checks selected
        ]
          ≡ ok (ok out)
        → (root : FilePath) × (selected : Selection) × (canonicalize_root h path ≡ ok root)
          × (collect_rust_paths h root excludes includes ≡ ok selected)
          × (scan_selected h root (map (boxed h) all_checks_base) selected ≡ ok out)
    go (err x) q k = cc
    go (ok root) q k =
        let k' = rw default_checks-ok at k in
        let (selected, e₁, e₂) =
          >>=-eq-ok (collect_rust_paths h root excludes includes) _ (ok-injective _ _ k') in
        (root, selected, q, e₁, e₂)

-- A directory scan that returns findings returns them in the order of file and line, no two of them
-- alike; it counts the files that were selected and those skipped as generated; and a report can be
-- built from its panics, which holds each of them.
pub scan_directory-IsReport :
    (h : Host) (path : FilePath) (excludes includes : List String) {out : ScanOutput Finding}
    → scan_directory h path excludes includes ≡ ok (ok out)
    → IsSorted by_file_and_line out.results
      × (distinct (keys out.results) ≡ true)
      × ((root : FilePath) × (selected : Selection) × (canonicalize_root h path ≡ ok root)
          × (collect_rust_paths h root excludes includes ≡ ok selected)
          × (out.files_scanned ≡ length selected.paths)
          × (out.files_skipped ≡ selected.files_skipped))
      × ((ps : List CheckPanic) × (from_errors out.check_panics ≡ ok ps)
          × (out.check_panics ≡ map as_error ps))
scan_directory-IsReport h path excludes includes e =
    let (root, selected, e₁, e₂, k) = scan_directory-steps h path excludes includes e in
    let checks = map (boxed h) all_checks_base in
    let (sorted, once, scanned, skipped) = scan_selected-IsSorted h root checks selected k in
    (
      sorted,
      once,
      (root, selected, e₁, e₂, scanned, skipped),
      from_errors_of_AllPanics _ (scan_selected-AllPanics h root checks selected k),
    )
