-- ===== src/Analyzer/Scan/Laws.antt =====
-- What a scan returns.
use guard_cli.Prelude.{
  String, ◌≡◌, refl, ap, ◌⊎◌, true, false, List, [], ◌∷◌, map, arith, distinct, flat, length, ok,
  ok-injective, map_err, map_err-eq-ok, All, All-append, All-retain, All-of_forall, All-map-map,
  string_eq,
}
use mathlib.Core.Path.{subst}
use guard_cli.Prelude.Sort.{sort, IsSorted, sort-IsSorted, All-sort}
use guard_cli.Prelude.Text.{str_leb-total, str_leb_trans, str_leb_antisymm}
use guard_cli.Checks.Finding.{Finding, Outcome, hits, panics, Check}
use guard_cli.Analyzer.Paths.{FilePath, file_label}
use guard_cli.Analyzer.Errors.{ScanError, io_read, parse, scan_error_path, collect_scan_results}
use guard_cli.Analyzer.Errors.Report.{is_panic}
use guard_cli.Analyzer.Suppress.{
  FnSpan, build_fn_spans, Suppressions, parse_suppressions, is_suppressed,
}
use guard_cli.Analyzer.Dedup.Laws.{
  keys, All-dedup_findings, dedup_findings-IsSorted, dedup_findings-distinct, key_eq,
  All-suppress_redundant_division_finding,
}
use guard_cli.Analyzer.Host.{Host}
use guard_cli.Analyzer.Filter.{Selection, >>=-eq-ok}
use guard_cli.Analyzer.Scan.{
  labelled, Hits, tidy, output_of, add_outcome, run_checks, ScanOutput, by_line, by_file_and_line,
  run_checks_for_file, scan_selected,
}

by_file_and_line-total :
    (a b : Finding) → (by_file_and_line a b ≡ true) ⊎ (by_file_and_line b a ≡ true)
by_file_and_line-total a b = ground (
  arith,
  str_leb-total a.file_path b.file_path,
  string_eq.beq_iff a.file_path b.file_path,
  string_eq.beq_iff b.file_path a.file_path,
)

by_file_and_line_trans :
    (a b c : Finding)
    → by_file_and_line a b ≡ true
    → by_file_and_line b c ≡ true
    → by_file_and_line a c ≡ true
by_file_and_line_trans a b c h k = ground (
  arith,
  str_leb_trans a.file_path b.file_path c.file_path,
  str_leb_antisymm a.file_path b.file_path,
  string_eq.beq_iff a.file_path b.file_path,
  string_eq.beq_iff b.file_path c.file_path,
  string_eq.beq_iff a.file_path c.file_path,
)

pub scan_selected-IsSorted :
    (h : Host) (root : FilePath) (checks : List (Check h.File)) (s : Selection)
    {out : ScanOutput Finding}
    → scan_selected h root checks s ≡ ok out
    → IsSorted by_file_and_line out.results
      × (distinct (keys out.results) ≡ true)
      × (out.files_scanned ≡ length s.paths)
      × (out.files_skipped ≡ s.files_skipped)
unfolding scan_selected
scan_selected-IsSorted h root checks s e =
    let (collected, _, k) = >>=-eq-ok (collect_scan_results (map _ s.paths)) _ e in
    subst
      (λ (o : ScanOutput Finding).
        IsSorted by_file_and_line o.results
        × (distinct (keys o.results) ≡ true)
        × (o.files_scanned ≡ length s.paths)
        × (o.files_skipped ≡ s.files_skipped))
      (ok-injective (output_of s collected) _ k)
      (let fs : List Finding = flat (map (λ p. p.0) collected) in
        (
          dedup_findings-IsSorted by_file_and_line (sort by_file_and_line fs)
              (sort-IsSorted by_file_and_line by_file_and_line-total by_file_and_line_trans fs),
          (dedup_findings-distinct (sort by_file_and_line fs)).0,
          refl,
          refl,
        ))

All-tidy {κ} : (P : Finding → Type κ) (fs : List Finding) → All P fs → All P (tidy fs)
unfolding tidy
All-tidy P fs h =
    All-dedup_findings P _ (All-suppress_redundant_division_finding P _ (All-sort by_line P fs h))

-- A finding that may be shown for the file with this label.
abbrev pub IsShown : Suppressions → List FnSpan → String → Finding → Type 0
IsShown suppressions fn_spans label f =
    (is_suppressed f suppressions fn_spans ≡ false) × (f.file_path ≡ label)

-- a panic of a check on this file
abbrev pub IsPanicOn : FilePath → ScanError → Type 0
IsPanicOn path e = (is_panic e ≡ true) × (scan_error_path e ≡ path)

module _ (path : FilePath) (label : String) (suppressions : Suppressions)
    (fn_spans : List FnSpan) where
  abbrev HitsInv : Hits → Type 0
  HitsInv s =
      All (IsShown suppressions fn_spans label) s.findings × All (IsPanicOn path) s.check_panics

  add_outcome-HitsInv :
      (name : String) (o : Outcome) (s : Hits)
      → HitsInv s
      → HitsInv (add_outcome path label suppressions fn_spans name o s)
  unfolding add_outcome scan_error_path
  add_outcome-HitsInv name (hits found) s (f, p) = (
    All-append _ s.findings _ f (
        All-retain (IsShown suppressions fn_spans label) _ (map (labelled label) found) (
          All-map-map _ (labelled label) found
            (All-of_forall _ (λ x e. (ground (arith, e), refl)) found))),
    p,
  )
  add_outcome-HitsInv name (panics payload) s (f, p) =
      (f, All-append _ s.check_panics _ p ((refl, refl), tt))

  run_checks-HitsInv {ℓ} :
      {File : Type ℓ} (file : File) (content : String) (checks : List (Check File)) (s : Hits)
      → HitsInv s
      → HitsInv (run_checks path label suppressions fn_spans file content checks s)
  unfolding run_checks
  run_checks-HitsInv file content [] s h = h
  run_checks-HitsInv file content (check ∷ checks) s h =
      run_checks-HitsInv file content checks _
        (add_outcome-HitsInv check.name (check.run file content) s h)

-- The findings of a scanned file carry its label, none of them is suppressed by the comments of that
-- file, and all the errors beside them are panics of checks on that file.
pub run_checks_for_file-IsShown :
    (h : Host) (path root : FilePath) (checks : List (Check h.File)) {findings : List Finding}
    {check_panics : List ScanError}
    → run_checks_for_file h path root checks ≡ ok (findings, check_panics)
    → (content : String) × (syn_file : h.File) × (h.read_to_string path ≡ ok content)
      × (h.parse_file content ≡ ok syn_file)
      × All
          (IsShown
            (parse_suppressions content (build_fn_spans (h.items syn_file)))
            (build_fn_spans (h.items syn_file))
            (file_label (h.is_file root) path root))
          findings
      × All (IsPanicOn path) check_panics
unfolding run_checks_for_file
run_checks_for_file-IsShown h path root checks e =
    let (content, e₁, k₁) = >>=-eq-ok (map_err (io_read path) (h.read_to_string path)) _ e in
    let (syn_file, e₂, k₂) = >>=-eq-ok (map_err (parse path) (h.parse_file content)) _ k₁ in
    let spans = build_fn_spans (h.items syn_file) in
    let label = file_label (h.is_file root) path root in
    let (shown, panicked) =
      run_checks-HitsInv path label (parse_suppressions content spans) spans syn_file content checks
        (record { findings = []; check_panics = [] }) (tt, tt) in
    (
      content,
      syn_file,
      map_err-eq-ok _ _ e₁,
      map_err-eq-ok _ _ e₂,
      rw (ap (λ (p : List Finding × List ScanError). p.0) (ok-injective _ _ k₂)) at
          (All-tidy _ _ shown),
      rw (ap (λ (p : List Finding × List ScanError). p.1) (ok-injective _ _ k₂)) at panicked,
    )
