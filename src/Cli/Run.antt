-- ===== src/Cli/Run.antt =====
-- `run_scan` of crates/cli/src/main.rs and the helpers that it calls. What is printed and written is
-- a list of events; `fs::write`, the JSON printer and the colours are parameters.
pub mod Laws
use guard_cli.Prelude.{
  ℕ, ◌+◌, ◌*◌, ◌/◌, ◌%◌, String, Bool, true, false, not, ◌&&◌, ◌||◌, Option, none, some, List, [],
  ◌∷◌, ◌++◌, map, if◌then◌else◌, ◌==◌, nat_eq, ltb, any, flat, length, Result, ok, err,
}
use Prim.Native.Char.{code}
use guard_cli.Prelude.Text.{◌<>◌, trim_end_by}
use guard_cli.Prelude.Decimal.{decimal}
use guard_cli.Checks.Finding.{Severity, severity_leb, Finding, Check}
use guard_cli.Analyzer.Paths.{FilePath, display}
use guard_cli.Analyzer.Errors.{ScanError, to_string, multiple, to_list}
use guard_cli.Analyzer.Host.{Host}
use guard_cli.Analyzer.Scan.{ScanOutput, FileScanResult, scan_directory_with_checks}
use guard_cli.Cli.Metadata.{describe_rule}
use guard_cli.Cli.Report.{severity_counts, truncate, render_markdown, Sarif, build_sarif}
use guard_cli.Cli.Pretty.{Style, red_bold, print_pretty}

pub record ScanOptions : Type 0 where
  pub path : FilePath
  pub json : Bool
  pub sarif : Bool
  pub markdown : Bool
  pub output : Option FilePath
  pub quiet : Bool
  pub verbose : Bool
  pub fail_threshold : Severity
  pub exclude : List String
  pub includes : List String
  pub max_findings : ℕ

pub record Summary : Type 0 where
  pub total : ℕ
  pub high : ℕ
  pub medium : ℕ
  pub low : ℕ
  pub files_scanned : ℕ
  pub files_skipped : ℕ

-- the documents that are printed as JSON
pub data Document : Type 0 where
  json_document : (version : String) → Summary → List Finding → Document
  sarif_document : Sarif → Document
  error_document : (error : String) → (errors : List String) → Document

-- `wrote` is a write of a file that succeeded.
pub data Event : Type 0 where
  stdout stderr : String → Event
  wrote : FilePath → String → Event

pub record Terminal : Type 0 where
  pub version : String
  pub to_string_pretty : Document → Result String String
  pub fs_write : FilePath → String → Result (Unit {0}) String
  pub paint : Style → String → String
  pub hyperlinks : Bool

unfoldable pub should_print_results : Bool → Bool → Bool
should_print_results quiet should_fail = not quiet || should_fail

-- the text that `write_output` writes
unfoldable pub file_text : String → String
file_text payload = trim_end_by (λ b. b == 10) payload <> "\n"

-- the document of `json_payload`
unfoldable pub json_payload : String → List Finding → ℕ → ℕ → Document
json_payload version findings files_scanned files_skipped =
    let (h, m, l) = severity_counts findings in
    json_document version
      (record {
        total = length findings;
        high = h;
        medium = m;
        low = l;
        files_scanned = files_scanned;
        files_skipped = files_skipped;
      })
      findings

abbrev pub messages_of : ScanError → List String
messages_of (multiple errs) = map to_string (to_list errs)
messages_of other = to_string other ∷ []

-- what is printed and written, and the exit code
pub record Ran : Type 0 where
  pub events : List Event
  pub code : ℕ

module _ (t : Terminal) (opts : ScanOptions) where
  abbrev pub error_line : String → Event
  error_line message = stderr (t.paint red_bold "error:" <> (" " <> message))

  abbrev pub all_findings : ScanOutput FileScanResult → List Finding
  all_findings scan = flat (map (λ r. r.findings) scan.results)

  abbrev pub should_fail : List Finding → Bool
  should_fail findings = any (λ f. severity_leb f.severity opts.fail_threshold) findings

  -- `structured_payload`
  abbrev pub structured_payload : List Finding → ℕ → ℕ → Option (Result String String)
  structured_payload findings files_scanned files_skipped =
      if opts.json
      then some (t.to_string_pretty (json_payload t.version findings files_scanned files_skipped))
      else if opts.sarif
      then some
          (t.to_string_pretty (sarif_document (build_sarif describe_rule findings files_skipped)))
      else if opts.markdown
      then some (ok (render_markdown findings))
      else none

  -- the branches of `if let Some(result)`: an error of it is the early return of 2
  abbrev pub emit_ok : Bool → String → Option FilePath → Result (List Event) (List Event)
  emit_ok failing payload none =
      ok (if should_print_results opts.quiet failing then stdout payload ∷ [] else [])
  emit_ok failing payload (some out_path) = elim (t.fs_write out_path (file_text payload)) [
    | err e ↦ err (error_line e ∷ [])
    | ok _ ↦ ok (wrote out_path (file_text payload) ∷ [])
  ]

  abbrev pub emit :
      ScanOutput FileScanResult
      → Bool
      → Option (Result String String)
      → Result (List Event) (List Event)
  emit scan failing (some (ok payload)) = emit_ok failing payload opts.output
  emit scan failing (some (err e)) = err (error_line e ∷ [])
  emit scan failing none =
      let findings = all_findings scan in
      let (shown, truncated) = truncate findings opts.max_findings in
      ok (
        if should_print_results opts.quiet failing
        then map stdout (
            print_pretty t.paint t.hyperlinks findings shown scan.files_scanned (display opts.path)
              truncated)
        else [])

  abbrev pub verbose_events : ScanOutput FileScanResult → List Event
  verbose_events scan =
      if opts.verbose
      then stderr ("Scanned " <> (decimal scan.files_scanned <> " file(s)."))
        ∷ (if ltb 0 scan.files_skipped
            then stderr
                ("Skipped " <> (decimal scan.files_skipped <> " generated file(s) from analysis."))
              ∷ []
            else [])
      else []

  abbrev pub finish : Bool → List Event → Result (List Event) (List Event) → Ran
  finish failing notes (err events) = record { events = events; code = 2 }
  finish failing notes (ok events) = record {
    events = events ++ notes;
    code = if failing then 1 else 0;
  }

  abbrev pub run_ok : ScanOutput FileScanResult → Ran
  run_ok scan =
      let findings = all_findings scan in
      let failing = should_fail findings in
      finish failing (verbose_events scan)
        (emit scan failing (structured_payload findings scan.files_scanned scan.files_skipped))

  abbrev pub error_envelope : Result String String → Option FilePath → List Event
  error_envelope (err e) output = error_line e ∷ []
  error_envelope (ok payload) none = stdout payload ∷ []
  error_envelope (ok payload) (some out_path) = elim (t.fs_write out_path (file_text payload)) [
    | err e ↦ error_line e ∷ []
    | ok _ ↦ wrote out_path (file_text payload) ∷ []
  ]

  abbrev pub run_err : ScanError → Ran
  run_err e = record {
    events =
        if opts.json
        then error_envelope (t.to_string_pretty (error_document (to_string e) (messages_of e)))
            opts.output
        else map error_line (messages_of e);
    code = 2;
  }

  -- the `match` on the scan's result
  unfoldable pub run_on : Result (ScanOutput FileScanResult) ScanError → Ran
  run_on (ok scan) = run_ok scan
  run_on (err e) = run_err e

-- `run_scan`; the warnings of the walk stay in the scan's result
unfoldable pub run_scan :
    (h : Host) → (List ScanError → ℕ) → Terminal → ScanOptions → List (Check h.File) → Ran
unfolding run_on
run_scan h observed t opts active_checks =
    run_on t opts
      (scan_directory_with_checks h observed opts.path opts.exclude opts.includes active_checks)

-- `chrono_timestamp`, over the seconds since the epoch
abbrev pub two_digits : ℕ → String
two_digits n = if ltb n 10 then "0" <> decimal n else decimal n

unfoldable pub chrono_timestamp : ℕ → String
chrono_timestamp secs =
    let s = secs % 60 in
    let m = (secs / 60) % 60 in
    let h = (secs / 3600) % 24 in
    two_digits h <> (":" <> (two_digits m <> (":" <> (two_digits s <> " UTC"))))
