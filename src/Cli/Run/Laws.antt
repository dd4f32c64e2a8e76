-- ===== src/Cli/Run/Laws.antt =====
-- The exit codes of a scan, and what it prints and writes.
use Prim.Native.Char.{code}
use text.Mathlib.TextLemmas.{cons-append}
use guard_cli.Prelude.{
  ◌<◌, ℕ, ◌+◌, ◌*◌, ◌/◌, ◌%◌, String, Bool, true, false, not, ◌&&◌, ◌||◌, ◌≡◌, refl, sym, ap, flat,
  ◌∙◌, Option, none, some, List, [], ◌∷◌, map, is_empty, if◌then◌else◌, ◌==◌, nat_eq, string_eq,
  any, Result, ok, err, arith, Bool-cases, inl, inr, any-append,
}
use guard_cli.Prelude.Text.{◌<>◌, trim_end_by}
use guard_cli.Checks.Finding.{Severity, severity_leb, Check}
use guard_cli.Analyzer.Paths.{FilePath}
use guard_cli.Analyzer.Errors.{ScanError, to_string}
use guard_cli.Analyzer.Host.{Host}
use guard_cli.Analyzer.Scan.{ScanOutput, FileScanResult, scan_directory_with_checks}
use guard_cli.Analyzer.Scan.Single.{scan_directory_with_checks-single, is_multiple}
use guard_cli.Cli.Run.{
  ScanOptions, Event, stdout, stderr, wrote, Terminal, should_print_results, file_text, messages_of,
  run_on, run_scan, error_envelope, error_document, structured_payload, all_findings, error_line,
  emit, emit_ok, finish, verbose_events, chrono_timestamp, two_digits, should_fail,
}

abbrev pub stdouts : List Event → List String
stdouts [] = []
stdouts (stdout s ∷ es) = s ∷ stdouts es
stdouts (stderr s ∷ es) = stdouts es
stdouts (wrote path s ∷ es) = stdouts es

abbrev pub writes : List Event → List (FilePath × String)
writes [] = []
writes (stdout s ∷ es) = writes es
writes (stderr s ∷ es) = writes es
writes (wrote path s ∷ es) = (path, s) ∷ writes es

abbrev pub failed : {A B : Type 0} → Result A B → Bool
failed (ok a) = false
failed (err b) = true

-- a finding of one of the files is as severe as the threshold
abbrev pub meets : Severity → List FileScanResult → Bool
meets s rs = any (λ r. any (λ f. severity_leb f.severity s) r.findings) rs

any-flat :
    {A B : Type 0} (p : B → Bool) (f : A → List B) (xs : List A)
    → any p (flat (map f xs)) ≡ any (λ x. any p (f x)) xs
any-flat p f [] = refl
any-flat p f (x ∷ xs) =
    any-append p (f x) (flat (map f xs)) ∙ ap (λ b. any p (f x) || b) (any-flat p f xs)

module _ (t : Terminal) (opts : ScanOptions) where
  -- the output file cannot be written
  abbrev pub unwritten : String → Option FilePath → Bool
  unwritten payload none = false
  unwritten payload (some out_path) = failed (t.fs_write out_path (file_text payload))

  -- the document cannot be printed, or the output file cannot be written
  abbrev pub not_emitted : Option (Result String String) → Bool
  not_emitted none = false
  not_emitted (some (err e)) = true
  not_emitted (some (ok payload)) = unwritten payload opts.output

  abbrev pub payload_of : ScanOutput FileScanResult → Option (Result String String)
  payload_of scan =
      structured_payload t opts (all_findings t opts scan) scan.files_scanned scan.files_skipped

  abbrev pub exit_code : Result (ScanOutput FileScanResult) ScanError → ℕ
  exit_code (err e) = 2
  exit_code (ok scan) =
      if not_emitted (payload_of scan)
      then 2
      else if meets opts.fail_threshold scan.results
      then 1
      else 0

  code-emit_ok :
      (failing : Bool) (notes : List Event) (payload : String) (output : Option FilePath)
      → (finish t opts failing notes (emit_ok t opts failing payload output)).code
        ≡ (if unwritten payload output then 2 else if failing then 1 else 0)
  code-emit_ok failing notes payload none = refl
  code-emit_ok failing notes payload (some out_path) = ground arith

  code-emit :
      (scan : ScanOutput FileScanResult) (failing : Bool) (notes : List Event)
      (p : Option (Result String String))
      → (finish t opts failing notes (emit t opts scan failing p)).code
        ≡ (if not_emitted p then 2 else if failing then 1 else 0)
  code-emit scan failing notes none = refl
  code-emit scan failing notes (some (err e)) = refl
  code-emit scan failing notes (some (ok payload)) = code-emit_ok failing notes payload opts.output

  code-run_on :
      (scanned : Result (ScanOutput FileScanResult) ScanError)
      → (run_on t opts scanned).code ≡ exit_code scanned
  unfolding run_on
  code-run_on (err e) = refl
  code-run_on (ok scan) =
      code-emit scan (should_fail t opts (all_findings t opts scan)) (verbose_events t opts scan)
        (payload_of scan)
      ∙ ap (λ b. if not_emitted (payload_of scan) then 2 else if b then 1 else 0)
          (any-flat (λ f. severity_leb f.severity opts.fail_threshold) (λ r. r.findings)
            scan.results)

messages_of-single : (e : ScanError) → is_multiple e ≡ false → messages_of e ≡ to_string e ∷ []
messages_of-single e single = ground arith

-- The exit code is 2 if the scan fails, the document cannot be printed or the output file cannot be
-- written; else it is 1 if a finding of some file is as severe as the threshold, and 0 otherwise,
-- whatever the format, the verbosity and the number of findings shown.
pub code-run_scan :
    (h : Host) (observed : List ScanError → ℕ) (t : Terminal) (opts : ScanOptions)
    (active_checks : List (Check h.File))
    → (run_scan h observed t opts active_checks).code
      ≡ exit_code t opts
          (scan_directory_with_checks h observed opts.path opts.exclude opts.includes active_checks)
unfolding run_scan
code-run_scan h observed t opts active_checks =
    code-run_on t opts
      (scan_directory_with_checks h observed opts.path opts.exclude opts.includes active_checks)

module _ (t : Terminal) (opts : ScanOptions) where
  -- what a structured format writes and prints
  abbrev pub written : String → Option FilePath → List (FilePath × String)
  written payload none = []
  written payload (some out_path) =
      if failed (t.fs_write out_path (file_text payload))
      then []
      else (out_path, file_text payload) ∷ []

  abbrev pub printed : String → Option FilePath → Bool → List String
  printed payload none failing = if opts.quiet && not failing then [] else payload ∷ []
  printed payload (some out_path) failing = []

  abbrev pub Emits : String → Bool → List Event → Type 0
  Emits payload failing events =
      (writes events ≡ written payload opts.output)
      × (stdouts events ≡ printed payload opts.output failing)

  -- events that go to stderr only
  abbrev Quiet : List Event → Type 0
  Quiet events = (writes events ≡ []) × (stdouts events ≡ [])

  verbose_events-Quiet : (scan : ScanOutput FileScanResult) → Quiet (verbose_events t opts scan)
  verbose_events-Quiet scan = ground arith

  Emits-emit_ok :
      (failing : Bool) (notes : List Event) (payload : String) (output : Option FilePath)
      → Quiet notes
      → (writes (finish t opts failing notes (emit_ok t opts failing payload output)).events
          ≡ written payload output)
        × (stdouts (finish t opts failing notes (emit_ok t opts failing payload output)).events
            ≡ printed payload output failing)
  unfolding should_print_results
  Emits-emit_ok failing notes payload none q = ground arith
  Emits-emit_ok failing notes payload (some out_path) q = ground arith

-- With a structured format whose document can be printed, a scan that comes back writes one file if
-- an output file is asked for and can be written, the document in it, whether the scan is quiet or not
-- and passes or not; it writes no file if none is asked for or the write fails. Without an output
-- file the document is all that goes to stdout, and is left out only if the scan is quiet and passes;
-- with one, nothing goes to stdout.
pub run_on-Emits :
    (t : Terminal) (opts : ScanOptions) (scan : ScanOutput FileScanResult) {payload : String}
    → payload_of t opts scan ≡ some (ok payload)
    → Emits t opts payload (meets opts.fail_threshold scan.results) (run_on t opts (ok scan)).events
unfolding run_on
run_on-Emits t opts scan {payload} e =
    let failing = should_fail t opts (all_findings t opts scan) in
    let same : failing ≡ meets opts.fail_threshold scan.results =
      any-flat (λ f. severity_leb f.severity opts.fail_threshold) (λ r. r.findings) scan.results in
    rw (e, sym same)
      (Emits-emit_ok t opts failing (verbose_events t opts scan) payload opts.output
        (verbose_events-Quiet t opts scan))

-- the document of a scan that fails: one message, as the error and as the whole list of errors
abbrev pub one_message : Terminal → ScanError → Result String String
one_message t e = t.to_string_pretty (error_document (to_string e) (to_string e ∷ []))

module _ (t : Terminal) (opts : ScanOptions) where
  -- what becomes of that document
  abbrev pub Reports : Option FilePath → Result String String → List Event → Type 0
  Reports output (err bad) events = events ≡ error_line t opts bad ∷ []
  Reports none (ok payload) events = events ≡ stdout payload ∷ []
  Reports (some out_path) (ok payload) events =
      (writes events ≡ written t opts payload (some out_path))
      × (stdouts events ≡ [])
      × (is_empty events ≡ false)

  -- what a scan that fails prints and writes, with `--json` or without
  abbrev pub Fails : Bool → ScanError → List Event → Type 0
  Fails false e events = events ≡ error_line t opts (to_string e) ∷ []
  Fails true e events = Reports opts.output (one_message t e) events

  Reports-error_envelope :
      (output : Option FilePath) (r : Result String String)
      → Reports output r (error_envelope t opts r output)
  Reports-error_envelope output (err bad) = refl
  Reports-error_envelope none (ok payload) = refl
  Reports-error_envelope (some out_path) (ok payload) = ground arith

  Fails-events :
      (json : Bool) (e : ScanError) (ms : List String)
      → ms ≡ to_string e ∷ []
      → Fails json e (
          if json
          then error_envelope t opts
              (t.to_string_pretty (error_document (to_string e) ms))
              opts.output
          else map (error_line t opts) ms)
  Fails-events false e ms h = rw h refl
  Fails-events true e ms h = rw h (Reports-error_envelope opts.output (one_message t e))

-- A scan that fails returns 2 and gives one message, however many files cannot be read or parsed.
-- Without `--json` that is one line on stderr. With it, it is the document that has the message as
-- its error and as its only entry in the list of errors: printed to stdout where no output file is
-- asked for; else written to that file, if it can be written, with nothing on stdout, and with a line
-- on stderr if it cannot. A document that cannot be made leaves the line of that error on stderr.
pub run_scan-one_message :
    (h : Host) (observed : List ScanError → ℕ) (t : Terminal) (opts : ScanOptions)
    (active_checks : List (Check h.File)) {e : ScanError}
    → scan_directory_with_checks h observed opts.path opts.exclude opts.includes active_checks
      ≡ err e
    → ((run_scan h observed t opts active_checks).code ≡ 2)
      × Fails t opts opts.json e (run_scan h observed t opts active_checks).events
unfolding run_scan run_on
run_scan-one_message h observed t opts active_checks {e} failed =
    let single : is_multiple e ≡ false =
      scan_directory_with_checks-single h observed opts.path opts.exclude opts.includes
        active_checks failed in
    rw failed (refl, Fails-events t opts opts.json e (messages_of e) (messages_of-single e single))

-- The time of day that a number of seconds stands for is written with two digits for each of hours,
-- minutes and seconds, whatever the day.
pub chrono_timestamp-clock :
    (d h m s : ℕ)
    → h < 24
    → m < 60
    → s < 60
    → chrono_timestamp (d * 86400 + h * 3600 + m * 60 + s)
      ≡ two_digits h <> (":" <> (two_digits m <> (":" <> (two_digits s <> " UTC"))))
unfolding chrono_timestamp
chrono_timestamp-clock d h m s lh lm ls =
    let secs = d * 86400 + h * 3600 + m * 60 + s in
    let es : secs % 60 ≡ s = omega arith in
    let em : (secs / 60) % 60 ≡ m = omega arith in
    let eh : (secs / 3600) % 24 ≡ h = omega arith in rw (es, em, eh) refl

abbrev is_newline : ℕ → Bool
is_newline b = b == 10

trim_end_by-newline : (s : String) → trim_end_by is_newline (s <> "\n") ≡ trim_end_by is_newline s
unfolding trim_end_by
trim_end_by-newline String.[] = refl
trim_end_by-newline (String.◌∷◌ c s) = rw (cons-append, trim_end_by-newline s) refl

trim_end_by-twice :
    (s : String) → trim_end_by is_newline (trim_end_by is_newline s) ≡ trim_end_by is_newline s
unfolding trim_end_by
trim_end_by-twice String.[] = refl
trim_end_by-twice (String.◌∷◌ c s) =
    elim (Bool-cases (trim_end_by is_newline s == "" && code c == 10)) [
      | inl gone ↦ rw gone refl
      | inr kept ↦ rw kept (rw (trim_end_by-twice s, kept) refl)
    ]

-- What is written ends in one newline, however many the payload ends in: a payload that is so
-- written already, or that has further newlines at its end, gives the same file.
pub file_text-newline :
    (s : String) → (file_text (file_text s) ≡ file_text s) × (file_text (s <> "\n") ≡ file_text s)
unfolding file_text
file_text-newline s = (
  ap (λ u. u <> "\n") (trim_end_by-newline (trim_end_by is_newline s) ∙ trim_end_by-twice s),
  ap (λ u. u <> "\n") (trim_end_by-newline s),
)
