-- ===== src/Cli/Setup.antt =====
-- The setup of `soroban-guard scan` in `main` of crates/cli/src/main.rs, up to the first scan and its
-- exit code. Watch mode is not modelled; `--no-color` only changes the colours.
pub mod Choices
pub mod Laws
use guard_cli.Prelude.{
  ℕ, ◌+◌, ◌-◌, ◌&&◌, ◌||◌, String, Bool, true, false, not, Option, none, some, List, [], ◌∷◌, ◌++◌,
  map, if◌then◌else◌, ◌==◌, nat_eq, string_eq, leb, find, contains, is_empty, Result, ok, err,
}
use Prim.Native.Char.{code}
use Prim.Native.String
use guard_cli.Prelude.Text.{◌<>◌}
use guard_cli.Checks.Finding.{Severity, high, medium, low, Check}
use guard_cli.Checks.Registry.{Detector, name, default_checks, default_checks_with_config}
use guard_cli.Analyzer.Paths.{FilePath, display, is_rust, is_ignored_path}
use guard_cli.Analyzer.Errors.{ScanError}
use guard_cli.Analyzer.Host.{Host, boxed}
use guard_cli.Cli.Config.{ConfigHost, GuardConfig, default_config, load, Loaded}
use guard_cli.Cli.Pretty.{red_bold}
use guard_cli.Cli.Run.{ScanOptions, Event, stdout, stderr, Terminal, error_document, Ran, run_scan}

unfoldable pub effective_fail_on : Option String → Option String → String
effective_fail_on (some cli_value) config_value = cli_value
effective_fail_on none (some config_value) = config_value
effective_fail_on none none = "high"

-- A letter in upper case has the code of its lower case less 32. No other character has one of the
-- letters of the three words as its lower case.
abbrev pub lower : ℕ → ℕ
lower b = if leb b'A' b && leb b b'Z' then b + 32 else b

-- `value.to_lowercase() == word`, for a word in lower case
unfoldable pub lowercase_is : String → String → Bool
lowercase_is String.[] String.[] = true
lowercase_is String.[] (String.◌∷◌ d word) = false
lowercase_is (String.◌∷◌ c value) String.[] = false
lowercase_is (String.◌∷◌ c value) (String.◌∷◌ d word) =
    lower (code c) == code d && lowercase_is value word

unfoldable pub parse_fail_on : String → Result Severity String
unfolding lowercase_is
parse_fail_on value =
    if lowercase_is value "high"
    then ok high
    else if lowercase_is value "medium"
    then ok medium
    else if lowercase_is value "low"
    then ok low
    else err value

-- the names of the config file, and each `--disable-check` that is new
unfoldable pub merge_disabled : List String → List String → List String
merge_disabled all_disabled [] = all_disabled
merge_disabled all_disabled (n ∷ disable_check) =
    merge_disabled (if contains all_disabled n then all_disabled else all_disabled ++ n ∷ [])
      disable_check

unfoldable pub join_comma : List String → String
join_comma [] = ""
join_comma (n ∷ []) = n
join_comma (n ∷ m ∷ ns) = n <> (", " <> join_comma (m ∷ ns))

unfoldable pub is_relevant_watch_path : FilePath → Bool
is_relevant_watch_path path = is_rust path && not (is_ignored_path path)

pub record ScanArgs : Type 0 where
  pub path : Option FilePath
  pub json : Bool
  pub sarif : Bool
  pub markdown : Bool
  pub output : Option FilePath
  pub quiet : Bool
  pub verbose : Bool
  pub include : List String
  pub exclude : List String
  pub fail_on : Option String
  pub disable_check : List String
  pub max_findings : ℕ

-- what the setup makes: the events so far, the options of the scan and its checks
pub record Ready : Type 0 where
  pub events : List Event
  pub opts : ScanOptions
  pub checks : List Detector

-- an early exit with 2 behind its events, or a panic
pub data Stopped : Type 0 where
  exited : List Event → Stopped
  panicked : String → Stopped

-- `from_text` is `PathBuf::from` of a text of the config file.
module _ (c : ConfigHost) (from_text : String → FilePath) (t : Terminal) where
  abbrev pub plain_error : String → Event
  plain_error message = stderr (t.paint red_bold "error:" <> (" " <> message))

  unfoldable pub emit_setup_error : String → Bool → Event
  emit_setup_error message false = plain_error message
  emit_setup_error message true =
      elim (t.to_string_pretty (error_document message (message ∷ []))) [
        | ok payload ↦ stdout payload
        | err e ↦ plain_error e
      ]

  abbrev pub or_default : Option GuardConfig → GuardConfig
  or_default none = default_config
  or_default (some cfg) = cfg

  abbrev pub configured_path : GuardConfig → Result FilePath Stopped
  configured_path cfg = elim cfg.scan.path [
    | some p ↦ ok (from_text p)
    | none ↦
        err (exited (plain_error "no scan path provided and none found in soroban-guard.toml" ∷ []))
  ]

  unfoldable pub resolve_scan_path : Option FilePath → Result FilePath Stopped
  resolve_scan_path (some p) = ok p
  resolve_scan_path none = elim (load c ("." ∷ [])) [
    | err e ↦ err (exited (plain_error e ∷ []))
    | ok (cfg, _) ↦ configured_path (or_default cfg)
  ]

  abbrev pub config_note : Bool → Option FilePath → List Event
  config_note false config_path = []
  config_note true (some p) = stderr ("Using config file " <> display p) ∷ []
  config_note true none = stderr "No soroban-guard.toml found" ∷ []

  abbrev pub disabled_note : List String → Bool → List Event
  disabled_note all_disabled quiet =
      if not (is_empty all_disabled) && not quiet
      then stderr ("note: disabled check(s): " <> join_comma all_disabled) ∷ []
      else []

  abbrev pub options_of : ScanArgs → FilePath → Severity → ScanOptions
  options_of args scan_path fail_threshold = record {
    path = scan_path;
    json = args.json;
    sarif = args.sarif;
    markdown = args.markdown;
    output = args.output;
    quiet = args.quiet;
    verbose = args.verbose;
    fail_threshold = fail_threshold;
    exclude = args.exclude;
    includes = args.include;
    max_findings = args.max_findings;
  }

  -- the first disabled name that no check has
  abbrev pub unknown_check : List Detector → List String → Option String
  unknown_check known_checks all_disabled =
      find (λ n. not (contains (map name known_checks) n)) all_disabled

  abbrev pub or_panic :
      {A : Type 0} → Result A String → (A → Result Ready Stopped) → Result Ready Stopped
  or_panic (ok a) f = f a
  or_panic (err message) f = err (panicked message)

  -- the active checks, unless a disabled name is unknown
  unfoldable pub activate :
      ScanArgs
      → FilePath
      → List Event
      → GuardConfig
      → Severity
      → List String
      → Option String
      → Result Ready Stopped
  unfolding emit_setup_error
  activate args scan_path notes cfg fail_threshold all_disabled (some bad) = err (
      exited (
        notes
        ++ emit_setup_error
            ("unknown check `"
              <> (bad <> "`. Run `soroban-guard list-checks` to see available checks."))
            args.json
          ∷ []))
  activate args scan_path notes cfg fail_threshold all_disabled none =
      or_panic (default_checks_with_config all_disabled cfg.checks.sensitive_names.extra) λ checks.
        ok (record {
          events = notes ++ disabled_note all_disabled args.quiet;
          opts = options_of args scan_path fail_threshold;
          checks = checks;
        })

  unfoldable pub with_threshold :
      ScanArgs → FilePath → List Event → GuardConfig → Result Severity String → Result Ready Stopped
  unfolding emit_setup_error activate
  with_threshold args scan_path notes cfg (err bad) = err (
      exited (
        notes
        ++ emit_setup_error
            ("unknown --fail-on value `" <> (bad <> "`. Expected one of: high, medium, low"))
            args.json
          ∷ []))
  with_threshold args scan_path notes cfg (ok fail_threshold) =
      let all_disabled = merge_disabled cfg.checks.disabled args.disable_check in
      or_panic default_checks λ known_checks.
        activate args scan_path notes cfg fail_threshold all_disabled
          (unknown_check known_checks all_disabled)

  -- behind the config file
  unfoldable pub prepare : ScanArgs → FilePath → List Event → GuardConfig → Result Ready Stopped
  unfolding with_threshold
  prepare args scan_path notes cfg =
      with_threshold args scan_path notes cfg
        (parse_fail_on (effective_fail_on args.fail_on cfg.scan.min_severity))

  -- the `match` on what `config::load` returns
  unfoldable pub after_load : ScanArgs → FilePath → Result Loaded String → Result Ready Stopped
  unfolding emit_setup_error prepare
  after_load args scan_path (err e) = err (exited (emit_setup_error e args.json ∷ []))
  after_load args scan_path (ok (cfg, config_path)) =
      prepare args scan_path (config_note args.verbose config_path) (or_default cfg)

  unfoldable pub after_path : ScanArgs → Result FilePath Stopped → Result Ready Stopped
  unfolding after_load
  after_path args (err stopped) = err stopped
  after_path args (ok scan_path) = after_load args scan_path (load c scan_path)

  unfoldable pub setup : ScanArgs → Result Ready Stopped
  unfolding resolve_scan_path after_path
  setup args = after_path args (resolve_scan_path args.path)

  -- without `--watch`: the setup, one scan, and the exit code; a panic ends with 101
  unfoldable pub after_setup : (h : Host) → (List ScanError → ℕ) → Result Ready Stopped → Ran
  after_setup h observed (err (exited events)) = record { events = events; code = 2 }
  after_setup h observed (err (panicked message)) = record {
    events = stderr message ∷ [];
    code = 101;
  }
  after_setup h observed (ok ready) =
      let ran = run_scan h observed t ready.opts (map (boxed h) ready.checks) in
      record { events = ready.events ++ ran.events; code = ran.code }

  unfoldable pub scan_command : (h : Host) → (List ScanError → ℕ) → ScanArgs → Ran
  unfolding after_setup setup
  scan_command h observed args = after_setup h observed (setup args)
