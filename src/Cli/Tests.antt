-- ===== src/Cli/Tests.antt =====
-- Tests of the command line on a small project.
mod Examples
use guard_cli.Prelude.{
  String, Bool, true, false, ◌≡◌, refl, Option, none, some, List, [], ◌∷◌, Result, ok, err, ◌==◌,
  string_eq,
}
use guard_cli.Prelude.Text.{trim_end_by}
use guard_cli.Prelude.Decimal.{decimal}
use guard_cli.Checks.Finding.{severity_leb, Severity, high, medium, low, Finding, Check}
use guard_cli.Checks.Registry.{self_transfer_check}
use guard_cli.Checks.Tests.{three_findings}
use guard_cli.Analyzer.Paths.{FilePath, display, parent}
use guard_cli.Analyzer.Host.{Host, boxed}
use guard_cli.Analyzer.Scan.{ScanOutput, FileScanResult}
use guard_cli.Cli.Config.{ConfigHost, default_config, find_config_path}
use guard_cli.Cli.Run.{
  ScanOptions, Event, stdout, stderr, wrote, Terminal, Ran, run_on, chrono_timestamp, file_text,
}
use guard_cli.Cli.Setup.{ScanArgs, setup, Ready, merge_disabled, parse_fail_on}
use guard_cli.Cli.Report.{severity_counts, escape_md_cell}

-- A config file in proj, which a scan of proj/src reads.
abbrev pub project : ConfigHost
project = record {
  is_file = λ p. display p == "proj/soroban-guard.toml";
  exists = λ p. display p == "proj/soroban-guard.toml";
  read_to_string = λ p. ok "[checks]";
  from_str = λ s. ok (record default_config {
    checks = record { disabled = "large-loop" ∷ []; sensitive_names = record { extra = [] } };
  });
}

abbrev pub src_dir : FilePath
src_dir = "proj" ∷ "src" ∷ []

abbrev pub config_file : FilePath
config_file = "proj" ∷ "soroban-guard.toml" ∷ []

pub config_found : find_config_path project src_dir ≡ some config_file
unfolding find_config_path display parent
config_found = refl

abbrev pub plain : Terminal
plain = record {
  version = "1.0.0";
  to_string_pretty = λ document. ok "{}";
  fs_write = λ path text. ok tt;
  paint = λ style text. text;
  hyperlinks = false;
}

abbrev pub options : ScanOptions
options = record {
  path = "/" ∷ "r" ∷ [];
  json = false;
  sarif = false;
  markdown = false;
  output = none;
  quiet = true;
  verbose = false;
  fail_threshold = high;
  exclude = [];
  includes = [];
  max_findings = 0;
}

abbrev pub to_file : ScanOptions
to_file = record options { json = true; output = some ("out.json" ∷ []) }

abbrev pub arguments : ScanArgs
arguments = record {
  path = some src_dir;
  json = true;
  sarif = false;
  markdown = false;
  output = none;
  quiet = false;
  verbose = true;
  include = [];
  exclude = [];
  fail_on = some "Medium";
  disable_check = "self-transfer" ∷ "large-loop" ∷ [];
  max_findings = 0;
}

abbrev pub some_scan : ScanOutput FileScanResult
some_scan = record {
  results = record { file_path = "a.rs"; findings = three_findings } ∷ [];
  files_scanned = 2;
  files_skipped = 0;
  check_panics = [];
  warnings = [];
}

one_high : (run_on plain options (ok some_scan)).code ≡ 1
unfolding run_on severity_leb
one_high = refl

counts : severity_counts three_findings ≡ (1, 2, 0)
unfolding severity_counts
counts = refl

bar : escape_md_cell "a|b\nc" ≡ "a\\|b c"
unfolding escape_md_cell
bar = refl

clock : chrono_timestamp 83376 ≡ "23:09:36 UTC"
unfolding chrono_timestamp decimal
clock = refl

any_case : parse_fail_on "MeDium" ≡ ok medium
unfolding parse_fail_on
any_case = refl

no_case : parse_fail_on "critical" ≡ err "critical"
unfolding parse_fail_on
no_case = refl

-- a name of the config file is not repeated
merged :
    merge_disabled ("large-loop" ∷ []) ("self-transfer" ∷ "large-loop" ∷ [])
    ≡ "large-loop" ∷ "self-transfer" ∷ []
unfolding merge_disabled
merged = refl

one_newline : file_text "{}\n\n" ≡ "{}\n"
unfolding file_text trim_end_by
one_newline = refl
