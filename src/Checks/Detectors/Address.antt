-- ===== src/Checks/Detectors/Address.antt =====
-- crates/checks/src/hardcoded_address.rs: `hardcoded-address`. The source works on the bytes of a line; no
-- byte of a character outside ASCII passes any of its tests, so that here it works on the
-- characters.
pub mod Lines
pub mod Keys
pub mod Ranges
pub mod Boundaries
pub mod Places
pub mod Exact
pub mod Kept
use guard_cli.Prelude.{ℕ, String, ◌+◌, Bool, some, List, [], ◌∷◌, ◌++◌, map, if◌then◌else◌}
use guard_cli.Prelude.Text.{◌<>◌, trim_start, starts_with, lines}
use guard_cli.Checks.Ast.{Items}
use guard_cli.Checks.Finding.{medium, Finding}
use guard_cli.Checks.Names
use guard_cli.Checks.Detectors.{docs}
use guard_cli.Checks.Detectors.Address.Lines.{effective_lines}
use guard_cli.Checks.Detectors.Address.Keys.{find_candidate_keys}
use guard_cli.Checks.Detectors.Address.Ranges.{
  enclosing_function, function_spans, in_any_range, test_only_line_ranges,
}

abbrev pub address_finding : List (ℕ × ℕ × String) → ℕ → String → Finding
address_finding spans line_no key = record {
  check_name = Names.hardcoded_address;
  severity = medium;
  file_path = "";
  line = line_no;
  function_name = enclosing_function spans line_no;
  description =
      "String literal `"
      <> (key
          <> "` looks like a hardcoded Stellar public key. Pass addresses in as contract parameters or configuration instead of baking them into source.");
  rule_url = docs "hardcoded-address-medium";
  suggestion =
      some
        "Accept the address as a contract parameter or read it from storage instead of hardcoding.";
}

abbrev pub is_doc_line : String → Bool
is_doc_line raw_line = starts_with (trim_start raw_line) "#[doc"

-- what the body of the loop pushes for a line; a missing raw line is ""
unfoldable pub line_findings :
    List (ℕ × ℕ × String) → List (ℕ × ℕ) → ℕ → (raw_line line : String) → List Finding
unfolding find_candidate_keys in_any_range trim_start starts_with
line_findings spans test_ranges line_no raw_line line =
    if in_any_range test_ranges line_no
    then []
    else if is_doc_line raw_line
    then []
    else map (address_finding spans line_no) (find_candidate_keys line)

-- the loop over the effective lines, each with the line of the source that it comes from
unfoldable pub scan_lines :
    List (ℕ × ℕ × String) → List (ℕ × ℕ) → ℕ → List String → List String → List Finding
unfolding line_findings
scan_lines spans test_ranges line_no [] raw_lines = []
scan_lines spans test_ranges line_no (line ∷ lines) [] =
    line_findings spans test_ranges line_no "" line
    ++ scan_lines spans test_ranges (line_no + 1) lines []
scan_lines spans test_ranges line_no (line ∷ lines) (raw_line ∷ raw_lines) =
    line_findings spans test_ranges line_no raw_line line
    ++ scan_lines spans test_ranges (line_no + 1) lines raw_lines

unfoldable pub run : Items → String → List Finding
unfolding effective_lines function_spans test_only_line_ranges scan_lines lines
run file source =
    scan_lines (function_spans file) (test_only_line_ranges file) 1 (effective_lines source)
      (lines source)
