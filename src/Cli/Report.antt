-- ===== src/Cli/Report.antt =====
-- The output of crates/cli/src/main.rs as values: the severity counts, the Markdown table, the SARIF
-- rules and results, and the truncation.
pub mod Laws
use guard_cli.Prelude.{
  ℕ, ◌+◌, ◌-◌, String, Bool, true, false, ◌||◌, Option, none, some, List, [], ◌∷◌, ◌++◌, map,
  if◌then◌else◌, ◌==◌, nat_eq, string_eq, leb, length, take, is_empty,
}
use Prim.Native.Char.{code}
use guard_cli.Prelude.Text.{◌<>◌}
use guard_cli.Prelude.Text
use guard_cli.Prelude.Decimal.{decimal}
use guard_cli.Prelude.Maps.{tree_entry}
use guard_cli.Prelude.Text.{string_ord}
use guard_cli.Checks.Finding.{Severity, high, medium, low, severity_ltb, Finding}
use Prim.Native.String

-- `(high, medium, low)`, with the loop's counters
severity_counts_from : ℕ → ℕ → ℕ → List Finding → ℕ × ℕ × ℕ
severity_counts_from h m l [] = (h, m, l)
severity_counts_from h m l (f ∷ fs) = elim f.severity [
  | high ↦ severity_counts_from (h + 1) m l fs
  | medium ↦ severity_counts_from h (m + 1) l fs
  | low ↦ severity_counts_from h m (l + 1) fs
]

unfoldable pub severity_counts : List Finding → ℕ × ℕ × ℕ
unfolding severity_counts_from
severity_counts = severity_counts_from 0 0 0

unfoldable pub summary_text : List Finding → ℕ → String
unfolding severity_counts decimal
summary_text findings files_scanned =
    let (h, m, l) = severity_counts findings in
    decimal h
    <> (" High, "
        <> (decimal m
            <> (" Medium, "
                <> (decimal l <> (" Low — across " <> (decimal files_scanned <> " file(s)"))))))

-- the displayed findings, and how many are left out
unfoldable pub truncate : List Finding → ℕ → List Finding × ℕ
truncate findings max =
    if max == 0 || leb (length findings) max
    then (findings, 0)
    else (take max findings, length findings - max)

-- `replace` of one character by a text
unfoldable pub replace_char : ℕ → String → String → String
replace_char b by String.[] = String.[]
replace_char b by (String.◌∷◌ c s) =
    let rest = replace_char b by s in if code c == b then by <> rest else String.◌∷◌ c rest

unfoldable pub escape_md_cell : String → String
unfolding replace_char
escape_md_cell s = replace_char 13 "" (replace_char 10 " " (replace_char b'|' "\\|" s))

severity_cell : Severity → String
severity_cell high = "**HIGH**"
severity_cell medium = "MEDIUM"
severity_cell low = "LOW"

check_cell : Finding → String
unfolding escape_md_cell
check_cell f = elim f.rule_url [
  | some url ↦ "[" <> (escape_md_cell f.check_name <> ("](" <> (url <> ")")))
  | none ↦ escape_md_cell f.check_name
]

suggestion_cell : Option String → String
unfolding escape_md_cell
suggestion_cell none = ""
suggestion_cell (some s) = escape_md_cell s

-- the cells of a row, in order
pub row_cells : ℕ → Finding → List String
unfolding severity_cell check_cell suggestion_cell
row_cells i f =
    decimal (i + 1)
    ∷ severity_cell f.severity
    ∷ escape_md_cell f.file_path
    ∷ decimal f.line
    ∷ check_cell f
    ∷ escape_md_cell f.function_name
    ∷ escape_md_cell f.description
    ∷ suggestion_cell f.suggestion
    ∷ []

join_cells : List String → String
join_cells [] = "|"
join_cells (c ∷ cs) = "| " <> (c <> (" " <> join_cells cs))

rows_from : ℕ → List Finding → String
unfolding row_cells join_cells
rows_from i [] = ""
rows_from i (f ∷ fs) = join_cells (row_cells i f) <> ("\n" <> rows_from (i + 1) fs)

unfoldable pub render_markdown : List Finding → String
unfolding rows_from severity_counts decimal
render_markdown [] = "## Soroban Guard Findings\n\nNo issues found.\n"
render_markdown (f ∷ fs) =
    let (h, m, l) = severity_counts (f ∷ fs) in
    "## Soroban Guard Findings\n\n"
    <> ("| # | Severity | File | Line | Check | Function | Description | Suggestion |\n"
        <> ("|---|----------|------|------|-------|----------|-------------|------------|\n"
            <> (rows_from 0 (f ∷ fs)
                <> ("\n**"
                    <> (decimal (length (f ∷ fs))
                        <> (" finding(s): "
                            <> (decimal h
                                <> (" High, "
                                    <> (decimal m
                                        <> (" Medium, " <> (decimal l <> " Low**\n")))))))))))

unfoldable pub severity_to_sarif_level : Severity → String
severity_to_sarif_level high = "error"
severity_to_sarif_level medium = "warning"
severity_to_sarif_level low = "note"

-- the entry of a rule: the most severe of its findings
unfoldable pub worse : Severity → Option Severity → Severity
worse s none = s
worse s (some t) = if severity_ltb s t then s else t

rule_severity_from : List (String × Severity) → List Finding → List (String × Severity)
rule_severity_from m [] = m
rule_severity_from m (f ∷ fs) = rule_severity_from (tree_entry f.check_name (worse f.severity) m) fs

unfoldable pub rule_severity : List Finding → List (String × Severity)
unfolding rule_severity_from worse
rule_severity = rule_severity_from []

pub record SarifRule : Type 0 where
  pub id : String
  pub description : String
  pub level : String

pub record SarifResult : Type 0 where
  pub rule_id : String
  pub level : String
  pub text : String
  pub uri : String
  pub start_line : ℕ

pub record Sarif : Type 0 where
  pub rules : List SarifRule
  pub results : List SarifResult
  pub files_skipped : ℕ

-- the parts of the document that depend on the scan, over `describe_rule`
unfoldable pub build_sarif : (String → String) → List Finding → ℕ → Sarif
unfolding rule_severity severity_to_sarif_level
build_sarif describe_rule findings files_skipped = record {
  rules =
      map
        (λ p. record {
          id = p.0;
          description = describe_rule p.0;
          level = severity_to_sarif_level p.1;
        })
        (rule_severity findings);
  results =
      map
        (λ (f : Finding). record {
          rule_id = f.check_name;
          level = severity_to_sarif_level f.severity;
          text = f.description;
          uri = f.file_path;
          start_line = f.line;
        })
        findings;
  files_skipped = files_skipped;
}
