-- ===== src/Cli/Pretty.antt =====
-- `print_pretty` of crates/cli/src/main.rs, as the text of each `println!`. The crate `colored` is
-- the parameter `paint`, and `hyperlinks` is what `use_hyperlinks` says.
use guard_cli.Prelude.{
  ℕ, ◌+◌, String, Bool, ◌&&◌, Option, none, some, List, [], ◌∷◌, ◌++◌, if◌then◌else◌, ◌==◌, nat_eq,
  ltb, length, is_empty,
}
use guard_cli.Prelude.Text.{◌<>◌}
use guard_cli.Prelude.Decimal.{decimal}
use guard_cli.Checks.Finding.{Severity, high, medium, low, Finding}
use guard_cli.Cli.Report.{summary_text}

pub data Style : Type 0 where
  cyan_bold dimmed green yellow_bold yellow red_bold magenta_bold magenta white bright_white : Style

module _ (paint : Style → String → String) (hyperlinks : Bool) where
  abbrev pub hyperlink : String → String → String
  hyperlink url text =
      if hyperlinks
      then "\u{1b}]8;;" <> (url <> ("\u{1b}\\" <> (text <> "\u{1b}]8;;\u{1b}\\")))
      else text

  abbrev pub style_check_name : String → Severity → String
  style_check_name check_name high = paint red_bold check_name
  style_check_name check_name medium = paint magenta check_name
  style_check_name check_name low = paint dimmed check_name

  abbrev pub severity_label : Severity → String
  severity_label high = paint red_bold "HIGH"
  severity_label medium = paint magenta_bold "MEDIUM"
  severity_label low = paint white "LOW"

  abbrev pub suggestion_lines : Option String → List String
  suggestion_lines none = []
  suggestion_lines (some suggestion) =
      ("         " <> (paint dimmed "suggestion:" <> (" " <> suggestion))) ∷ []

  abbrev pub docs_lines : Option String → List String
  docs_lines none = []
  docs_lines (some url) = ("         " <> (paint dimmed "docs:" <> (" " <> hyperlink url url))) ∷ []

  -- the lines of the finding with the index `i`
  abbrev pub finding_lines : ℕ → Finding → List String
  finding_lines i f =
      ("  "
          <> (paint dimmed ("[" <> (decimal (i + 1) <> "]"))
              <> ("  "
                  <> (severity_label f.severity
                      <> ("  "
                          <> (paint bright_white (f.file_path <> (":" <> decimal f.line))
                              <> ("  " <> style_check_name f.check_name f.severity)))))))
        ∷ ("         " <> (paint dimmed "function:" <> (" `" <> (f.function_name <> "`"))))
        ∷ ("         " <> f.description)
        ∷ suggestion_lines f.suggestion
      ++ docs_lines f.rule_url
      ++ "" ∷ []

  abbrev pub findings_lines : ℕ → List Finding → List String
  findings_lines i [] = []
  findings_lines i (f ∷ fs) = finding_lines i f ++ findings_lines (i + 1) fs

  abbrev pub truncated_lines : ℕ → List String
  truncated_lines truncated_count =
      if ltb 0 truncated_count
      then ("  "
          <> paint yellow (
              "... (truncated — "
              <> (decimal truncated_count
                  <> " more finding(s) not shown, use --max-findings 0 for all)")))
        ∷ ""
        ∷ []
      else []

  abbrev pub body_lines : List Finding → ℕ → List String
  body_lines display truncated_count =
      if is_empty display && truncated_count == 0
      then ("  " <> paint green "No issues found.") ∷ "" ∷ []
      else ("  "
            <> (paint yellow_bold (decimal (length display + truncated_count)) <> " finding(s):\n"))
          ∷ findings_lines 0 display
        ++ truncated_lines truncated_count

  unfoldable pub print_pretty : List Finding → List Finding → ℕ → String → ℕ → List String
  print_pretty findings display files_scanned root_label truncated_count =
      ""
        ∷ (paint cyan_bold "Soroban Guard Core"
            <> (" " <> paint dimmed ("(scan: " <> (root_label <> ")"))))
        ∷ ""
        ∷ body_lines display truncated_count
      ++ ("  " <> summary_text findings files_scanned) ∷ "" ∷ []
