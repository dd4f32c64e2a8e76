-- ===== src/Cli/Metadata.antt =====
-- What the commands say of a check, in crates/cli/src/main.rs: `check_meta` and the descriptions
-- read from the table `CHECK_METADATA`.
pub mod Meta
pub mod First
pub mod Second
pub mod Laws
use guard_cli.Prelude.{String, Option, none, some, List, ◌++◌, find, ◌==◌, string_eq, map}
use guard_cli.Prelude.Text.{◌<>◌}
use guard_cli.Checks.Registry.{Detector, name}
use guard_cli.Cli.Metadata.Meta.{CheckMeta}
use guard_cli.Cli.Metadata.First.{first_metadata}
use guard_cli.Cli.Metadata.Second.{second_metadata}

abbrev pub check_metadata : List CheckMeta
check_metadata = first_metadata ++ second_metadata

unfoldable pub check_meta : String → Option CheckMeta
check_meta name = find (λ m. m.name == name) check_metadata

details_of : Option CheckMeta → String
details_of none = "No detailed explanation is available for this custom check."
details_of (some m) = elim m.long [
  | none ↦ "No detailed explanation is available for this custom check."
  | some long ↦ long
]

unfoldable pub explain_details : String → String
unfolding details_of check_meta
explain_details name = details_of (check_meta name)

unfoldable pub describe_rule : String → String
unfolding check_meta
describe_rule name = elim (check_meta name) [ none ↦ "Custom check" | some m ↦ m.rule ]

-- `(severity, description)`
unfoldable pub describe_check : String → String × String
unfolding check_meta
describe_check name = elim (check_meta name) [
  | none ↦ ("low", "Custom detector")
  | some m ↦ (m.severity, m.short)
]

pub record Listed : Type 0 where
  pub name : String
  pub severity : String
  pub description : String
  pub rule : String

abbrev pub listed : Detector → Listed
listed check =
    let (severity, description) = describe_check (name check) in
    record {
      name = name check;
      severity = severity;
      description = description;
      rule = describe_rule (name check);
    }

-- the entries of the document of `list_checks_json`
unfoldable pub list_checks_json : List Detector → List Listed
list_checks_json checks = map listed checks

-- a line of `list-checks`
unfoldable pub list_line : Detector → String
list_line check =
    let (severity, description) = describe_check (name check) in
    name check <> (" | " <> (severity <> (" | " <> description)))
