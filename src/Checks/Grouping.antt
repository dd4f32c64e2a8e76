-- ===== src/Checks/Grouping.antt =====
-- `group_by_file` and `group_by_severity` of crates/checks/src/lib.rs.
pub mod Laws
use guard_cli.Prelude.{String, Option, none, some, List, [], ◌∷◌, ◌++◌, Eq, string_eq}
use guard_cli.Prelude.Maps.{Ord, tree_entry}
use guard_cli.Prelude.Text.{string_ord}
use guard_cli.Checks.Finding.{Severity, Finding, severity_eq, severity_ord}

-- `or_default().push(finding)`
abbrev pub push : Finding → Option (List Finding) → List Finding
push f none = f ∷ []
push f (some fs) = fs ++ f ∷ []

module _ {K : Type 0} ⦃e : Eq K⦄ ⦃o : Ord K⦄ (key : Finding → K) where
  -- the loop of both functions
  unfoldable pub group_from : List (K × List Finding) → List Finding → List (K × List Finding)
  group_from map [] = map
  group_from map (f ∷ fs) = group_from (tree_entry (key f) (push f) map) fs

unfoldable pub group_by_file : List Finding → List (String × List Finding)
group_by_file = group_from (λ f. f.file_path) []

unfoldable pub group_by_severity : List Finding → List (Severity × List Finding)
group_by_severity = group_from (λ f. f.severity) []
