-- ===== src/Analyzer/Dedup.antt =====
-- `dedup_findings` and `suppress_redundant_division_finding` of crates/analyzer/src/lib.rs.
pub mod Laws
use guard_cli.Prelude.{
  ℕ, String, Bool, true, false, not, ◌&&◌, ◌||◌, List, [], ◌∷◌, map, if◌then◌else◌, ◌==◌, nat_eq,
  string_eq, any, retain,
}
use guard_cli.Checks.Finding.{Finding, Severity, severity_eq}

-- the tuple that tells two findings apart
pub record FindingKey : Type 0 where
  pub file_path : String
  pub line : ℕ
  pub check_name : String
  pub function_name : String
  pub description : String
  pub severity : Severity

abbrev pub key : Finding → FindingKey
key f = record {
  file_path = f.file_path;
  line = f.line;
  check_name = f.check_name;
  function_name = f.function_name;
  description = f.description;
  severity = f.severity;
}

unfoldable pub key_beq : FindingKey → FindingKey → Bool
key_beq a b =
    a.file_path == b.file_path
    && a.line == b.line
    && a.check_name == b.check_name
    && a.function_name == b.function_name
    && a.description == b.description
    && a.severity == b.severity

abbrev pub seen_key : List FindingKey → FindingKey → Bool
seen_key seen k = any (λ s. key_beq s k) seen

-- `retain` while `seen.insert` says that the key is new
unfoldable pub dedup_from : List FindingKey → List Finding → List Finding
dedup_from seen [] = []
dedup_from seen (f ∷ fs) =
    let old = dedup_from seen fs in
    let new = dedup_from (key f ∷ seen) fs in if seen_key seen (key f) then old else f ∷ new

unfoldable pub dedup_findings : List Finding → List Finding
unfolding dedup_from
dedup_findings = dedup_from []

pub record Place : Type 0 where
  pub file_path : String
  pub line : ℕ
  pub function_name : String

abbrev pub place : Finding → Place
place f = record { file_path = f.file_path; line = f.line; function_name = f.function_name }

abbrev pub place_beq : Place → Place → Bool
place_beq a b = a.file_path == b.file_path && a.line == b.line && a.function_name == b.function_name

divisor_hits : List Finding → List Place
divisor_hits findings = map place (retain (λ f. f.check_name == "unchecked-divisor") findings)

unfoldable pub suppress_redundant_division_finding : List Finding → List Finding
unfolding divisor_hits
suppress_redundant_division_finding findings =
    retain
      (λ f.
        not (f.check_name == "integer-division-truncation")
        || not (any (λ p. place_beq p (place f)) (divisor_hits findings)))
      findings
