-- ===== src/Cli/Baseline/Tests.antt =====
-- Tests of the baseline.
use guard_cli.Prelude.{◌+◌, String, true, ◌≡◌, refl, List, [], ◌∷◌, map, length, distinct}
use guard_cli.Prelude.Maps.{lookup, hash_entry}
use guard_cli.Cli.Baseline.{
  Finding, tuple, FindingFingerprint, fingerprint_findings, filter_findings, new, baseline_of,
  tuple_beq, tuple_eq, fingerprint_eq,
}
use guard_cli.Cli.Baseline.Counts.{fingerprint_findings-distinct}
use guard_cli.Cli.Baseline.Laws.{
  unrecorded, filter_findings-unrecorded, filter_findings-baseline_of,
}

abbrev finding_of : String → Finding
finding_of check = record {
  check = check;
  file = "src/lib.rs";
  function = "mint";
  description = "";
}

abbrev two_alike : List Finding
two_alike =
    finding_of "missing-nonce" ∷ finding_of "missing-nonce" ∷ finding_of "self-transfer" ∷ []

occurrences :
    map (λ (k : FindingFingerprint). k.occurrence) (fingerprint_findings two_alike) ≡ 0 ∷ 1 ∷ 0 ∷ []
unfolding fingerprint_findings lookup hash_entry tuple_beq
occurrences = refl

fingerprint_findings-distinct_example :
    (distinct (fingerprint_findings two_alike) ≡ true)
    × ((gs : List Finding)
        → map tuple two_alike ≡ map tuple gs
        → fingerprint_findings two_alike ≡ fingerprint_findings gs)
fingerprint_findings-distinct_example = fingerprint_findings-distinct two_alike

filter_findings-unrecorded_example :
    ((filter_findings two_alike new).new_findings
      ≡ unrecorded new.counts two_alike (fingerprint_findings two_alike))
    × ((filter_findings two_alike new).hidden_count
          + length (filter_findings two_alike new).new_findings
        ≡ length two_alike)
filter_findings-unrecorded_example = filter_findings-unrecorded two_alike new

filter_findings-baseline_of_example :
    ((filter_findings two_alike (baseline_of (fingerprint_findings two_alike) new)).new_findings
      ≡ [])
    × ((filter_findings two_alike (baseline_of (fingerprint_findings two_alike) new)).hidden_count
        ≡ length two_alike)
filter_findings-baseline_of_example = filter_findings-baseline_of two_alike new
