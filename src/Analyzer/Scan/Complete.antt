-- ===== src/Analyzer/Scan/Complete.antt =====
-- What the checks raise on a file against what is reported for it.
use mathlib.Core.List.{append_assoc, append-nil}
use guard_cli.Prelude.{
  String, ◌≡◌, refl, sym, ap, ◌∙◌, Bool, true, false, not, ◌||◌, List, [], ◌∷◌, ◌++◌, map, arith,
  ok, ◌==◌, string_eq, retain, contains, any, inl, inr, Bool-cases,
}
use guard_cli.Prelude.Sort.{sort, any-sort}
use guard_cli.Checks.Finding.{Finding, Outcome, hits, panics, Check}
use guard_cli.Analyzer.Paths.{FilePath, file_label}
use guard_cli.Analyzer.Errors.{ScanError, check_panic}
use guard_cli.Analyzer.Suppress.{
  FnSpan, build_fn_spans, Suppressions, parse_suppressions, is_suppressed,
}
use guard_cli.Analyzer.Dedup.{FindingKey, key, suppress_redundant_division_finding}
use guard_cli.Analyzer.Dedup.Laws.{keys, key_eq, key_beq_iff, dedup_findings-distinct}
use guard_cli.Analyzer.Host.{Host}
use guard_cli.Analyzer.Scan.{
  panic_message, labelled, Hits, by_line, tidy, add_outcome, run_checks, run_checks_on,
  run_checks_for_file,
}

abbrev pub hits_of : Outcome → List Finding
hits_of (hits found) = found
hits_of (panics payload) = []

abbrev pub panics_of : FilePath → String → Outcome → List ScanError
panics_of path check_name (hits found) = []
panics_of path check_name (panics payload) =
    check_panic check_name path (panic_message payload) ∷ []

-- what the checks return, check by check
abbrev pub raised {ℓ} : {File : Type ℓ} → File → String → List (Check File) → List Finding
raised file content [] = []
raised file content (check ∷ checks) =
    hits_of (check.run file content) ++ raised file content checks

abbrev pub panicked {ℓ} :
    {File : Type ℓ} → FilePath → File → String → List (Check File) → List ScanError
panicked path file content [] = []
panicked path file content (check ∷ checks) =
    panics_of path check.name (check.run file content) ++ panicked path file content checks

-- under the label of the file, without the suppressed ones
abbrev pub shown : String → Suppressions → List FnSpan → List Finding → List Finding
shown label suppressions fn_spans fs =
    retain (λ f. not (is_suppressed f suppressions fn_spans)) (map (labelled label) fs)

shown-append :
    (label : String) (suppressions : Suppressions) (fn_spans : List FnSpan) (fs gs : List Finding)
    → shown label suppressions fn_spans (fs ++ gs)
      ≡ shown label suppressions fn_spans fs ++ shown label suppressions fn_spans gs
shown-append label suppressions fn_spans [] gs = refl
shown-append label suppressions fn_spans (f ∷ fs) gs =
    elim (Bool-cases (is_suppressed (labelled label f) suppressions fn_spans)) [
      | inl hidden ↦ rw hidden (shown-append label suppressions fn_spans fs gs)
      | inr plain ↦
          rw plain (ap (◌∷◌ (labelled label f)) (shown-append label suppressions fn_spans fs gs))
    ]

module _ (path : FilePath) (label : String) (suppressions : Suppressions)
    (fn_spans : List FnSpan) where
  add_outcome-hits :
      (check_name : String) (o : Outcome) (s : Hits)
      → add_outcome path label suppressions fn_spans check_name o s ≡ record {
        findings = s.findings ++ shown label suppressions fn_spans (hits_of o);
        check_panics = s.check_panics ++ panics_of path check_name o;
      }
  unfolding add_outcome
  add_outcome-hits check_name (hits found) s =
      ap
        (λ ps. record {
          findings = s.findings ++ shown label suppressions fn_spans found;
          check_panics = ps;
        })
        (sym (append-nil s.check_panics))
  add_outcome-hits check_name (panics payload) s =
      ap
        (λ fs. record {
          findings = fs;
          check_panics = s.check_panics ++ panics_of path check_name (panics payload);
        })
        (sym (append-nil s.findings))

  run_checks-raised {ℓ} :
      {File : Type ℓ} (file : File) (content : String) (checks : List (Check File)) (s : Hits)
      → run_checks path label suppressions fn_spans file content checks s ≡ record {
        findings = s.findings ++ shown label suppressions fn_spans (raised file content checks);
        check_panics = s.check_panics ++ panicked path file content checks;
      }
  unfolding run_checks
  run_checks-raised file content [] s = rw (append-nil s.findings, append-nil s.check_panics) refl
  run_checks-raised file content (check ∷ checks) s =
      let o = check.run file content in
      run_checks-raised file content checks
        (add_outcome path label suppressions fn_spans check.name o s)
      ∙ rw
          (
            add_outcome-hits check.name o s,
            shown-append label suppressions fn_spans (hits_of o) (raised file content checks),
            append_assoc s.findings (shown label suppressions fn_spans (hits_of o))
                (shown label suppressions fn_spans (raised file content checks)),
            append_assoc s.check_panics (panics_of path check.name o)
                (panicked path file content checks),
          )
          refl

contains-keys :
    (fs : List Finding) (k : FindingKey) → contains (keys fs) k ≡ any (λ f. key f == k) fs
contains-keys [] k = refl
contains-keys (f ∷ fs) k = ap (λ b. key f == k || b) (contains-keys fs k)

contains-retain :
    (p : Finding → Bool) (fs : List Finding) (k : FindingKey)
    → ((f : Finding) → (key f == k) ≡ true → p f ≡ true)
    → contains (keys (retain p fs)) k ≡ contains (keys fs) k
contains-retain p [] k h = refl
contains-retain p (f ∷ fs) k h = ground (arith, contains-retain p fs k h, h f)

contains-suppress_redundant_division_finding :
    (fs : List Finding) (k : FindingKey)
    → (k.check_name == "integer-division-truncation") ≡ false
    → contains (keys (suppress_redundant_division_finding fs)) k ≡ contains (keys fs) k
unfolding suppress_redundant_division_finding
contains-suppress_redundant_division_finding fs k other = contains-retain _ fs k (λ f same.
    ground (arith, other, ap (λ (x : FindingKey). x.check_name) ((key_beq_iff (key f) k).0 same)))

-- whether a key stands for a truncating division
abbrev pub is_division_key : FindingKey → Bool
is_division_key k = k.check_name == "integer-division-truncation"

contains-tidy :
    (fs : List Finding) (k : FindingKey)
    → is_division_key k ≡ false
    → contains (keys (tidy fs)) k ≡ contains (keys fs) k
unfolding tidy
contains-tidy fs k other =
    (dedup_findings-distinct (suppress_redundant_division_finding (sort by_line fs))).1 k
    ∙ contains-suppress_redundant_division_finding (sort by_line fs) k other
    ∙ contains-keys (sort by_line fs) k
    ∙ any-sort by_line (λ f. key f == k) fs
    ∙ sym (contains-keys fs k)

-- A file that can be read and parsed gets a result, whatever its checks do. Its panics are those of
-- the checks, in their order. Apart from truncating divisions, the findings are exactly those that a
-- check raises and no comment suppresses, under the label of the file: they agree in line, check,
-- function, description and severity.
pub run_checks_for_file-raised :
    (h : Host) (path root : FilePath) (checks : List (Check h.File)) (content : String)
    (syn_file : h.File)
    → h.read_to_string path ≡ ok content
    → h.parse_file content ≡ ok syn_file
    → (findings : List Finding) × (run_checks_for_file h path root checks
        ≡ ok (findings, panicked path syn_file content checks))
      × ((k : FindingKey)
          → is_division_key k ≡ false
          → contains (keys findings) k
            ≡ contains
                (keys (
                  shown
                    (file_label (h.is_file root) path root)
                    (parse_suppressions content (build_fn_spans (h.items syn_file)))
                    (build_fn_spans (h.items syn_file))
                    (raised syn_file content checks)))
                k)
unfolding run_checks_for_file run_checks_on
run_checks_for_file-raised h path root checks content syn_file readable parsed =
    let spans = build_fn_spans (h.items syn_file) in
    let comments = parse_suppressions content spans in
    let label = file_label (h.is_file root) path root in
    let found = shown label comments spans (raised syn_file content checks) in
    (
      tidy found,
      rw (readable, parsed)
          (ap (λ (s : Hits). ok (tidy s.findings, s.check_panics))
            (run_checks-raised path label comments spans syn_file content checks
              (record { findings = []; check_panics = [] }))),
      contains-tidy found,
    )
