-- ===== src/Cli/Setup/Choices.antt =====
-- How flags and the config file are put together: the disabled checks and the threshold.
use guard_cli.Prelude.{
  String, true, false, ◌||◌, ◌≡◌, refl, ap, Option, none, some, List, [], ◌∷◌, ◌++◌, ◌==◌,
  string_eq, contains, distinct, ok, arith, Bool-cases, inl, inr, any-append,
}
use guard_cli.Checks.Finding.{Severity, high, medium, low}
use guard_cli.Cli.Setup.{effective_fail_on, lowercase_is, parse_fail_on, merge_disabled}

contains-same :
    (ds : List String) (m n : String)
    → contains ds m ≡ true
    → (contains ds n || m == n) ≡ contains ds n
contains-same ds m n h = elim (Bool-cases (m == n)) [
  | inl same ↦ rw same (ground (arith, ap (contains ds) ((string_eq.beq_iff m n).0 same), h))
  | inr other ↦ rw other (ground arith)
]

pub contains-merge_disabled :
    (ns ds : List String) (n : String)
    → contains (merge_disabled ds ns) n ≡ (contains ds n || contains ns n)
unfolding merge_disabled
contains-merge_disabled [] ds n = ground arith
contains-merge_disabled (m ∷ ns) ds n = elim (Bool-cases (contains ds m)) [
  | inl old ↦ rw old (ground (arith, contains-merge_disabled ns ds n, contains-same ds m n old))
  | inr new ↦ rw new (
      ground
        (arith, contains-merge_disabled ns (ds ++ m ∷ []) n, any-append (λ x. x == n) ds (m ∷ [])))
]

distinct-append :
    (ds : List String) (m : String)
    → distinct ds ≡ true
    → contains ds m ≡ false
    → distinct (ds ++ m ∷ []) ≡ true
distinct-append [] m h k = refl
distinct-append (d ∷ ds) m h k = ground (
  arith,
  distinct-append ds m,
  any-append (λ x. x == d) ds (m ∷ []),
  string_eq.beq_iff m d,
  string_eq.beq_iff d m,
)

distinct-merge_disabled :
    (ns ds : List String) → distinct ds ≡ true → distinct (merge_disabled ds ns) ≡ true
unfolding merge_disabled
distinct-merge_disabled [] ds h = h
distinct-merge_disabled (m ∷ ns) ds h = elim (Bool-cases (contains ds m)) [
  | inl old ↦ rw old (distinct-merge_disabled ns ds h)
  | inr new ↦ rw new (distinct-merge_disabled ns (ds ++ m ∷ []) (distinct-append ds m h new))
]

-- The merged list of disabled checks holds the names of the config file and of the flags, and no
-- others, and repeats none if the config file does not.
merge_disabled-union :
    (ds ns : List String)
    → ((n : String) → contains (merge_disabled ds ns) n ≡ (contains ds n || contains ns n))
      × (distinct ds ≡ true → distinct (merge_disabled ds ns) ≡ true)
merge_disabled-union ds ns = (contains-merge_disabled ns ds, distinct-merge_disabled ns ds)

abbrev pub severity_word : Severity → String
severity_word high = "high"
severity_word medium = "medium"
severity_word low = "low"

-- The threshold is the one that the flag names, else the one that the config file names, else high.
abbrev pub IsThreshold : (flag min_severity : Option String) → Severity → Type 0
IsThreshold (some value) min_severity threshold =
    lowercase_is value (severity_word threshold) ≡ true
IsThreshold none (some value) threshold = lowercase_is value (severity_word threshold) ≡ true
IsThreshold none none threshold = threshold ≡ high

parse_fail_on-word :
    (value : String) (threshold : Severity)
    → parse_fail_on value ≡ ok threshold
    → lowercase_is value (severity_word threshold) ≡ true
unfolding parse_fail_on
parse_fail_on-word value high e = ground arith
parse_fail_on-word value medium e = ground arith
parse_fail_on-word value low e = ground arith

parse_fail_on-high : parse_fail_on "high" ≡ ok high
unfolding parse_fail_on lowercase_is
parse_fail_on-high = refl

pub effective_fail_on-IsThreshold :
    (flag min_severity : Option String) {threshold : Severity}
    → parse_fail_on (effective_fail_on flag min_severity) ≡ ok threshold
    → IsThreshold flag min_severity threshold
unfolding effective_fail_on
effective_fail_on-IsThreshold (some value) min_severity e = parse_fail_on-word value _ e
effective_fail_on-IsThreshold none (some value) e = parse_fail_on-word value _ e
effective_fail_on-IsThreshold none none {threshold} e = ground (arith, e, parse_fail_on-high)
