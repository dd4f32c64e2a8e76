-- ===== src/Cli/Baseline.antt =====
-- crates/cli/src/baseline.rs: fingerprints of findings, and the filter by a baseline. The two
-- `HashMap`s are association lists that are changed through their entries.
pub mod Counts
pub mod Laws
mod Tests
use guard_cli.Prelude.{
  ℕ, zero, suc, ◌+◌, String, Bool, true, false, ◌&&◌, ◌≡◌, refl, ◌↔◌, Option, none, some, List, [],
  ◌∷◌, ◌++◌, arith, Eq, ◌==◌, nat_eq, nat_beq_iff, string_eq, if◌then◌else◌, is_empty,
}
use guard_cli.Prelude.Maps.{lookup, hash_entry}
use text.Mathlib.TextEquality.{eq_iff}

pub record Finding : Type 0 where
  pub check : String
  pub file : String
  pub function : String
  pub description : String

-- the key of `seen`
pub record Tuple : Type 0 where
  pub check : String
  pub file : String
  pub function : String

pub record FindingFingerprint : Type 0 where
  pub check : String
  pub file : String
  pub function : String
  pub occurrence : ℕ

pub tuple_beq : Tuple → Tuple → Bool
tuple_beq a b = a.check == b.check && a.file == b.file && a.function == b.function

pub tuple_beq_iff : (a b : Tuple) → (tuple_beq a b ≡ true) ↔ (a ≡ b)
unfolding tuple_beq
tuple_beq_iff a b =
    ground (arith, eq_iff a.check b.check, eq_iff a.file b.file, eq_iff a.function b.function)

instance abbrev pub tuple_eq : Eq Tuple
tuple_eq = record { beq = tuple_beq; beq_iff = tuple_beq_iff }

pub fingerprint_beq : FindingFingerprint → FindingFingerprint → Bool
fingerprint_beq a b =
    a.check == b.check
    && a.file == b.file
    && a.function == b.function
    && a.occurrence == b.occurrence

pub fingerprint_beq_iff : (a b : FindingFingerprint) → (fingerprint_beq a b ≡ true) ↔ (a ≡ b)
unfolding fingerprint_beq
fingerprint_beq_iff a b = ground (
  arith,
  eq_iff a.check b.check,
  eq_iff a.file b.file,
  eq_iff a.function b.function,
  nat_beq_iff a.occurrence b.occurrence,
)

instance abbrev pub fingerprint_eq : Eq FindingFingerprint
fingerprint_eq = record { beq = fingerprint_beq; beq_iff = fingerprint_beq_iff }

pub record Baseline : Type 0 where
  pub counts : List (FindingFingerprint × ℕ)

pub new : Baseline
new = record { counts = [] }

-- `or_insert(0)`
abbrev pub or_zero : Option ℕ → ℕ
or_zero none = 0
or_zero (some n) = n

abbrev pub increment : Option ℕ → ℕ
increment o = or_zero o + 1

pub insert : Baseline → FindingFingerprint → Baseline
insert b fingerprint = record { counts = hash_entry fingerprint increment b.counts }

sum_counts : List (FindingFingerprint × ℕ) → ℕ
sum_counts [] = 0
sum_counts ((k, n) ∷ m) = n + sum_counts m

pub len : Baseline → ℕ
unfolding sum_counts
len b = sum_counts b.counts

pub is_empty_baseline : Baseline → Bool
is_empty_baseline b = is_empty b.counts

abbrev pub tuple : Finding → Tuple
tuple f = record { check = f.check; file = f.file; function = f.function }

abbrev pub fingerprint : Finding → ℕ → FindingFingerprint
fingerprint f n = record { check = f.check; file = f.file; function = f.function; occurrence = n }

fingerprint_from : List (Tuple × ℕ) → List Finding → List FindingFingerprint
fingerprint_from seen [] = []
fingerprint_from seen (f ∷ fs) =
    fingerprint f (or_zero (lookup (tuple f) seen))
    ∷ fingerprint_from (hash_entry (tuple f) increment seen) fs

pub fingerprint_findings : List Finding → List FindingFingerprint
unfolding fingerprint_from
fingerprint_findings = fingerprint_from []

pub record FilterResult : Type 0 where
  pub new_findings : List Finding
  pub hidden_count : ℕ

-- one round: the entry of the fingerprint hides the finding while its count is positive
filter_one :
    Option ℕ
    → FindingFingerprint
    → Finding
    → List (FindingFingerprint × ℕ)
    → FilterResult
    → List (FindingFingerprint × ℕ) × FilterResult
filter_one (some (suc count)) k f remaining r =
    (hash_entry k (λ _. count) remaining, record r { hidden_count = r.hidden_count + 1 })
filter_one _ k f remaining r = (remaining, record r { new_findings = r.new_findings ++ f ∷ [] })

-- the loop over the findings and their fingerprints
filter_from :
    List (FindingFingerprint × ℕ)
    → List Finding
    → List FindingFingerprint
    → FilterResult
    → FilterResult
unfolding filter_one
filter_from remaining (f ∷ fs) (k ∷ ks) r =
    let (remaining', r') = filter_one (lookup k remaining) k f remaining r in
    filter_from remaining' fs ks r'
filter_from remaining _ _ r = r

pub filter_findings : List Finding → Baseline → FilterResult
unfolding filter_from
filter_findings findings baseline =
    filter_from baseline.counts findings (fingerprint_findings findings)
      (record { new_findings = []; hidden_count = 0 })

-- the baseline that records these findings
pub baseline_of : List FindingFingerprint → Baseline → Baseline
unfolding insert
baseline_of [] b = b
baseline_of (k ∷ ks) b = baseline_of ks (insert b k)
