-- ===== src/Analyzer/Dedup/Laws.antt =====
-- What is left of a list of findings, and what is not.
use guard_cli.Prelude.{
  ◌≡◌, refl, ◌↔◌, Bool, true, false, not, ◌&&◌, List, [], ◌∷◌, map, arith, Eq, ◌==◌, nat_eq,
  nat_beq_iff, string_eq, inl, inr, Bool-cases, any, all, retain, distinct, contains, All, All-map,
  All-retain,
}
use guard_cli.Prelude.Sort.{IsSorted}
use guard_cli.Checks.Finding.{Finding, severity_eq, severity_beq_iff}
use guard_cli.Analyzer.Dedup.{
  FindingKey, key, key_beq, seen_key, dedup_from, dedup_findings, Place, place, place_beq,
  divisor_hits, suppress_redundant_division_finding,
}
use text.Mathlib.TextEquality.{eq_iff}

pub key_beq_iff : (a b : FindingKey) → (key_beq a b ≡ true) ↔ (a ≡ b)
unfolding key_beq
key_beq_iff a b = ground (
  arith,
  eq_iff a.file_path b.file_path,
  eq_iff a.check_name b.check_name,
  eq_iff a.function_name b.function_name,
  eq_iff a.description b.description,
  severity_beq_iff a.severity b.severity,
  nat_beq_iff a.line b.line,
)

instance abbrev pub key_eq : Eq FindingKey
key_eq = record { beq = key_beq; beq_iff = key_beq_iff }

abbrev pub keys : List Finding → List FindingKey
keys fs = map key fs

contains-keys-dedup_from :
    (seen : List FindingKey) (fs : List Finding) (k : FindingKey)
    → contains (keys (dedup_from seen fs)) k ≡ (contains (keys fs) k && not (contains seen k))
unfolding dedup_from
contains-keys-dedup_from seen [] k = refl
contains-keys-dedup_from seen (f ∷ fs) k = ground (
  arith,
  contains-keys-dedup_from seen fs k,
  contains-keys-dedup_from (key f ∷ seen) fs k,
  key_beq_iff (key f) k,
)

distinct-keys-dedup_from :
    (seen : List FindingKey) (fs : List Finding) → distinct (keys (dedup_from seen fs)) ≡ true
unfolding dedup_from
distinct-keys-dedup_from seen [] = refl
distinct-keys-dedup_from seen (f ∷ fs) = ground (
  arith,
  distinct-keys-dedup_from seen fs,
  distinct-keys-dedup_from (key f ∷ seen) fs,
  contains-keys-dedup_from (key f ∷ seen) fs (key f),
  key_beq_iff (key f) (key f),
)

-- no key of the list was seen
abbrev unseen : List FindingKey → List Finding → Bool
unseen seen fs = all (λ f. not (contains seen (key f))) fs

unseen-cons :
    (k : FindingKey) (seen : List FindingKey) (fs : List Finding)
    → unseen seen fs ≡ true
    → contains (keys fs) k ≡ false
    → unseen (k ∷ seen) fs ≡ true
unseen-cons k seen [] h n = refl
unseen-cons k seen (f ∷ fs) h n =
    ground (arith, unseen-cons k seen fs, key_beq_iff k (key f), key_beq_iff (key f) k)

dedup_from_of_distinct :
    (seen : List FindingKey) (fs : List Finding)
    → distinct (keys fs) ≡ true
    → unseen seen fs ≡ true
    → dedup_from seen fs ≡ fs
unfolding dedup_from
dedup_from_of_distinct seen [] d h = refl
dedup_from_of_distinct seen (f ∷ fs) d h =
    ground (arith, unseen-cons (key f) seen fs, dedup_from_of_distinct (key f ∷ seen) fs)

unseen-nil : (fs : List Finding) → unseen [] fs ≡ true
unseen-nil [] = refl
unseen-nil (f ∷ fs) = unseen-nil fs

-- No two findings of the result agree in file, line, check, function, description and severity;
-- each such combination of the input is in the result, and no other; and a second pass changes
-- nothing.
pub dedup_findings-distinct :
    (fs : List Finding)
    → (distinct (keys (dedup_findings fs)) ≡ true)
      × ((k : FindingKey) → contains (keys (dedup_findings fs)) k ≡ contains (keys fs) k)
      × (dedup_findings (dedup_findings fs) ≡ dedup_findings fs)
unfolding dedup_findings
dedup_findings-distinct fs = (
  distinct-keys-dedup_from [] fs,
  λ k. ground (arith, contains-keys-dedup_from [] fs k),
  dedup_from_of_distinct [] (dedup_from [] fs) (distinct-keys-dedup_from [] fs)
      (unseen-nil (dedup_from [] fs)),
)

All-dedup_from {κ} :
    (P : Finding → Type κ) (seen : List FindingKey) (fs : List Finding)
    → All P fs
    → All P (dedup_from seen fs)
unfolding dedup_from
All-dedup_from P seen [] h = tt
All-dedup_from P seen (f ∷ fs) (p, h) = elim (Bool-cases (seen_key seen (key f))) [
  | inl old ↦ rw old (All-dedup_from P seen fs h)
  | inr new ↦ rw new (p, All-dedup_from P (key f ∷ seen) fs h)
]

pub All-dedup_findings {κ} :
    (P : Finding → Type κ) (fs : List Finding) → All P fs → All P (dedup_findings fs)
unfolding dedup_findings
All-dedup_findings P = All-dedup_from P []

dedup_from-IsSorted :
    (le : Finding → Finding → Bool) (seen : List FindingKey) (fs : List Finding)
    → IsSorted le fs
    → IsSorted le (dedup_from seen fs)
unfolding dedup_from
dedup_from-IsSorted le seen [] h = tt
dedup_from-IsSorted le seen (f ∷ fs) (b, h) = elim (Bool-cases (seen_key seen (key f))) [
  | inl old ↦ rw old (dedup_from-IsSorted le seen fs h)
  | inr new ↦
      rw new (All-dedup_from _ (key f ∷ seen) fs b, dedup_from-IsSorted le (key f ∷ seen) fs h)
]

-- A sorted list stays sorted.
pub dedup_findings-IsSorted :
    (le : Finding → Finding → Bool) (fs : List Finding)
    → IsSorted le fs
    → IsSorted le (dedup_findings fs)
unfolding dedup_findings
dedup_findings-IsSorted le = dedup_from-IsSorted le []

abbrev pub is_division : Finding → Bool
is_division f = f.check_name == "integer-division-truncation"

-- an `unchecked-divisor` finding stands at the place
abbrev pub has_divisor_at : List Finding → Place → Bool
has_divisor_at fs p = any (λ f. f.check_name == "unchecked-divisor" && place_beq (place f) p) fs

any-divisor_hits :
    (fs : List Finding) (p : Place)
    → any (λ q. place_beq q p) (divisor_hits fs) ≡ has_divisor_at fs p
unfolding divisor_hits
any-divisor_hits [] p = refl
any-divisor_hits (f ∷ fs) p = ground (arith, any-divisor_hits fs p)

retain-retain :
    (p q r : Finding → Bool) (fs : List Finding)
    → ((f : Finding) → (q f && p f) ≡ r f)
    → retain p (retain q fs) ≡ retain r fs
retain-retain p q r [] h = refl
retain-retain p q r (f ∷ fs) h = ground (arith, retain-retain p q r fs h, h f)

-- Of the truncating-division findings exactly those stay that share file, line and function with no
-- unchecked-divisor finding of the list; all other findings stay. Both keep their order.
pub suppress_redundant_division_finding-split :
    (fs : List Finding)
    → (retain is_division (suppress_redundant_division_finding fs)
        ≡ retain (λ f. is_division f && not (has_divisor_at fs (place f))) fs)
      × (retain (λ f. not (is_division f)) (suppress_redundant_division_finding fs)
          ≡ retain (λ f. not (is_division f)) fs)
unfolding suppress_redundant_division_finding
suppress_redundant_division_finding-split fs = (
  retain-retain _ _ _ fs (λ f. ground (arith, any-divisor_hits fs (place f))),
  retain-retain _ _ _ fs (λ f. ground (arith, any-divisor_hits fs (place f))),
)

pub All-suppress_redundant_division_finding {κ} :
    (P : Finding → Type κ) (fs : List Finding)
    → All P fs
    → All P (suppress_redundant_division_finding fs)
unfolding suppress_redundant_division_finding
All-suppress_redundant_division_finding P fs h = All-retain P _ fs (All-map (λ f p _. p) fs h)
