-- ===== src/Cli/Baseline/Laws.antt =====
-- What a baseline hides.
use mathlib.Core.List.{append_assoc, append-nil}
use guard_cli.Prelude.{
  ℕ, suc, ◌+◌, ◌≤◌, ◌<◌, ◌≡◌, refl, ap, ◌∙◌, Bool, true, false, Option, some, List, [], ◌∷◌, ◌++◌,
  arith, ◌==◌, nat_eq, if◌then◌else◌, All, length, distinct, contains, beq_self,
}
use guard_cli.Prelude.Maps.{lookup, hash_entry, lookup-hash_entry}
use guard_cli.Cli.Baseline.{
  Finding, Tuple, tuple, FindingFingerprint, Baseline, FilterResult, tuple_eq, fingerprint_eq,
  fingerprint_beq_iff, or_zero, increment, fingerprint_from, fingerprint_findings, insert,
  baseline_of, filter_one, filter_from, filter_findings, sum_counts, len,
}
use guard_cli.Cli.Baseline.Counts.{fingerprint_findings-distinct}

-- how often a fingerprint was recorded
abbrev pub recorded : List (FindingFingerprint × ℕ) → FindingFingerprint → ℕ
recorded counts k = or_zero (lookup k counts)

-- the findings whose fingerprint was never recorded
abbrev pub unrecorded :
    List (FindingFingerprint × ℕ) → List Finding → List FindingFingerprint → List Finding
unrecorded counts (f ∷ fs) (k ∷ ks) =
    if recorded counts k == 0 then f ∷ unrecorded counts fs ks else unrecorded counts fs ks
unrecorded counts _ _ = []

-- the number of the others
abbrev pub hidden_in : List (FindingFingerprint × ℕ) → List Finding → List FindingFingerprint → ℕ
hidden_in counts (f ∷ fs) (k ∷ ks) =
    (if recorded counts k == 0 then 0 else 1) + hidden_in counts fs ks
hidden_in counts _ _ = 0

-- The entries of these fingerprints are as in the baseline.
abbrev Agree :
    List (FindingFingerprint × ℕ) → List (FindingFingerprint × ℕ) → FindingFingerprint → Type 0
Agree counts remaining k = recorded remaining k ≡ recorded counts k

Agree-hash_entry :
    (counts remaining : List (FindingFingerprint × ℕ)) (k : FindingFingerprint) (n : ℕ)
    (ks : List FindingFingerprint)
    → contains ks k ≡ false
    → All (Agree counts remaining) ks
    → All (Agree counts (hash_entry k (λ _. n) remaining)) ks
Agree-hash_entry counts remaining k n [] c h = tt
Agree-hash_entry counts remaining k n (j ∷ ks) c (e, h) = (
  ground (
    arith,
    lookup-hash_entry k j (λ _. n) remaining,
    fingerprint_beq_iff j k,
    fingerprint_beq_iff k j,
  ),
  Agree-hash_entry counts remaining k n ks (ground arith) h,
)

-- what the loop adds to a result
abbrev added :
    List (FindingFingerprint × ℕ)
    → List Finding
    → List FindingFingerprint
    → FilterResult
    → FilterResult
added counts fs ks r = record {
  new_findings = r.new_findings ++ unrecorded counts fs ks;
  hidden_count = r.hidden_count + hidden_in counts fs ks;
}

module _ (counts remaining : List (FindingFingerprint × ℕ)) (f : Finding) (fs : List Finding)
    (k : FindingFingerprint) (ks : List FindingFingerprint) (once : contains ks k ≡ false)
    (agree : All (Agree counts remaining) ks)
    (ih : (rem : List (FindingFingerprint × ℕ)) (r : FilterResult)
      → All (Agree counts rem) ks
      → filter_from rem fs ks r ≡ added counts fs ks r) where
  filter_one_lem :
      (o : Option ℕ) (r : FilterResult)
      → or_zero o ≡ recorded counts k
      → filter_from (filter_one o k f remaining r).0 fs ks (filter_one o k f remaining r).1
        ≡ added counts (f ∷ fs) (k ∷ ks) r
  unfolding filter_one
  filter_one_lem (some (suc n)) r z = ground (
    arith,
    ih (hash_entry k (λ _. n) remaining) (record r { hidden_count = r.hidden_count + 1 }),
    Agree-hash_entry counts remaining k n ks once agree,
  )
  filter_one_lem _ r z = ground (
    arith,
    ih remaining (record r { new_findings = r.new_findings ++ f ∷ [] }),
    agree,
    append_assoc r.new_findings (f ∷ []) (unrecorded counts fs ks),
  )

filter_from_lem :
    (counts : List (FindingFingerprint × ℕ)) (fs : List Finding) (ks : List FindingFingerprint)
    (remaining : List (FindingFingerprint × ℕ)) (r : FilterResult)
    → distinct ks ≡ true
    → All (Agree counts remaining) ks
    → filter_from remaining fs ks r ≡ added counts fs ks r
unfolding filter_from
filter_from_lem counts [] ks remaining r d h = ground (arith, append-nil r.new_findings)
filter_from_lem counts (f ∷ fs) [] remaining r d h = ground (arith, append-nil r.new_findings)
filter_from_lem counts (f ∷ fs) (k ∷ ks) remaining r d (e, h) =
    let later : distinct ks ≡ true = ground arith in
    filter_one_lem counts remaining f fs k ks (ground arith) h
      (λ rem s a. filter_from_lem counts fs ks rem s later a) (lookup k remaining) r e

Agree-refl :
    (counts : List (FindingFingerprint × ℕ)) (ks : List FindingFingerprint)
    → All (Agree counts counts) ks
Agree-refl counts [] = tt
Agree-refl counts (k ∷ ks) = (refl, Agree-refl counts ks)

length-unrecorded :
    (counts : List (FindingFingerprint × ℕ)) (fs : List Finding) (ks : List FindingFingerprint)
    → length ks ≡ length fs
    → hidden_in counts fs ks + length (unrecorded counts fs ks) ≡ length fs
length-unrecorded counts [] ks e = omega arith
length-unrecorded counts (f ∷ fs) [] e = absurd (omega arith)
length-unrecorded counts (f ∷ fs) (k ∷ ks) e = ground (arith, length-unrecorded counts fs ks)

length-fingerprint_findings : (fs : List Finding) → length (fingerprint_findings fs) ≡ length fs
unfolding fingerprint_findings
length-fingerprint_findings fs = go fs []
  where
    go :
        (fs : List Finding) (seen : List (Tuple × ℕ))
        → length (fingerprint_from seen fs) ≡ length fs
    go [] seen = refl
    go (f ∷ fs) seen = ap suc (go fs (hash_entry (tuple f) increment seen))

-- Exactly those findings are reported, in their order, whose fingerprint the baseline never
-- recorded, and the reported and the hidden findings are together as many as the findings.
pub filter_findings-unrecorded :
    (fs : List Finding) (b : Baseline)
    → ((filter_findings fs b).new_findings ≡ unrecorded b.counts fs (fingerprint_findings fs))
      × ((filter_findings fs b).hidden_count + length (filter_findings fs b).new_findings
          ≡ length fs)
unfolding filter_findings
filter_findings-unrecorded fs b =
    let ks = fingerprint_findings fs in
    let e =
      filter_from_lem b.counts fs ks b.counts (record { new_findings = []; hidden_count = 0 })
        (fingerprint_findings-distinct fs).0 (Agree-refl b.counts ks) in
    (
      ap (λ (r : FilterResult). r.new_findings) e,
      omega (
        arith,
        ap (λ (r : FilterResult). r.hidden_count) e,
        ap (λ (r : FilterResult). length r.new_findings) e,
        length-unrecorded b.counts fs ks (length-fingerprint_findings fs),
      ),
    )

recorded-insert :
    (b : Baseline) (k j : FindingFingerprint)
    → recorded (insert b k).counts j ≡ recorded b.counts j + (if k == j then 1 else 0)
unfolding insert
recorded-insert b k j =
    ground (arith, lookup-hash_entry k j increment b.counts, fingerprint_beq_iff k j)

recorded-baseline_of :
    (ks : List FindingFingerprint) (b : Baseline) (j : FindingFingerprint)
    → recorded b.counts j ≤ recorded (baseline_of ks b).counts j
unfolding baseline_of
recorded-baseline_of [] b j = omega arith
recorded-baseline_of (k ∷ ks) b j =
    omega (arith, recorded-baseline_of ks (insert b k) j, recorded-insert b k j)

recorded-own :
    (ks : List FindingFingerprint) (b : Baseline)
    → All (λ k. 0 < recorded (baseline_of ks b).counts k) ks
unfolding baseline_of
recorded-own [] b = tt
recorded-own (k ∷ ks) b = (
  omega (
    arith,
    recorded-baseline_of ks (insert b k) k,
    recorded-insert b k k,
    ap {B = ℕ} (λ (t : Bool). if t then 1 else 0) (beq_self k),
  ),
  recorded-own ks (insert b k),
)

unrecorded-nil :
    (counts : List (FindingFingerprint × ℕ)) (fs : List Finding) (ks : List FindingFingerprint)
    → All (λ k. 0 < recorded counts k) ks
    → unrecorded counts fs ks ≡ []
unrecorded-nil counts [] ks h = refl
unrecorded-nil counts (f ∷ fs) [] h = refl
unrecorded-nil counts (f ∷ fs) (k ∷ ks) (p, h) = ground (arith, unrecorded-nil counts fs ks h)

-- A baseline that recorded the findings of a scan, on top of whatever it held, hides all of them.
pub filter_findings-baseline_of :
    (fs : List Finding) (b : Baseline)
    → ((filter_findings fs (baseline_of (fingerprint_findings fs) b)).new_findings ≡ [])
      × ((filter_findings fs (baseline_of (fingerprint_findings fs) b)).hidden_count ≡ length fs)
filter_findings-baseline_of fs b =
    let ks = fingerprint_findings fs in
    let own = baseline_of ks b in
    let (e, n) = filter_findings-unrecorded fs own in
    let none_new : (filter_findings fs own).new_findings ≡ [] =
      e ∙ unrecorded-nil own.counts fs ks (recorded-own ks b) in
    (none_new, omega (arith, n, ap length none_new))

sum_counts-hash_entry :
    (k : FindingFingerprint) (m : List (FindingFingerprint × ℕ))
    → sum_counts (hash_entry k increment m) ≡ suc (sum_counts m)
unfolding sum_counts hash_entry
sum_counts-hash_entry k [] = refl
sum_counts-hash_entry k ((j, n) ∷ m) = ground (arith, sum_counts-hash_entry k m)

-- `len` counts the insertions.
pub len-baseline_of :
    (ks : List FindingFingerprint) (b : Baseline) → len (baseline_of ks b) ≡ length ks + len b
unfolding baseline_of len insert
len-baseline_of [] b = omega arith
len-baseline_of (k ∷ ks) b =
    omega (arith, len-baseline_of ks (insert b k), sum_counts-hash_entry k b.counts)
