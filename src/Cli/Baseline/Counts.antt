-- ===== src/Cli/Baseline/Counts.antt =====
-- The fingerprints of a list of findings.
use guard_cli.Prelude.{
  ℕ, ◌≤◌, ◌≡◌, refl, ap, ◌∙◌, true, false, List, [], ◌∷◌, map, arith, ◌==◌, All, All-map, distinct,
  contains,
}
use guard_cli.Prelude.Maps.{lookup, hash_entry, lookup-hash_entry}
use guard_cli.Cli.Baseline.{
  Finding, Tuple, FindingFingerprint, tuple, tuple_eq, tuple_beq_iff, fingerprint, fingerprint_eq,
  fingerprint_beq_iff, or_zero, increment, fingerprint_from, fingerprint_findings,
}

-- the tuple that a fingerprint was made from
abbrev pub tuple_of : FindingFingerprint → Tuple
tuple_of k = record { check = k.check; file = k.file; function = k.function }

-- an occurrence not counted yet
abbrev IsLater : List (Tuple × ℕ) → FindingFingerprint → Type 0
IsLater seen k = or_zero (lookup (tuple_of k) seen) ≤ k.occurrence

IsLater-hash_entry :
    (seen : List (Tuple × ℕ)) (t : Tuple) (k : FindingFingerprint)
    → IsLater (hash_entry t increment seen) k
    → IsLater seen k
IsLater-hash_entry seen t k h =
    ground (arith, lookup-hash_entry t (tuple_of k) increment seen, tuple_beq_iff t (tuple_of k))

fingerprint_from-IsLater :
    (seen : List (Tuple × ℕ)) (fs : List Finding) → All (IsLater seen) (fingerprint_from seen fs)
unfolding fingerprint_from
fingerprint_from-IsLater seen [] = tt
fingerprint_from-IsLater seen (f ∷ fs) = (
  omega arith,
  All-map (IsLater-hash_entry seen (tuple f)) _
      (fingerprint_from-IsLater (hash_entry (tuple f) increment seen) fs),
)

IsLater-differs :
    (seen : List (Tuple × ℕ)) (f : Finding) (k : FindingFingerprint)
    → IsLater (hash_entry (tuple f) increment seen) k
    → (k == fingerprint f (or_zero (lookup (tuple f) seen))) ≡ false
IsLater-differs seen f k h = ground (
  arith,
  fingerprint_beq_iff k (fingerprint f (or_zero (lookup (tuple f) seen))),
  lookup-hash_entry (tuple f) (tuple_of k) increment seen,
  tuple_beq_iff (tuple f) (tuple_of k),
)

not-contains :
    (k : FindingFingerprint) (ks : List FindingFingerprint)
    → All (λ j. (j == k) ≡ false) ks
    → contains ks k ≡ false
not-contains k [] h = refl
not-contains k (j ∷ ks) (e, h) = rw e (not-contains k ks h)

distinct-fingerprint_from :
    (seen : List (Tuple × ℕ)) (fs : List Finding) → distinct (fingerprint_from seen fs) ≡ true
unfolding fingerprint_from
distinct-fingerprint_from seen [] = refl
distinct-fingerprint_from seen (f ∷ fs) =
    let rest = fingerprint_from (hash_entry (tuple f) increment seen) fs in
    rw
      (not-contains (fingerprint f (or_zero (lookup (tuple f) seen))) rest (
        All-map (IsLater-differs seen f) rest
          (fingerprint_from-IsLater (hash_entry (tuple f) increment seen) fs)))
      (distinct-fingerprint_from (hash_entry (tuple f) increment seen) fs)

-- a fingerprint from the tuple alone
abbrev from_tuple : Tuple → ℕ → FindingFingerprint
from_tuple t n = record { check = t.check; file = t.file; function = t.function; occurrence = n }

fingerprint_from-eq :
    (seen : List (Tuple × ℕ)) (fs gs : List Finding)
    → map tuple fs ≡ map tuple gs
    → fingerprint_from seen fs ≡ fingerprint_from seen gs
unfolding fingerprint_from
fingerprint_from-eq seen [] [] e = refl
fingerprint_from-eq seen [] (g ∷ gs) e = cc
fingerprint_from-eq seen (f ∷ fs) [] e = cc
fingerprint_from-eq seen (f ∷ fs) (g ∷ gs) e =
    let head : tuple f ≡ tuple g = cc in
    let tail : map tuple fs ≡ map tuple gs = cc in
    ap
      (λ t.
        from_tuple t (or_zero (lookup t seen)) ∷ fingerprint_from (hash_entry t increment seen) fs)
      head
    ∙ ap (◌∷◌ (fingerprint g (or_zero (lookup (tuple g) seen))))
        (fingerprint_from-eq (hash_entry (tuple g) increment seen) fs gs tail)

-- No two findings of a list have one fingerprint, and the fingerprints do not depend on the
-- descriptions: lists that agree in check, file and function have the same fingerprints.
pub fingerprint_findings-distinct :
    (fs : List Finding)
    → (distinct (fingerprint_findings fs) ≡ true)
      × ((gs : List Finding)
          → map tuple fs ≡ map tuple gs
          → fingerprint_findings fs ≡ fingerprint_findings gs)
unfolding fingerprint_findings
fingerprint_findings-distinct fs = (distinct-fingerprint_from [] fs, fingerprint_from-eq [] fs)
