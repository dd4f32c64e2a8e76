-- ===== src/Analyzer/Errors/Laws.antt =====
-- Collecting the results of the files, and the reports of panics.
use mathlib.Core.List.{Perm}
use guard_cli.Prelude.{
  ◌≡◌, ◌≢◌, refl, sym, ap, String, Bool-cases, ◌==◌, false, ◌↔◌, ◌⊎◌, inl, inr, true, List, [], ◌∷◌,
  map, arith, Result, ok, err, string_eq,
}
use guard_cli.Prelude.Text.{str_leb-total, str_leb_trans, str_leb_antisymm}
use guard_cli.Prelude.Sort.{sort, IsSorted, sort-IsSorted, sort-perm}
use guard_cli.Analyzer.Paths.{FilePath, path_leb, component_leb}
use guard_cli.Analyzer.Errors.{
  ScanError, multiple, of_list, to_list, scan_error_path, error_leb, oks, errs,
  collect_scan_results,
}

component_leb-total : (c d : String) → (component_leb c d ≡ true) ⊎ (component_leb d c ≡ true)
unfolding component_leb
component_leb-total c d = ground (arith, str_leb-total c d)

component_leb_trans :
    (c d e : String)
    → component_leb c d ≡ true
    → component_leb d e ≡ true
    → component_leb c e ≡ true
unfolding component_leb
component_leb_trans c d e h k = ground (arith, str_leb_trans c d e)

component_leb_antisymm :
    (c d : String) → component_leb c d ≡ true → component_leb d c ≡ true → c ≡ d
unfolding component_leb
component_leb_antisymm c d h k = ground (arith, str_leb_antisymm c d)

path_leb-total : (p q : FilePath) → (path_leb p q ≡ true) ⊎ (path_leb q p ≡ true)
unfolding path_leb
path_leb-total [] q = inl refl
path_leb-total (c ∷ p) [] = inr refl
path_leb-total (c ∷ p) (d ∷ q) = ground (
  arith,
  path_leb-total p q,
  component_leb-total c d,
  string_eq.beq_iff c d,
  string_eq.beq_iff d c,
)

-- components in order with the first two apart
components-apart :
    (c d e : String)
    → (c == d) ≡ false
    → component_leb c d ≡ true
    → component_leb d e ≡ true
    → (c == e) ≡ false
components-apart c d e other below above = elim (Bool-cases (c == e)) [
  | inl same ↦
      let x : c ≡ e = (string_eq.beq_iff c e).0 same in
      let y : c ≡ d = component_leb_antisymm c d below (rw x above) in
      absurd (ground (arith, other, (string_eq.beq_iff c d).1 y))
  | inr apart ↦ apart
]

path_leb_trans :
    (p q r : FilePath) → path_leb p q ≡ true → path_leb q r ≡ true → path_leb p r ≡ true
unfolding path_leb
path_leb_trans [] q r h k = refl
path_leb_trans (c ∷ p) [] r h k = cc
path_leb_trans (c ∷ p) (d ∷ q) [] h k = cc
path_leb_trans (c ∷ p) (d ∷ q) (e ∷ r) h k = elim (Bool-cases (c == d)) [
  | inl same ↦
      let x : c ≡ d = (string_eq.beq_iff c d).0 same in
      elim (Bool-cases (d == e)) [
        | inl there ↦
            let y : (c == e) ≡ true = rw x there in
            rw y (path_leb_trans p q r (rw same at h) (rw there at k))
        | inr other ↦ let y : (c == e) ≡ false = rw x other in rw y (rw x (rw other at k))
      ]
  | inr other ↦
      let below : component_leb c d ≡ true = rw other at h in
      elim (Bool-cases (d == e)) [
        | inl there ↦
            let x : d ≡ e = (string_eq.beq_iff d e).0 there in
            let y : (c == e) ≡ false = rw (sym x) other in rw y (rw (sym x) below)
        | inr apart ↦
            let above : component_leb d e ≡ true = rw apart at k in
            let y : (c == e) ≡ false = components-apart c d e other below above in
            rw y (component_leb_trans c d e below above)
      ]
]

to_list-of_list : (es : List ScanError) → to_list (of_list es) ≡ es
unfolding to_list of_list
to_list-of_list [] = refl
to_list-of_list (e ∷ es) = ap (◌∷◌ e) (to_list-of_list es)

module _ {ℓ} {A : Type ℓ} where
  errs-nil : (rs : List (Result A ScanError)) → errs rs ≡ [] → rs ≡ map ok (oks rs)
  unfolding errs oks
  errs-nil [] h = refl
  errs-nil (ok a ∷ rs) h = ap (◌∷◌ (ok a)) (errs-nil rs h)
  errs-nil (err e ∷ rs) h = cc

  pub errs-map-ok : (vs : List A) → errs (map ok vs) ≡ []
  unfolding errs
  errs-map-ok [] = refl
  errs-map-ok (a ∷ vs) = errs-map-ok vs

  oks-map-ok : (vs : List A) → oks (map ok vs) ≡ vs
  unfolding oks
  oks-map-ok [] = refl
  oks-map-ok (a ∷ vs) = ap (◌∷◌ a) (oks-map-ok vs)

  -- The values are returned exactly when every file succeeded, in the order of the files.
  pub collect_scan_results-ok :
      (rs : List (Result A ScanError)) (vs : List A)
      → (collect_scan_results rs ≡ ok vs) ↔ (rs ≡ map ok vs)
  unfolding collect_scan_results
  collect_scan_results-ok rs vs = (
    λ h. ground (arith, errs-nil rs),
    λ h. ground (arith, errs-map-ok vs, oks-map-ok vs, ap errs h, ap oks h),
  )

module _ {ℓ} {A : Type ℓ} where
  -- If a file failed, the result is one error that holds the errors of all the files that failed, as
  -- often as they occurred, in the order of their paths.
  pub collect_scan_results-err :
      (rs : List (Result A ScanError)) {e : ScanError}
      → collect_scan_results rs ≡ err e
      → (es : List ScanError) × (e ≡ multiple (of_list es))
        × Perm es (errs rs)
        × IsSorted error_leb es
        × (errs rs ≢ [])
  unfolding collect_scan_results
  collect_scan_results-err rs {e} h = go (errs rs) refl
    where
      go :
          (es : List ScanError)
          → errs rs ≡ es
          → (fs : List ScanError) × (e ≡ multiple (of_list fs))
            × Perm fs (errs rs)
            × IsSorted error_leb fs
            × (errs rs ≢ [])
      go [] q = absurd (ground (arith, q))
      go (x ∷ xs) q = (
        sort error_leb (errs rs),
        ground (arith, q),
        sort-perm error_leb (errs rs),
        sort-IsSorted error_leb (λ a b. path_leb-total (scan_error_path a) (scan_error_path b))
            (λ a b c. path_leb_trans (scan_error_path a) (scan_error_path b) (scan_error_path c))
            (errs rs),
        λ n. cc (q, n),
      )
