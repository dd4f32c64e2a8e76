-- ===== src/Analyzer/Scan/Single.antt =====
-- The errors of `scan_directory_with_checks`.
use guard_cli.Prelude.{
  ℕ, suc, zero, String, ◌≡◌, refl, Bool, true, false, List, [], ◌∷◌, map, Result, ok, err, map_err,
  All, All-map-map, All-of_forall, if◌then◌else◌,
}
use guard_cli.Checks.Finding.{Check}
use guard_cli.Analyzer.Paths.{FilePath}
use guard_cli.Analyzer.Errors.{ScanError, multiple, oks, errs}
use guard_cli.Analyzer.Host.{Host, DirEntry, WalkError}
use guard_cli.Analyzer.Filter.{
  Selection, nothing_selected, canonicalize_root, compile_globs, walk_entries, collect_rust_paths,
  ◌>>=◌,
}
use guard_cli.Analyzer.Scan.{
  run_checks_for_file, scan_one, collect_any, nth_or, scan_directory_with_checks,
}

abbrev pub is_multiple : ScanError → Bool
is_multiple (multiple es) = true
is_multiple _ = false

-- an error, if there is one, is the error of one file
abbrev Single {ℓ} : {A : Type ℓ} → Result A ScanError → Type 0
Single (ok a) = Unit
Single (err e) = is_multiple e ≡ false

Single-bind {ℓ κ} :
    {A : Type ℓ} {B : Type κ} (m : Result A ScanError) (f : A → Result B ScanError)
    → Single m
    → ((a : A) → Single (f a))
    → Single (m >>= f)
Single-bind (ok a) f h k = k a
Single-bind (err e) f h k = h

Single-map_err {ℓ κ} :
    {A : Type ℓ} {E : Type κ} (f : E → ScanError) (r : Result A E)
    → ((e : E) → is_multiple (f e) ≡ false)
    → Single (map_err f r)
Single-map_err f (ok a) h = tt
Single-map_err f (err e) h = h e

module _ (h : Host) where
  canonicalize_root-Single : (root : FilePath) → Single (canonicalize_root h root)
  unfolding canonicalize_root
  canonicalize_root-Single root = Single-map_err _ (h.canonicalize root) (λ e. refl)

  compile_globs-Single : (ps : List String) → Single (compile_globs h ps)
  unfolding compile_globs
  compile_globs-Single [] = tt
  compile_globs-Single (p ∷ ps) =
      Single-bind (map_err _ (h.new_pattern p)) _ (Single-map_err _ (h.new_pattern p) (λ e. refl))
        λ pattern. Single-bind (compile_globs h ps) _ (compile_globs-Single ps) (λ _. tt)

  walk_entries-Single :
      (root : FilePath) (ex inc : List h.Pattern) (entries : List (Result DirEntry WalkError))
      (s : Selection)
      → Single (walk_entries h root ex inc entries s)
  unfolding walk_entries
  walk_entries-Single root ex inc [] s = tt
  walk_entries-Single root ex inc (err e ∷ entries) s = refl
  walk_entries-Single root ex inc (ok entry ∷ entries) s = walk_entries-Single root ex inc entries _

  collect_rust_paths-Single :
      (root : FilePath) (excludes includes : List String)
      → Single (collect_rust_paths h root excludes includes)
  unfolding collect_rust_paths
  collect_rust_paths-Single root excludes includes =
      Single-bind (compile_globs h excludes) _ (compile_globs-Single excludes) λ ex.
        Single-bind (compile_globs h includes) _ (compile_globs-Single includes)
          λ inc. go ex inc (h.is_file root)
    where
      go :
          (ex inc : List h.Pattern) (b : Bool)
          → Single (
              if b
              then ok (record nothing_selected { paths = root ∷ [] })
              else walk_entries h root ex inc (h.walk root) nothing_selected)
      go ex inc true = tt
      go ex inc false = walk_entries-Single root ex inc (h.walk root) nothing_selected

  run_checks_for_file-Single :
      (path root : FilePath) (checks : List (Check h.File))
      → Single (run_checks_for_file h path root checks)
  unfolding run_checks_for_file
  run_checks_for_file-Single path root checks =
      Single-bind (map_err _ (h.read_to_string path)) _
        (Single-map_err _ (h.read_to_string path) (λ e. refl))
        λ content.
          Single-bind (map_err _ (h.parse_file content)) _
            (Single-map_err _ (h.parse_file content) (λ e. refl)) (λ _. tt)

  scan_one-Single :
      (root : FilePath) (checks : List (Check h.File)) (path : FilePath)
      → Single (scan_one h root checks path)
  unfolding scan_one
  scan_one-Single root checks path =
      Single-bind (run_checks_for_file h path root checks) _
        (run_checks_for_file-Single path root checks) (λ _. tt)

abbrev NotMultiple : List ScanError → Type 0
NotMultiple es = All (λ e. is_multiple e ≡ false) es

nth_or-ne-multiple :
    (e : ScanError) (es : List ScanError) (n : ℕ)
    → NotMultiple (e ∷ es)
    → is_multiple (nth_or e es n) ≡ false
nth_or-ne-multiple e [] n (h, hs) = h
nth_or-ne-multiple e (x ∷ xs) zero (h, hs) = h
nth_or-ne-multiple e (x ∷ xs) (suc n) (h, hs) = nth_or-ne-multiple x xs n hs

module _ {ℓ} {A : Type ℓ} where
  errs-NotMultiple : (rs : List (Result A ScanError)) → All Single rs → NotMultiple (errs rs)
  unfolding errs
  errs-NotMultiple [] h = tt
  errs-NotMultiple (ok a ∷ rs) (h, hs) = errs-NotMultiple rs hs
  errs-NotMultiple (err e ∷ rs) (h, hs) = (h, errs-NotMultiple rs hs)

  collect_any-Single :
      (observed : List ScanError → ℕ) (rs : List (Result A ScanError))
      → All Single rs
      → Single (collect_any observed rs)
  unfolding collect_any
  collect_any-Single observed rs h = go (errs rs) (errs-NotMultiple rs h) (observed (errs rs))
    where
      go :
          (es : List ScanError)
          → NotMultiple es
          → (n : ℕ)
          → Single {A = List A} (elim es [ [] ↦ ok (oks rs) | e ∷ es ↦ err (nth_or e es n) ])
      go [] h n = tt
      go (e ∷ es) h n = nth_or-ne-multiple e es n h

scan_directory_with_checks-Single :
    (h : Host) (observed : List ScanError → ℕ) (path : FilePath) (excludes includes : List String)
    (checks : List (Check h.File))
    → Single (scan_directory_with_checks h observed path excludes includes checks)
unfolding scan_directory_with_checks
scan_directory_with_checks-Single h observed path excludes includes checks =
    Single-bind (canonicalize_root h path) _ (canonicalize_root-Single h path) λ root.
      Single-bind (collect_rust_paths h root excludes includes) _
        (collect_rust_paths-Single h root excludes includes)
        λ s.
          Single-bind (collect_any observed (map (scan_one h root checks) s.paths)) _
            (collect_any-Single observed (map (scan_one h root checks) s.paths) (
              All-map-map Single (scan_one h root checks) s.paths (
                All-of_forall (λ path. Single (scan_one h root checks path))
                  (scan_one-Single h root checks) s.paths)))
            (λ _. tt)

-- The scan that the command line runs never returns the error that gathers the errors of several
-- files: however many files cannot be read or parsed, and whichever of their errors is seen, the
-- error is that of one file, of the root, of a pattern or of the walk.
pub scan_directory_with_checks-single :
    (h : Host) (observed : List ScanError → ℕ) (path : FilePath) (excludes includes : List String)
    (checks : List (Check h.File)) {e : ScanError}
    → scan_directory_with_checks h observed path excludes includes checks ≡ err e
    → is_multiple e ≡ false
scan_directory_with_checks-single h observed path excludes includes checks e =
    rw e at (scan_directory_with_checks-Single h observed path excludes includes checks)
