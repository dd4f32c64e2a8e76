-- ===== src/Analyzer/Errors/Report.antt =====
-- The report of the panics against the leaves of the errors.
use mathlib.Core.List.{append_assoc, append-nil}
use guard_cli.Prelude.{
  ◌≡◌, refl, sym, ap, ◌∙◌, ◌↔◌, Bool, true, false, List, [], ◌∷◌, ◌++◌, map, arith, Result, ok, err,
}
use guard_cli.Analyzer.Errors.{
  ScanError, ScanErrors, nil, cons, io, scan_root, permission_denied, io_read, parse, check_panic,
  invalid_glob_pattern, traversal, multiple, of_list, CheckPanic, try_from, push_panic, collect,
  collect_all, from_errors,
}

-- The leaves of an error, from left to right.
abbrev mutual
  pub leaves : ScanError → List ScanError
  leaves (multiple es) = leaves_all es
  leaves (io e) = io e ∷ []
  leaves (scan_root p e) = scan_root p e ∷ []
  leaves (permission_denied p) = permission_denied p ∷ []
  leaves (io_read p e) = io_read p e ∷ []
  leaves (parse p m) = parse p m ∷ []
  leaves (check_panic c p m) = check_panic c p m ∷ []
  leaves (invalid_glob_pattern p r) = invalid_glob_pattern p r ∷ []
  leaves (traversal p r) = traversal p r ∷ []

  pub leaves_all : ScanErrors → List ScanError
  leaves_all nil = []
  leaves_all (cons e es) = leaves e ++ leaves_all es

abbrev pub is_panic : ScanError → Bool
is_panic (check_panic c p m) = true
is_panic _ = false

-- the error that a panic was read from
abbrev pub as_error : CheckPanic → ScanError
as_error p = check_panic p.check p.path p.message

convert : List CheckPanic → List ScanError → Result (List CheckPanic) ScanError
convert panics [] = ok panics
convert panics (e ∷ es) = elim (push_panic panics (try_from e)) [
  | ok more ↦ convert more es
  | err other ↦ err other
]

then_convert :
    Result (List CheckPanic) ScanError → List ScanError → Result (List CheckPanic) ScanError
then_convert (ok panics) es = convert panics es
then_convert (err e) es = err e

convert-append :
    (panics : List CheckPanic) (es fs : List ScanError)
    → convert panics (es ++ fs) ≡ then_convert (convert panics es) fs
unfolding convert then_convert push_panic try_from
convert-append panics [] fs = refl
convert-append panics (check_panic c p m ∷ es) fs = convert-append _ es fs
convert-append panics (_ ∷ es) fs = refl

after :
    (r : Result (List CheckPanic) ScanError) (es : ScanErrors)
    → ((panics : List CheckPanic) → collect_all es panics ≡ convert panics (leaves_all es))
    → elim r [ ok more ↦ collect_all es more | err other ↦ err other ]
      ≡ then_convert r (leaves_all es)
unfolding then_convert
after (ok more) es ih = ih more
after (err other) es ih = refl

after-eq :
    (r r' : Result (List CheckPanic) ScanError) (es : ScanErrors)
    → r ≡ r'
    → ((panics : List CheckPanic) → collect_all es panics ≡ convert panics (leaves_all es))
    → elim r [ ok more ↦ collect_all es more | err other ↦ err other ]
      ≡ then_convert r' (leaves_all es)
after-eq r r' es e ih = after r es ih ∙ ap (λ x. then_convert x (leaves_all es)) e

mutual
  unfolding collect convert then_convert push_panic try_from

  collect-convert :
      (e : ScanError) (panics : List CheckPanic) → collect e panics ≡ convert panics (leaves e)
  collect-convert (multiple es) panics = collect_all-convert es panics
  collect-convert (check_panic c p m) panics = refl
  collect-convert _ panics = refl

  collect_all-convert :
      (es : ScanErrors) (panics : List CheckPanic)
      → collect_all es panics ≡ convert panics (leaves_all es)
  collect_all-convert nil panics = refl
  collect_all-convert (cons e es) panics =
      after-eq (collect e panics) (convert panics (leaves e)) es (collect-convert e panics)
        (collect_all-convert es)
      ∙ sym (convert-append panics (leaves e) (leaves_all es))

-- what `convert` returns when it returns
convert-ok :
    (panics : List CheckPanic) (es : List ScanError) {ps : List CheckPanic}
    → convert panics es ≡ ok ps
    → (qs : List CheckPanic) × (ps ≡ panics ++ qs) × (es ≡ map as_error qs)
unfolding convert push_panic try_from
convert-ok panics [] h = ([], ground (arith, append-nil panics), refl)
convert-ok panics (check_panic c p m ∷ es) h =
    let q : CheckPanic = record { check = c; path = p; message = m } in
    let (qs, e₁, e₂) = convert-ok (panics ++ q ∷ []) es h in
    (q ∷ qs, e₁ ∙ append_assoc panics (q ∷ []) qs, ap (◌∷◌ (check_panic c p m)) e₂)
convert-ok panics (_ ∷ es) h = cc

convert-as_error :
    (panics qs : List CheckPanic) → convert panics (map as_error qs) ≡ ok (panics ++ qs)
unfolding convert push_panic try_from
convert-as_error panics [] = ap ok (sym (append-nil panics))
convert-as_error panics (q ∷ qs) =
    convert-as_error (panics ++ q ∷ []) qs ∙ ap ok (append_assoc panics (q ∷ []) qs)

-- A report is built exactly when every leaf of the errors is the panic of a check, and then it holds
-- these panics in their order.
pub from_errors-ok :
    (es : List ScanError) (ps : List CheckPanic)
    → (from_errors es ≡ ok ps) ↔ (leaves_all (of_list es) ≡ map as_error ps)
unfolding from_errors
from_errors-ok es ps = (
  λ h.
      let (qs, e₁, e₂) =
        convert-ok [] (leaves_all (of_list es)) (sym (collect_all-convert (of_list es) []) ∙ h) in
      e₂ ∙ ap (map as_error) (sym e₁),
  λ h. collect_all-convert (of_list es) [] ∙ ap (convert []) h ∙ convert-as_error [] ps,
)

convert-err :
    (panics : List CheckPanic) (es : List ScanError) {e : ScanError}
    → convert panics es ≡ err e
    → (qs : List CheckPanic) × (rest : List ScanError) × (es ≡ map as_error qs ++ e ∷ rest)
      × (is_panic e ≡ false)
unfolding convert push_panic try_from
convert-err panics [] h = cc
convert-err panics (check_panic c p m ∷ es) h =
    let q : CheckPanic = record { check = c; path = p; message = m } in
    let (qs, rest, e₁, e₂) = convert-err (panics ++ q ∷ []) es h in
    (q ∷ qs, rest, ap (◌∷◌ (check_panic c p m)) e₁, e₂)
convert-err panics (x ∷ es) h = ([], es, ground arith, ground arith)

-- If no report is built, the error handed back is the first leaf that is not the panic of a check.
pub from_errors-err :
    (es : List ScanError) {e : ScanError}
    → from_errors es ≡ err e
    → (qs : List CheckPanic) × (rest : List ScanError) × (leaves_all (of_list es)
        ≡ map as_error qs ++ e ∷ rest)
      × (is_panic e ≡ false)
unfolding from_errors
from_errors-err es h =
    convert-err [] (leaves_all (of_list es)) (sym (collect_all-convert (of_list es) []) ∙ h)
