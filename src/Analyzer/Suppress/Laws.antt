-- ===== src/Analyzer/Suppress/Laws.antt =====
-- What a suppression comment can hide.
use guard_cli.Prelude.{
  ℕ, ◌+◌, String, ◌≡◌, refl, sym, ◌∙◌, Bool, true, false, ◌&&◌, ◌||◌, Option, none, some, List, [],
  ◌∷◌, map, arith, ◌==◌, nat_eq, string_eq, any, find, contains, any-append, inl, inr, Bool-cases,
}
use guard_cli.Prelude.Text.{lines}
use guard_cli.Checks.Finding.{Finding}
use guard_cli.Analyzer.Suppress.{
  FnSpan, Suppressions, parse_allow_checks, next_substantive_line, insert_at, insert_checks,
  insert_above, apply_comment, suppress_line, suppress_lines, parse_suppressions, has_line_check,
  is_suppressed, enclosing_type, lookup_fn_name,
}

abbrev pub holds : String → Option (List String) → Bool
holds check none = false
holds check (some checks) = contains checks check

-- the line is a suppression comment with the check in its list
abbrev pub allows : String → String → Bool
allows check line = holds check (parse_allow_checks line)

-- an entry for the check
abbrev entered : String → Suppressions → Bool
entered check s = any (λ p. p.1 == check) s.line_checks || any (λ p. p.2 == check) s.function_checks

any-line :
    (es : List (ℕ × String)) (line : ℕ) (check : String)
    → any (λ p. p.0 == line && p.1 == check) es ≡ true
    → any (λ p. p.1 == check) es ≡ true
any-line [] line check h = h
any-line (e ∷ es) line check h = ground (arith, any-line es line check, h)

any-function :
    (es : List (String × String × String)) (t f check : String)
    → any (λ p. p.0 == t && p.1 == f && p.2 == check) es ≡ true
    → any (λ p. p.2 == check) es ≡ true
any-function [] t f check h = h
any-function (e ∷ es) t f check h = ground (arith, any-function es t f check, h)

entered_of_is_suppressed :
    (f : Finding) (s : Suppressions) (spans : List FnSpan)
    → is_suppressed f s spans ≡ true
    → entered f.check_name s ≡ true
unfolding is_suppressed
entered_of_is_suppressed f s spans h = elim (Bool-cases (has_line_check s f.line f.check_name)) [
  | inl line ↦ ground (arith, any-line s.line_checks f.line f.check_name line)
  | inr other ↦ ground (
    arith,
    other,
    any-function s.function_checks (enclosing_type f spans)
        (lookup_fn_name f spans (enclosing_type f spans)) f.check_name,
  )
]

any-map_line :
    (checks : List String) (line : ℕ) (check : String)
    → any (λ (p : ℕ × String). p.1 == check) (map (λ c. (line, c)) checks) ≡ contains checks check
any-map_line [] line check = refl
any-map_line (c ∷ cs) line check = ground (arith, any-map_line cs line check)

any-map_function :
    (checks : List String) (t f check : String)
    → any (λ (p : String × String × String). p.2 == check) (map (λ c. (t, f, c)) checks)
      ≡ contains checks check
any-map_function [] t f check = refl
any-map_function (c ∷ cs) t f check = ground (arith, any-map_function cs t f check)

entered-insert_at :
    (target : ℕ) (checks : List String) (s : Suppressions) (o : Option FnSpan) (check : String)
    → entered check (insert_at target checks s o) ≡ (contains checks check || entered check s)
unfolding insert_at
entered-insert_at target checks s none check = ground (
  arith,
  any-append {A = ℕ × String} (λ p. p.1 == check) (map (λ c. (target, c)) checks) s.line_checks,
  any-map_line checks target check,
)
entered-insert_at target checks s (some span) check = ground (
  arith,
  any-append {A = String × String × String} (λ p. p.2 == check)
      (map (λ c. (span.impl_type, span.function_name, c)) checks) s.function_checks,
  any-map_function checks span.impl_type span.function_name check,
)

entered-insert_above :
    (spans : List FnSpan) (checks : List String) (s : Suppressions) (o : Option ℕ) (check : String)
    → entered check (insert_above spans checks s o) ≡ true
    → (contains checks check || entered check s) ≡ true
unfolding insert_above insert_checks
entered-insert_above spans checks s none check h = ground (arith, h)
entered-insert_above spans checks s (some t) check h =
    sym (
      entered-insert_at (t + 1) checks s (find (λ (span : FnSpan). span.start_line == t + 1) spans)
        check)
    ∙ h

entered-apply_comment :
    (ls : List String) (spans : List FnSpan) (idx : ℕ) (s : Suppressions) (o : Option (List String))
    (check : String)
    → entered check (apply_comment ls spans idx s o) ≡ true
    → (holds check o || entered check s) ≡ true
unfolding apply_comment
entered-apply_comment ls spans idx s none check h = h
entered-apply_comment ls spans idx s (some checks) check h =
    entered-insert_above spans checks s (next_substantive_line ls (idx + 1)) check h

entered-suppress_line :
    (ls : List String) (spans : List FnSpan) (idx : ℕ) (line : String) (s : Suppressions)
    (check : String)
    → entered check (suppress_line ls spans idx line s) ≡ true
    → (allows check line || entered check s) ≡ true
unfolding suppress_line
entered-suppress_line ls spans idx line s check h =
    entered-apply_comment ls spans idx s (parse_allow_checks line) check h

entered-suppress_lines :
    (rest : List String) (ls : List String) (spans : List FnSpan) (idx : ℕ) (s : Suppressions)
    (check : String)
    → entered check (suppress_lines ls spans idx rest s) ≡ true
    → (any (allows check) rest || entered check s) ≡ true
unfolding suppress_lines
entered-suppress_lines [] ls spans idx s check h = h
entered-suppress_lines (line ∷ rest) ls spans idx s check h = ground (
  arith,
  entered-suppress_lines rest ls spans (idx + 1) (suppress_line ls spans idx line s) check h,
  entered-suppress_line ls spans idx line s check,
)

-- A finding of a file is suppressed only if some line of the file is a suppression comment that names
-- the check of the finding.
pub is_suppressed-allows :
    (source : String) (spans : List FnSpan) (f : Finding)
    → is_suppressed f (parse_suppressions source spans) spans ≡ true
    → any (allows f.check_name) (lines source) ≡ true
unfolding parse_suppressions
is_suppressed-allows source spans f h = ground (
  arith,
  entered-suppress_lines (lines source) (lines source) spans 0
      (record { line_checks = []; function_checks = [] }) f.check_name
      (entered_of_is_suppressed f (parse_suppressions source spans) spans h),
)
