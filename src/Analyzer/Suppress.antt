-- ===== src/Analyzer/Suppress.antt =====
-- Suppression comments: `FnSpan`, `parse_allow_checks`, `parse_suppressions` and `is_suppressed` of
-- crates/analyzer/src/lib.rs. The two `HashSet`s are lists, read by membership only.
pub mod Laws
mod Tests
use guard_cli.Prelude.{
  ℕ, ◌+◌, String, Bool, true, not, ◌&&◌, ◌||◌, Option, none, some, List, [], ◌∷◌, ◌++◌, map,
  if◌then◌else◌, ◌==◌, nat_eq, string_eq, leb, any, find, drop, is_empty, retain,
}
use guard_cli.Prelude.Text.{trim_start, trim, strip_prefix, starts_with, split_once, split, lines}
use guard_cli.Checks.Finding.{Finding}
use guard_cli.Checks.Ast.{Items, Method}
use guard_cli.Checks.Ast.Util.{contractimpl_functions_with_type_excluding_test}

pub record FnSpan : Type 0 where
  pub impl_type : String
  pub function_name : String
  pub start_line : ℕ
  pub end_line : ℕ

fn_span : String × Method → FnSpan
fn_span (impl_type, method) = record {
  impl_type = impl_type;
  function_name = method.ident;
  start_line = method.ident_line;
  end_line = method.block_end_line;
}

unfoldable pub build_fn_spans : Items → List FnSpan
unfolding fn_span contractimpl_functions_with_type_excluding_test
build_fn_spans file = map fn_span (contractimpl_functions_with_type_excluding_test file)

pub record Suppressions : Type 0 where
  pub line_checks : List (ℕ × String)
  pub function_checks : List (String × String × String)

infixl 5 ◌>>=◌
abbrev pub ◌>>=◌ {ℓ κ} : {A : Type ℓ} {B : Type κ} → Option A → (A → Option B) → Option B
none >>= f = none
some a >>= f = f a

-- `split(',').map(trim).filter(non-empty)`
unfoldable pub names_in : String → List String
unfolding split trim
names_in inside = retain (λ name. not (name == "")) (map trim (split b',' inside))

abbrev pub then_some : List String → Option (List String)
then_some checks = if is_empty checks then none else some checks

unfoldable pub parse_allow_checks : String → Option (List String)
unfolding names_in trim_start strip_prefix split_once
parse_allow_checks line = do
  rest ← strip_prefix "//" (trim_start line)
  rest ← strip_prefix "soroban-guard" (trim_start rest)
  rest ← strip_prefix ":" (trim_start rest)
  rest ← strip_prefix "allow(" (trim_start rest)
  (inside, after) ← split_once b')' rest
  then_some (names_in inside)

-- a blank line, a comment or an attribute
unfoldable pub is_skipped : String → Bool
unfolding trim_start starts_with
is_skipped line =
    let t = trim_start line in
    t == "" || starts_with t "//" || starts_with t "#[" || starts_with t "#!["

-- the first index from `i` on, where the lines from `i` on are given
substantive_from : ℕ → List String → Option ℕ
unfolding is_skipped
substantive_from i [] = none
substantive_from i (line ∷ lines) =
    let later = substantive_from (i + 1) lines in if not (is_skipped line) then some i else later

unfoldable pub next_substantive_line : List String → ℕ → Option ℕ
unfolding substantive_from
next_substantive_line lines from = substantive_from from (drop from lines)

-- the entries of a comment above the line `target`, where `span` begins if it is there
insert_at : ℕ → List String → Suppressions → Option FnSpan → Suppressions
insert_at target checks s (some span) = record s {
  function_checks =
      map (λ check. (span.impl_type, span.function_name, check)) checks ++ s.function_checks;
}
insert_at target checks s none = record s {
  line_checks = map (λ check. (target, check)) checks ++ s.line_checks;
}

-- what one suppression comment inserts
unfoldable pub insert_checks : List FnSpan → ℕ → List String → Suppressions → Suppressions
unfolding insert_at
insert_checks fn_spans target checks s =
    insert_at target checks s (find (λ (span : FnSpan). span.start_line == target) fn_spans)

insert_above : List FnSpan → List String → Suppressions → Option ℕ → Suppressions
unfolding insert_checks
insert_above fn_spans checks s none = s
insert_above fn_spans checks s (some target_idx) = insert_checks fn_spans (target_idx + 1) checks s

apply_comment : List String → List FnSpan → ℕ → Suppressions → Option (List String) → Suppressions
unfolding insert_above next_substantive_line
apply_comment lines fn_spans idx s none = s
apply_comment lines fn_spans idx s (some checks) =
    insert_above fn_spans checks s (next_substantive_line lines (idx + 1))

-- one round of the loop
suppress_line : List String → List FnSpan → ℕ → String → Suppressions → Suppressions
unfolding apply_comment parse_allow_checks
suppress_line lines fn_spans idx line s =
    apply_comment lines fn_spans idx s (parse_allow_checks line)

suppress_lines : List String → List FnSpan → ℕ → List String → Suppressions → Suppressions
suppress_lines lines fn_spans idx [] s = s
suppress_lines lines fn_spans idx (line ∷ rest) s =
    suppress_lines lines fn_spans (idx + 1) rest (suppress_line lines fn_spans idx line s)

unfoldable pub parse_suppressions : String → List FnSpan → Suppressions
unfolding suppress_lines suppress_line lines
parse_suppressions source fn_spans =
    let all_lines = lines source in
    suppress_lines all_lines fn_spans 0 all_lines
      (record { line_checks = []; function_checks = [] })

abbrev pub has_line_check : Suppressions → ℕ → String → Bool
has_line_check s line check = any (λ p. p.0 == line && p.1 == check) s.line_checks

abbrev pub has_function_check : Suppressions → String → String → String → Bool
has_function_check s impl_type function check =
    any (λ p. p.0 == impl_type && p.1 == function && p.2 == check) s.function_checks

-- the span holds the finding's line
abbrev pub covers : Finding → FnSpan → Bool
covers finding s = leb s.start_line finding.line && leb finding.line s.end_line

-- `unwrap_or_default` of a field of the span that was found
abbrev pub or_default : (FnSpan → String) → Option FnSpan → String
or_default field none = ""
or_default field (some span) = field span

unfoldable pub enclosing_type : Finding → List FnSpan → String
enclosing_type finding fn_spans =
    or_default (λ s. s.impl_type)
      (find
        (λ s.
          (finding.function_name == "" || s.function_name == finding.function_name)
          && covers finding s)
        fn_spans)

unfoldable pub lookup_fn_name : Finding → List FnSpan → String → String
lookup_fn_name finding fn_spans impl_type =
    if finding.function_name == ""
    then or_default (λ s. s.function_name)
        (find (λ s. s.impl_type == impl_type && covers finding s) fn_spans)
    else finding.function_name

unfoldable pub is_suppressed : Finding → Suppressions → List FnSpan → Bool
unfolding enclosing_type lookup_fn_name
is_suppressed finding suppressions fn_spans =
    if has_line_check suppressions finding.line finding.check_name
    then true
    else let impl_type = enclosing_type finding fn_spans in
      has_function_check suppressions impl_type (lookup_fn_name finding fn_spans impl_type)
        finding.check_name
