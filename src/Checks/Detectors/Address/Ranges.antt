-- ===== src/Checks/Detectors/Address/Ranges.antt =====
-- The line ranges of crates/checks/src/hardcoded_address.rs: test-only code and methods.
use guard_cli.Prelude.{
  ℕ, String, Bool, ◌&&◌, ◌||◌, List, [], ◌∷◌, ◌++◌, map, if◌then◌else◌, leb, any,
}
use guard_cli.Checks.Ast.{
  Attribute, Span, Method, Item, Items, mod_inline, mod_file, impl_block, struct_item, attributed,
  other_item, nil, cons,
}
use guard_cli.Checks.Ast.Util.{
  is_ident, is_cfg_test, is_test_mod, contractimpl_functions_excluding_test,
}

-- the first of the triples whose range holds the line, or "module"
unfoldable pub enclosing_function : List (ℕ × ℕ × String) → ℕ → String
enclosing_function [] line = "module"
enclosing_function ((start, end, name) ∷ spans) line =
    let rest = enclosing_function spans line in
    if leb start line && leb line end then name else rest

abbrev pub line_range : Span → ℕ × ℕ
line_range span = (span.start_line, span.end_line)

unfoldable pub is_test_item : List Attribute → Bool
unfolding is_cfg_test
is_test_item attrs = is_cfg_test attrs || any (λ a. is_ident a.path "test") attrs

abbrev pub range_if : Bool → Span → List (ℕ × ℕ)
range_if test span = if test then line_range span ∷ [] else []

-- what `collect_test_ranges` pushes, in order
unfoldable mutual
  unfolding is_test_item is_test_mod

  pub ranges_of_item : Item → List (ℕ × ℕ)
  ranges_of_item (mod_inline span attrs ident nested) =
      if is_test_mod attrs ident then line_range span ∷ [] else collect_test_ranges nested
  ranges_of_item (mod_file span attrs ident) = range_if (is_test_mod attrs ident) span
  ranges_of_item (impl_block block) = range_if (is_test_item block.attrs) block.span
  ranges_of_item (struct_item span attrs ident) = range_if (is_test_item attrs) span
  ranges_of_item (attributed span attrs) = range_if (is_test_item attrs) span
  ranges_of_item other_item = []

  pub collect_test_ranges : Items → List (ℕ × ℕ)
  collect_test_ranges nil = []
  collect_test_ranges (cons item items) = ranges_of_item item ++ collect_test_ranges items

unfoldable pub test_only_line_ranges : Items → List (ℕ × ℕ)
unfolding collect_test_ranges
test_only_line_ranges = collect_test_ranges

unfoldable pub in_any_range : List (ℕ × ℕ) → ℕ → Bool
in_any_range ranges line = any (λ r. leb r.0 line && leb line r.1) ranges

unfoldable pub function_spans : Items → List (ℕ × ℕ × String)
unfolding contractimpl_functions_excluding_test
function_spans file =
    map (λ (m : Method). (m.span.start_line, m.span.end_line, m.ident))
      (contractimpl_functions_excluding_test file)
