-- ===== src/Checks/Detectors/Overflow.antt =====
-- crates/checks/src/overflow.rs: `unchecked-arithmetic`. Identifiers are texts of ASCII characters. The
-- equality of two expressions, from the crate `syn`, is the parameter `same_expr`.
pub mod Laws
pub mod Words
use Prim.Native.Char.{Char, code}
use Prim.Native.String.{String, [] as no_text, ◌∷◌ as ◌::◌}
use guard_cli.Prelude.{
  ℕ, Bool, true, false, not, ◌&&◌, ◌||◌, Option, none, some, List, [], ◌∷◌, if◌then◌else◌, ◌==◌,
  string_eq, nat_eq, leb, any, contains,
}
use guard_cli.Prelude.Text.{◌<>◌, starts_with, includes}
use guard_cli.Prelude.Lowercase.{lower_char, to_lowercase}
use guard_cli.Checks.Ast.{Items, Method}
use guard_cli.Checks.Finding.{Severity, high, medium, low, Finding}
use guard_cli.Checks.Names
use guard_cli.Checks.Syntax.{
  Expr, path_expr, lit, method_call, field, index, reference, paren, Exprs, no_args, arg, BinOp,
  add, sub, mul, add_assign, sub_assign, mul_assign, Stmts,
}
use guard_cli.Checks.Syntax.Walk.{MethodCall, method_calls, Binary, binaries}
use guard_cli.Checks.Detectors.{docs, over_methods}

abbrev pub index_names : List String
index_names = "idx" ∷ "index" ∷ "count" ∷ "len" ∷ "offset" ∷ "pos" ∷ "step" ∷ []

abbrev pub index_chars : List String
index_chars = "i" ∷ "j" ∷ "k" ∷ "n" ∷ "x" ∷ "y" ∷ "z" ∷ []

abbrev pub financial_names : List String
financial_names =
    "amount" ∷ "balance" ∷ "fee" ∷ "price" ∷ "supply" ∷ "reward" ∷ "stake" ∷ "fund" ∷ "value"
    ∷ "total" ∷ "deposit" ∷ "discount" ∷ []

abbrev pub is_uppercase : ℕ → Bool
is_uppercase c = leb 65 c && leb c 90

abbrev pub is_lower_or_digit : ℕ → Bool
is_lower_or_digit c = (leb 97 c && leb c 122) || (leb 48 c && leb c 57)

abbrev pub push_word : String → List String → List String
push_word word words = if word == "" then words else word ∷ words

abbrev pub ends_word : Char → Bool → Bool
ends_word c prev_lower = code c == b'_' || is_uppercase (code c) && prev_lower

abbrev pub char_text : Char → String
char_text c = if code c == b'_' then no_text else lower_char c :: no_text

-- the loop, with the word under way and whether the last character was lowercase or a digit
unfoldable pub words_from : String → Bool → String → List String
words_from current prev_lower no_text = push_word current []
words_from current prev_lower (c :: s) =
    let cut = ends_word c prev_lower in
    let rest =
      words_from ((if cut then no_text else current) <> char_text c) (is_lower_or_digit (code c))
        s in
    if cut then push_word current rest else rest

unfoldable pub name_words : String → List String
unfolding words_from
name_words name = words_from no_text false name

unfoldable pub severity_for_operand_name : String → Option Severity
unfolding to_lowercase name_words starts_with includes
severity_for_operand_name name =
    let lower = to_lowercase name in
    if any (λ fin. includes lower fin) financial_names
    then some high
    else if any (λ word. any (λ idx. starts_with word idx) index_names) (name_words name)
    then some low
    else if contains index_chars lower
    then some low
    else none

unfoldable pub operand_name : Expr → Option String
operand_name (path_expr line p) = p.get_ident
operand_name (field line base member) = member
operand_name (index line base position) = operand_name base
operand_name (method_call line receiver method args) = some method
operand_name (reference line inner) = operand_name inner
operand_name (paren line inner) = operand_name inner
operand_name _ = none

abbrev pub named_severity : Option String → Option Severity
named_severity none = none
named_severity (some name) = severity_for_operand_name name

abbrev pub first_severity : Option Severity → Option Severity → Severity
first_severity (some sev) right = sev
first_severity none (some sev) = sev
first_severity none none = medium

unfoldable pub infer_severity : Binary → Severity
unfolding operand_name severity_for_operand_name
infer_severity e =
    first_severity (named_severity (operand_name e.left)) (named_severity (operand_name e.right))

unfoldable pub is_literal_expr : Expr → Bool
is_literal_expr (lit line text) = true
is_literal_expr _ = false

abbrev pub unchecked_op : BinOp → Expr → Expr → Bool
unchecked_op add left right = not (is_literal_expr left && is_literal_expr right)
unchecked_op sub left right = not (is_literal_expr left && is_literal_expr right)
unchecked_op mul left right = not (is_literal_expr left && is_literal_expr right)
unchecked_op add_assign left right = not (is_literal_expr right)
unchecked_op sub_assign left right = not (is_literal_expr right)
unchecked_op mul_assign left right = not (is_literal_expr right)
unchecked_op _ left right = false

unfoldable pub is_unchecked_binary : Binary → Bool
unfolding is_literal_expr
is_unchecked_binary e = unchecked_op e.op e.left e.right

abbrev pub op_text : BinOp → String
op_text add = "+"
op_text sub = "-"
op_text mul = "*"
op_text add_assign = "+="
op_text sub_assign = "-="
op_text mul_assign = "*="
op_text _ = "?"

abbrev pub overflow_finding : String → Binary → Finding
overflow_finding fn_name i = record {
  check_name = Names.unchecked_arithmetic;
  severity = infer_severity i;
  file_path = "";
  line = i.line;
  function_name = fn_name;
  description =
      "Expression uses wrapping integer arithmetic (`"
      <> (op_text i.op
          <> ("`) in `"
              <> (fn_name
                  <> "`. For asset amounts and balances prefer `checked_add`, `checked_sub`, `checked_mul`, or `saturating_*` to avoid silent overflow.")));
  rule_url = docs "unchecked-arithmetic-high--medium--low";
  suggestion = some (
      "Replace `"
      <> (op_text i.op
          <> "` with `checked_add`/`checked_sub`/`checked_mul` and handle overflow explicitly, or use `saturating_add`/`saturating_sub` if saturating semantics are acceptable."));
}

abbrev pub is_safe_name : String → Bool
is_safe_name name = starts_with name "checked_" || starts_with name "saturating_"

module _ (same_expr : Expr → Expr → Bool) where
  abbrev pub operands_match : Binary → Expr → Exprs → Bool
  operands_match e recv no_args = false
  operands_match e recv (arg first args) =
      same_expr e.left recv && same_expr e.right first
      || same_expr e.right recv && same_expr e.left first

  -- the test of `SafeArithScan` on one call
  unfoldable pub guards : Binary → MethodCall → Bool
  unfolding starts_with
  guards e i = is_safe_name i.method && operands_match e i.receiver i.args && i.line == e.line

  -- the flag `found` is set once and never cleared
  unfoldable pub safe_visits : Binary → Bool → List MethodCall → Bool
  unfolding guards
  safe_visits e found [] = found
  safe_visits e found (i ∷ is) = safe_visits e (if found then true else guards e i) is

  unfoldable pub uses_safe_arithmetic : Stmts → Binary → Bool
  unfolding safe_visits
  uses_safe_arithmetic block e = safe_visits e false (method_calls block)

  -- What `visit_expr_binary` pushes, in the order of the walk.
  unfoldable pub arith_visits : String → Stmts → List Binary → List Finding
  unfolding is_unchecked_binary uses_safe_arithmetic infer_severity
  arith_visits fn_name block [] = []
  arith_visits fn_name block (i ∷ is) =
      let rest = arith_visits fn_name block is in
      if is_unchecked_binary i && not (uses_safe_arithmetic block i)
      then overflow_finding fn_name i ∷ rest
      else rest

  unfoldable pub run_method : Method → List Finding
  unfolding arith_visits
  run_method method = arith_visits method.ident method.block (binaries method.block)

  unfoldable pub run : Items → List Finding
  unfolding run_method
  run file = over_methods run_method file
