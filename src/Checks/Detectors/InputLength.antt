-- ===== src/Checks/Detectors/InputLength.antt =====
-- crates/checks/src/missing_input_length_bound.rs: `missing-input-length-bound`.
pub mod Laws
use guard_cli.Prelude.{
  ℕ, String, ◌≡◌, refl, ap, Bool, true, false, not, ◌&&◌, ◌||◌, Option, none, some, List, [], ◌∷◌,
  ◌++◌, map, if◌then◌else◌, ◌==◌, string_eq, contains, any, retain, arith, Bool-cases, inl, inr,
}
use guard_cli.Prelude.Text.{◌<>◌}
use guard_cli.Checks.Ast.{Items, Method}
use guard_cli.Checks.Finding.{medium, Finding}
use guard_cli.Checks.Names
use guard_cli.Checks.Syntax.{
  SynPath, SynType, path_type, reference_type, paren_type, other_type, Pat, ident_pat, FnArg,
  receiver_arg, typed_arg, Expr, path_expr, Exprs, no_args, Stmts,
}
use guard_cli.Checks.Syntax.Walk.{MethodCall, method_calls}
use guard_cli.Checks.Syntax.Util.{path_is}
use guard_cli.Checks.Ast.Util.{last_segment}
use guard_cli.Checks.Detectors.{docs, over_methods}

-- the name of a collection whose length is known at run time only
abbrev pub collection_name : Option String → Option String
collection_name none = none
collection_name (some s) =
    if s == "Bytes" then some "Bytes" else if s == "Vec" then some "Vec" else none

-- `unwrap_type` peels references and parentheses off.
unfoldable pub unbounded_collection_type_name : SynType → Option String
unfolding last_segment
unbounded_collection_type_name (path_type p) = collection_name (last_segment p.segments)
unbounded_collection_type_name (reference_type ty) = unbounded_collection_type_name ty
unbounded_collection_type_name (paren_type ty) = unbounded_collection_type_name ty
unbounded_collection_type_name other_type = none

abbrev pub param_of : String → Option String → List (String × String)
param_of name none = []
param_of name (some ty_name) = (name, ty_name) ∷ []

unfoldable pub find_bytes_vec_params : List FnArg → List (String × String)
unfolding unbounded_collection_type_name
find_bytes_vec_params [] = []
find_bytes_vec_params (typed_arg (ident_pat name) ty ∷ inputs) =
    param_of name (unbounded_collection_type_name ty) ++ find_bytes_vec_params inputs
find_bytes_vec_params (_ ∷ inputs) = find_bytes_vec_params inputs

abbrev pub is_no_args : Exprs → Bool
is_no_args no_args = true
is_no_args _ = false

abbrev pub is_param : Expr → String → Bool
is_param (path_expr line p) param_name = path_is p param_name
is_param _ param_name = false

-- the test of `LengthCheckVisitor` on one call
unfoldable pub checks_length : String → MethodCall → Bool
checks_length param_name m =
    contains ("len" ∷ "is_empty" ∷ []) m.method
    && is_no_args m.args
    && is_param m.receiver param_name

-- Once the flag is set it stays set, whether the nodes behind are visited or not.
unfoldable pub length_visits : String → Bool → List MethodCall → Bool
unfolding checks_length
length_visits param_name found [] = found
length_visits param_name found (m ∷ ms) =
    length_visits param_name (if checks_length param_name m then true else found) ms

unfoldable pub has_length_check : Stmts → String → Bool
unfolding length_visits
has_length_check block param_name = length_visits param_name false (method_calls block)

abbrev pub length_finding : Method → String → Finding
length_finding method param_name = record {
  check_name = Names.missing_input_length_bound;
  severity = medium;
  file_path = "";
  line = method.fn_line;
  function_name = method.ident;
  description = "Parameter `" <> (param_name <> "` (Bytes/Vec) lacks length validation");
  rule_url = docs "missing-input-length-bound-medium";
  suggestion = some "Validate parameter length with .len() or .is_empty()";
}

-- the loop over the parameters
unfoldable pub param_findings : Method → List (String × String) → List Finding
param_findings method [] = []
param_findings method ((param_name, ty_name) ∷ params) =
    let rest = param_findings method params in
    if not (has_length_check method.block param_name)
    then length_finding method param_name ∷ rest
    else rest

unfoldable pub run_method : Method → List Finding
unfolding find_bytes_vec_params param_findings
run_method method =
    if method.is_public then param_findings method (find_bytes_vec_params method.inputs) else []

unfoldable pub run : Items → List Finding
unfolding run_method
run file = over_methods run_method file
