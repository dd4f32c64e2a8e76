-- ===== src/Checks/Detectors/Ttl.antt =====
-- crates/checks/src/ttl.rs: `missing-ttl-extension`. The text of an expression's tokens, from the crate
-- `quote`, is the parameter `tokens`.
pub mod Laws
use guard_cli.Prelude.{
  ℕ, String, Bool, true, false, not, ◌&&◌, Option, none, some, List, [], ◌∷◌, ◌++◌, map, flat,
  if◌then◌else◌, ◌==◌, string_eq, contains,
}
use guard_cli.Prelude.Decimal.{decimal}
use guard_cli.Prelude.Text.{◌<>◌}
use guard_cli.Checks.Ast.{Items, Method}
use guard_cli.Checks.Finding.{low, Finding}
use guard_cli.Checks.Names
use guard_cli.Checks.Syntax.{Expr, Exprs, reference, no_args, arg, Stmts}
use guard_cli.Checks.Syntax.Walk.{MethodCall, method_calls}
use guard_cli.Checks.Syntax.Util.{
  receiver_chain_contains_storage, receiver_chain_contains_persistent,
}
use guard_cli.Checks.Detectors.{docs, over_methods}

unfoldable pub is_persistent_chain : MethodCall → Bool
unfolding receiver_chain_contains_storage receiver_chain_contains_persistent
is_persistent_chain m =
    receiver_chain_contains_storage m.receiver && receiver_chain_contains_persistent m.receiver

unfoldable pub is_persistent_mutation : MethodCall → Bool
unfolding is_persistent_chain
is_persistent_mutation m =
    contains ("set" ∷ "remove" ∷ "append" ∷ []) m.method && is_persistent_chain m

unfoldable pub is_persistent_extend_ttl : MethodCall → Bool
unfolding is_persistent_chain
is_persistent_extend_ttl m = contains ("extend_ttl" ∷ "bump" ∷ []) m.method && is_persistent_chain m

abbrev pub strip_reference : Expr → Expr
strip_reference (reference line inner) = inner
strip_reference other = other

abbrev pub non_empty : String → Option String
non_empty s = if s == "" then none else some s

pub record TtlVisitor : Type 0 where
  pub mutations : List (String × ℕ)
  pub extended_keys : List String

module _ (tokens : Expr → String) where
  unfoldable pub key_repr : Expr → Option String
  key_repr expr = non_empty (tokens (strip_reference expr))

  -- the entry of a mutation whose first argument has this representation
  abbrev pub mutation_entry : ℕ → Option String → String × ℕ
  mutation_entry line (some repr) = (repr, line)
  mutation_entry line none = ("__unknown_" <> decimal line, line)

  abbrev pub entry_of : ℕ → Exprs → List (String × ℕ)
  entry_of line no_args = []
  entry_of line (arg first_arg args) = mutation_entry line (key_repr first_arg) ∷ []

  abbrev pub repr_list : Option String → List String
  repr_list none = []
  repr_list (some repr) = repr ∷ []

  abbrev pub key_of : Exprs → List String
  key_of no_args = []
  key_of (arg first_arg args) = repr_list (key_repr first_arg)

  -- `visit_expr_method_call`, in front of the default walk
  unfoldable pub on_call : TtlVisitor → MethodCall → TtlVisitor
  unfolding is_persistent_mutation is_persistent_extend_ttl key_repr
  on_call s m =
      if is_persistent_mutation m
      then record s { mutations = s.mutations ++ entry_of m.line m.args }
      else if is_persistent_extend_ttl m
      then record s { extended_keys = s.extended_keys ++ key_of m.args }
      else s

  unfoldable pub ttl_visits : TtlVisitor → List MethodCall → TtlVisitor
  unfolding on_call
  ttl_visits s [] = s
  ttl_visits s (m ∷ ms) = ttl_visits (on_call s m) ms

  abbrev pub ttl_finding : String → ℕ → Finding
  ttl_finding fn_name line = record {
    check_name = Names.missing_ttl_extension;
    severity = low;
    file_path = "";
    line = line;
    function_name = fn_name;
    description =
        "Method `"
        <> (fn_name
            <> "` writes to **persistent** storage but never calls `extend_ttl` on it in the same function. Without a TTL extension the entry can expire and be archived off the ledger.");
    rule_url = docs "missing-ttl-extension-low";
    suggestion =
        some
          "Call `env.storage().persistent().extend_ttl(&key, threshold, extend_to)` after the write.";
  }

  -- the loop over the mutations
  unfoldable pub report : String → List String → List (String × ℕ) → List Finding
  report fn_name extended_keys [] = []
  report fn_name extended_keys ((key_repr, line) ∷ mutations) =
      let rest = report fn_name extended_keys mutations in
      if contains extended_keys key_repr then rest else ttl_finding fn_name line ∷ rest

  unfoldable pub run_method : Method → List Finding
  unfolding ttl_visits report
  run_method method =
      let v =
        ttl_visits (record { mutations = []; extended_keys = [] }) (method_calls method.block) in
      report method.ident v.extended_keys v.mutations

  unfoldable pub run : Items → List Finding
  unfolding run_method
  run file = over_methods run_method file
