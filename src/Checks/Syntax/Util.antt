-- ===== src/Checks/Syntax/Util.antt =====
-- The helpers of crates/checks/src/util.rs on signatures, receivers and patterns.
use guard_cli.Prelude.{
  ℕ, String, Bool, true, false, ◌&&◌, ◌||◌, Option, none, some, List, [], ◌∷◌, if◌then◌else◌, ◌==◌,
  string_eq, any, contains,
}
use guard_cli.Prelude.Text.{includes}
use guard_cli.Prelude.Lowercase.{to_lowercase}
use guard_cli.Checks.Syntax.{
  SynPath, SynType, path_type, Pat, ident_pat, typed_pat, other_pat, FnArg, receiver_arg, typed_arg,
  Expr, path_expr, method_call, field,
}
use guard_cli.Checks.Syntax.Walk.{MethodCall}

-- `segments.last().is_some_and(|s| s.ident == name)`
abbrev pub last_is : String → List String → Bool
last_is name [] = false
last_is name (s ∷ []) = s == name
last_is name (s ∷ t ∷ rest) = last_is name (t ∷ rest)

abbrev pub path_is : SynPath → String → Bool
path_is p name = elim p.get_ident [ none ↦ false | some i ↦ i == name ]

unfoldable pub receiver_chain_contains : Expr → String → Bool
receiver_chain_contains (method_call line receiver m args) method =
    m == method || receiver_chain_contains receiver method
receiver_chain_contains (field line base member) method = receiver_chain_contains base method
receiver_chain_contains _ method = false

unfoldable pub receiver_chain_contains_storage : Expr → Bool
unfolding receiver_chain_contains
receiver_chain_contains_storage expr = receiver_chain_contains expr "storage"

unfoldable pub receiver_chain_contains_events : Expr → Bool
unfolding receiver_chain_contains
receiver_chain_contains_events expr = receiver_chain_contains expr "events"

unfoldable pub receiver_chain_contains_temporary : Expr → Bool
unfolding receiver_chain_contains
receiver_chain_contains_temporary expr = receiver_chain_contains expr "temporary"

unfoldable pub receiver_chain_contains_persistent : Expr → Bool
unfolding receiver_chain_contains
receiver_chain_contains_persistent expr = receiver_chain_contains expr "persistent"

unfoldable pub is_storage_mutation_call : MethodCall → Bool
unfolding receiver_chain_contains_storage
is_storage_mutation_call m =
    contains ("set" ∷ "remove" ∷ "append" ∷ []) m.method
    && receiver_chain_contains_storage m.receiver

unfoldable pub is_invoke_contract_method_name : String → Bool
is_invoke_contract_method_name name =
    contains ("invoke_contract" ∷ "invoke_contract_check" ∷ "try_invoke_contract" ∷ []) name

-- a bare path: `is_ident` of the names, or a local
abbrev pub path_is_gate : SynPath → String → List String → List String → Bool
path_is_gate p env_name address_names address_locals =
    path_is p env_name
    || any (λ a. path_is p a) address_names
    || (elim p.get_ident [ none ↦ false | some i ↦ contains address_locals i ])

unfoldable pub receiver_is_auth_gate : Expr → String → List String → List String → Bool
receiver_is_auth_gate (path_expr line p) env_name address_names address_locals =
    path_is_gate p env_name address_names address_locals
receiver_is_auth_gate (field line base member) env_name address_names address_locals = true
receiver_is_auth_gate (method_call line receiver m args) env_name address_names address_locals =
    true
receiver_is_auth_gate _ env_name address_names address_locals = false

unfoldable pub type_is_env : SynType → Bool
type_is_env (path_type p) = last_is "Env" p.segments
type_is_env _ = false

unfoldable pub type_is_address : SynType → Bool
type_is_address (path_type p) = last_is "Address" p.segments
type_is_address _ = false

-- the name of an argument that is a plain identifier of a type
abbrev pub arg_name : (SynType → Bool) → FnArg → Option String
arg_name p receiver_arg = none
arg_name p (typed_arg (ident_pat name) ty) = if p ty then some name else none
arg_name p (typed_arg _ ty) = none

unfoldable pub env_param_name : List FnArg → Option String
unfolding type_is_env
env_param_name [] = none
env_param_name (a ∷ inputs) =
    let rest = env_param_name inputs in
    elim (arg_name type_is_env a) [ some name ↦ some name | none ↦ rest ]

unfoldable pub address_param_names : List FnArg → List String
unfolding type_is_address
address_param_names [] = []
address_param_names (a ∷ inputs) =
    let rest = address_param_names inputs in
    elim (arg_name type_is_address a) [ some name ↦ name ∷ rest | none ↦ rest ]

unfoldable pub pat_ident_name : Pat → Option String
pat_ident_name (ident_pat name) = some name
pat_ident_name (typed_pat pat ty) = pat_ident_name pat
pat_ident_name other_pat = none

-- `unwrap_or("env")` on the name of the `Env` parameter
abbrev pub or_env : Option String → String
or_env none = "env"
or_env (some name) = name

abbrev pub or_line : Option ℕ → ℕ → ℕ
or_line none line = line
or_line (some l) line = l

abbrev pub admin_var_keywords : List String
admin_var_keywords = "admin" ∷ "authority" ∷ "owner" ∷ "caller" ∷ []

unfoldable pub is_admin_var_name : String → Bool
unfolding to_lowercase includes
is_admin_var_name name = any (λ k. includes (to_lowercase name) k) admin_var_keywords
