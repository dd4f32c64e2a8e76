-- ===== src/Checks/Detectors/Protected.antt =====
-- The scanner `AuthScanner`, which unprotected_upgrade.rs, unprotected_token_mint.rs and
-- unprotected_contract_deployment.rs of crates/checks have in common, and the test on the lines that it
-- finds. The files differ in the names that mark a local as the admin: the parameter `is_admin`.

pub mod Laws
use guard_cli.Prelude.{
  ℕ, String, Bool, true, false, ◌&&◌, ◌||◌, Option, none, some, List, [], ◌∷◌, if◌then◌else◌,
  contains, string_eq, leb,
}
use guard_cli.Checks.Ast.{Method}
use guard_cli.Checks.Syntax.{SynPath, Pat, Expr, path_expr, method_call, else_expr, Stmt, local}
use guard_cli.Checks.Syntax.Walk.{Visited, at_stmt, at_expr, visit_block, MethodCall}
use guard_cli.Checks.Syntax.Util.{
  receiver_chain_contains, receiver_chain_contains_storage, pat_ident_name, path_is, env_param_name,
  address_param_names, or_env,
}

-- a bare path: the `Env` parameter, or a local that holds the admin
abbrev pub path_is_admin : SynPath → String → List String → Bool
path_is_admin p env_name admin_vars =
    path_is p env_name || (elim p.get_ident [ none ↦ false | some name ↦ contains admin_vars name ])

abbrev pub receiver_is_admin : Expr → String → List String → Bool
receiver_is_admin (path_expr line p) env_name admin_vars = path_is_admin p env_name admin_vars
receiver_is_admin _ env_name admin_vars = false

unfoldable pub is_valid_auth_call : MethodCall → String → List String → List String → Bool
is_valid_auth_call m env_name address_names admin_vars =
    contains ("require_auth" ∷ "require_auth_for_args" ∷ []) m.method
    && receiver_is_admin m.receiver env_name admin_vars

pub record AuthScanner : Type 0 where
  pub env_name : String
  pub address_names : List String
  pub admin_vars : List String
  pub first_valid_auth_line : Option ℕ

unfoldable pub new : String → List String → AuthScanner
new env_name address_names = record {
  env_name = env_name;
  address_names = address_names;
  admin_vars = [];
  first_valid_auth_line = none;
}

abbrev pub reads_storage : Expr → Bool
reads_storage init = receiver_chain_contains_storage init && receiver_chain_contains init "get"

abbrev pub set_once : Option ℕ → Bool → ℕ → Option ℕ
set_once none found line = if found then some line else none
set_once (some l) found line = some l

abbrev pub is_valid : AuthScanner → MethodCall → Bool
is_valid s m = is_valid_auth_call m s.env_name s.address_names s.admin_vars

-- `visit_expr_method_call`, in front of the default walk
unfoldable pub on_call : AuthScanner → MethodCall → AuthScanner
on_call s m = record s {
  first_valid_auth_line = set_once s.first_valid_auth_line (is_valid s m) m.line;
}

module _ (is_admin : String → Bool) where
  abbrev pub admin_name : Option String → List String
  admin_name none = []
  admin_name (some name) = if is_admin name then name ∷ [] else []

  -- what a statement adds to the names: a binding of a value that is read from the storage
  unfoldable pub admin_bound : Stmt → List String
  unfolding receiver_chain_contains_storage pat_ident_name
  admin_bound (local pat (else_expr init) diverge) =
      if reads_storage init then admin_name (pat_ident_name pat) else []
  admin_bound _ = []

  abbrev pub insert_all : List String → List String → List String
  insert_all [] vars = vars
  insert_all (n ∷ ns) vars = n ∷ insert_all ns vars

  -- `visit_stmt`, in front of the default walk
  abbrev pub on_stmt : AuthScanner → Stmt → AuthScanner
  on_stmt s st = record s { admin_vars = insert_all (admin_bound st) s.admin_vars }

  unfoldable pub scan : AuthScanner → List Visited → AuthScanner
  scan s [] = s
  scan s (at_stmt st ∷ vs) = scan (on_stmt s st) vs
  scan s (at_expr (method_call l r m args) ∷ vs) =
      scan (on_call s (record { line = l; receiver = r; method = m; args = args })) vs
  scan s (_ ∷ vs) = scan s vs

  abbrev pub scanner : Method → AuthScanner
  scanner method = new (or_env (env_param_name method.inputs)) (address_param_names method.inputs)

  abbrev found_line : AuthScanner → Option ℕ
  found_line s = s.first_valid_auth_line

  unfoldable pub valid_auth_line : Method → Option ℕ
  valid_auth_line method = found_line (scan (scanner method) (visit_block method.block))

-- the `match` on the line of the operation and that of the check
abbrev pub is_unprotected : Option ℕ → Option ℕ → Bool
is_unprotected (some sensitive) (some auth) = leb sensitive auth
is_unprotected (some sensitive) none = true
is_unprotected none auth = false
