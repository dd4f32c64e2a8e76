-- ===== src/Checks/Ast/Util.antt =====
-- crates/checks/src/util.rs: the walk over `#[contractimpl]` blocks.
pub mod Laws
mod Tests
use guard_cli.Prelude.{
  String, Option, none, some, List, [], ◌∷◌, ◌++◌, Bool, false, not, ◌&&◌, ◌||◌, if◌then◌else◌,
  ◌==◌, string_eq, any,
}
use guard_cli.Checks.Syntax.{SynPath}
use guard_cli.Checks.Ast.{
  Meta, Metas, path, list, list_unparsed, name_value, Attribute, Method, ImplItem, fn_item,
  other_impl_item, ItemImpl, Item, Items, mod_inline, mod_file, impl_block, struct_item, attributed,
  other_item, nil, cons,
}

-- `segments.last()`
unfoldable pub last_segment : List String → Option String
last_segment [] = none
last_segment (s ∷ []) = some s
last_segment (s ∷ t ∷ rest) = last_segment (t ∷ rest)

-- `is_some_and(|s| s == name)`
abbrev pub is_name : String → Option String → Bool
is_name name none = false
is_name name (some s) = s == name

abbrev pub is_ident : SynPath → String → Bool
is_ident p name = is_name name p.get_ident

path_is_contractimpl : SynPath → Bool
unfolding last_segment
path_is_contractimpl p = is_name "contractimpl" (last_segment p.segments)

unfoldable pub is_contractimpl : ItemImpl → Bool
unfolding path_is_contractimpl
is_contractimpl block = any (λ attr. path_is_contractimpl attr.path) block.attrs

unfoldable mutual
  pub meta_mentions_test : Meta → Bool
  meta_mentions_test (path p) = is_ident p "test"
  meta_mentions_test (list p metas) =
      let inside = any_mentions_test metas in (is_ident p "all" || is_ident p "any") && inside
  meta_mentions_test (list_unparsed p) = false
  meta_mentions_test (name_value p) = false

  pub any_mentions_test : Metas → Bool
  any_mentions_test nil = false
  any_mentions_test (cons m ms) = meta_mentions_test m || any_mentions_test ms

mentions_test? : Option Meta → Bool
unfolding meta_mentions_test
mentions_test? none = false
mentions_test? (some meta) = meta_mentions_test meta

unfoldable pub is_cfg_test : List Attribute → Bool
unfolding mentions_test?
is_cfg_test attrs = any (λ attr. is_ident attr.path "cfg" && mentions_test? attr.args) attrs

-- the name of the enclosing type; empty if the self type is no path
unfoldable pub impl_type_name : ItemImpl → String
unfolding last_segment
impl_type_name block = elim block.self_ty [
  | none ↦ ""
  | some segments ↦ elim (last_segment segments) [ none ↦ "" | some s ↦ s ]
]

-- `push` of each method of a block
unfoldable pub methods_of : List ImplItem → List Method
methods_of [] = []
methods_of (fn_item m ∷ items) = m ∷ methods_of items
methods_of (other_impl_item ∷ items) = methods_of items

with_type : String → List Method → List (String × Method)
with_type t [] = []
with_type t (m ∷ ms) = (t, m) ∷ with_type t ms

unfoldable pub is_test_mod : List Attribute → String → Bool
unfolding is_cfg_test
is_test_mod attrs ident = is_cfg_test attrs || ident == "tests" || ident == "test"

-- The vector `out` of the source is the result: what a call pushes, in order.
unfoldable mutual
  unfolding is_test_mod is_contractimpl methods_of

  pub collect_item : Bool → Item → List Method
  collect_item in_test (mod_inline span attrs ident nested) =
      collect_contractimpl_fns (in_test || is_test_mod attrs ident) nested
  collect_item in_test (mod_file span attrs ident) = []
  collect_item in_test (impl_block block) =
      if not in_test && is_contractimpl block then methods_of block.items else []
  collect_item in_test (struct_item span attrs ident) = []
  collect_item in_test (attributed span attrs) = []
  collect_item in_test other_item = []

  pub collect_contractimpl_fns : Bool → Items → List Method
  collect_contractimpl_fns in_test nil = []
  collect_contractimpl_fns in_test (cons item items) =
      collect_item in_test item ++ collect_contractimpl_fns in_test items

unfoldable mutual
  unfolding is_test_mod is_contractimpl methods_of impl_type_name with_type

  pub collect_item_with_type : Bool → Item → List (String × Method)
  collect_item_with_type in_test (mod_inline span attrs ident nested) =
      collect_contractimpl_fns_with_type (in_test || is_test_mod attrs ident) nested
  collect_item_with_type in_test (mod_file span attrs ident) = []
  collect_item_with_type in_test (impl_block block) =
      if not in_test && is_contractimpl block
      then with_type (impl_type_name block) (methods_of block.items)
      else []
  collect_item_with_type in_test (struct_item span attrs ident) = []
  collect_item_with_type in_test (attributed span attrs) = []
  collect_item_with_type in_test other_item = []

  pub collect_contractimpl_fns_with_type : Bool → Items → List (String × Method)
  collect_contractimpl_fns_with_type in_test nil = []
  collect_contractimpl_fns_with_type in_test (cons item items) =
      collect_item_with_type in_test item ++ collect_contractimpl_fns_with_type in_test items

unfoldable pub contractimpl_functions_excluding_test : Items → List Method
unfolding collect_contractimpl_fns
contractimpl_functions_excluding_test = collect_contractimpl_fns false

unfoldable pub contractimpl_functions_with_type_excluding_test : Items → List (String × Method)
unfolding collect_contractimpl_fns_with_type
contractimpl_functions_with_type_excluding_test = collect_contractimpl_fns_with_type false
