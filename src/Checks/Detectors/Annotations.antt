-- ===== src/Checks/Detectors/Annotations.antt =====
-- crates/checks/src/annotations.rs: `missing-contract-annotation`. The set of the names is a list.
use guard_cli.Prelude.{
  ℕ, String, Bool, some, List, [], ◌∷◌, ◌++◌, if◌then◌else◌, ◌==◌, string_eq, any, contains,
}
use guard_cli.Prelude.Text.{◌<>◌}
use guard_cli.Checks.Ast.{
  Attribute, ItemImpl, Item, Items, mod_inline, mod_file, impl_block, struct_item, attributed,
  other_item, nil, cons,
}
use guard_cli.Checks.Ast.Util.{last_segment, is_name, impl_type_name}
use guard_cli.Checks.Finding.{low, Finding}
use guard_cli.Checks.Names
use guard_cli.Checks.Detectors.{docs}

unfoldable pub has_attr : List Attribute → String → Bool
unfolding last_segment
has_attr attrs name = any (λ a. is_name name (last_segment a.path.segments)) attrs

abbrev pub resolved_name : ItemImpl → String
resolved_name block =
    let resolved = impl_type_name block in if resolved == "" then "unknown" else resolved

-- `collect_items`: the names it inserts
unfoldable mutual
  unfolding has_attr

  pub structs_of_item : Item → List String
  structs_of_item (mod_inline span attrs ident nested) = contract_structs nested
  structs_of_item (mod_file span attrs ident) = []
  structs_of_item (impl_block block) = []
  structs_of_item (struct_item span attrs ident) =
      if has_attr attrs "contract" then ident ∷ [] else []
  structs_of_item (attributed span attrs) = []
  structs_of_item other_item = []

  pub contract_structs : Items → List String
  contract_structs nil = []
  contract_structs (cons item items) = structs_of_item item ++ contract_structs items

-- `collect_items`: the blocks it pushes
unfoldable mutual
  unfolding has_attr impl_type_name

  pub impls_of_item : Item → List (String × ℕ)
  impls_of_item (mod_inline span attrs ident nested) = contract_impls nested
  impls_of_item (mod_file span attrs ident) = []
  impls_of_item (impl_block block) =
      if has_attr block.attrs "contractimpl"
      then (resolved_name block, block.span.start_line) ∷ []
      else []
  impls_of_item (struct_item span attrs ident) = []
  impls_of_item (attributed span attrs) = []
  impls_of_item other_item = []

  pub contract_impls : Items → List (String × ℕ)
  contract_impls nil = []
  contract_impls (cons item items) = impls_of_item item ++ contract_impls items

abbrev pub annotation_finding : String → ℕ → Finding
annotation_finding type_name line = record {
  check_name = Names.missing_contract_annotation;
  severity = low;
  file_path = "";
  line = line;
  function_name = type_name;
  description =
      "`#[contractimpl]` found for `"
      <> (type_name
          <> "` but no `#[contract]` struct exists in this file. This is likely a copy-paste error; add `#[contract]` to the struct definition.");
  rule_url = docs "missing-contract-annotation-low";
  suggestion = some (
      "Add `#[contract]` to the `"
      <> (type_name <> "` struct definition, or remove the orphan `#[contractimpl]` block."));
}

-- the `filter_map` over the blocks
unfoldable pub orphans : List String → List (String × ℕ) → List Finding
orphans names [] = []
orphans names ((type_name, line) ∷ impls) =
    let rest = orphans names impls in
    if contains names type_name then rest else annotation_finding type_name line ∷ rest

unfoldable pub run : Items → List Finding
unfolding contract_structs contract_impls orphans
run file = orphans (contract_structs file) (contract_impls file)
