-- ===== src/Checks/Ast/Util/Laws.antt =====
-- Which methods the walk over contract implementations finds.
use mathlib.Core.List.{append-nil, append_assoc}
use guard_cli.Prelude.{
  String, ◌≡◌, refl, sym, ap, ◌∙◌, Bool, true, false, not, ◌&&◌, ◌||◌, List, [], ◌∷◌, ◌++◌, map,
  flat, if◌then◌else◌, inl, inr, Bool-cases,
}
use guard_cli.Checks.Ast.{
  Method, ItemImpl, Item, Items, mod_inline, mod_file, impl_block, struct_item, attributed,
  other_item, nil, cons,
}
use guard_cli.Checks.Ast.Util.{
  is_contractimpl, impl_type_name, methods_of, with_type, is_test_mod, collect_item,
  collect_contractimpl_fns, collect_item_with_type, collect_contractimpl_fns_with_type,
  contractimpl_functions_excluding_test, contractimpl_functions_with_type_excluding_test,
}

-- The `#[contractimpl]` blocks of a file, where a test module is left out with all that it holds.
abbrev mutual
  pub live_item : Item → List ItemImpl
  live_item (mod_inline span attrs ident nested) =
      if is_test_mod attrs ident then [] else live nested
  live_item (mod_file span attrs ident) = []
  live_item (impl_block block) = if is_contractimpl block then block ∷ [] else []
  live_item (struct_item span attrs ident) = []
  live_item (attributed span attrs) = []
  live_item other_item = []

  pub live : Items → List ItemImpl
  live nil = []
  live (cons item items) = live_item item ++ live items

abbrev pub typed_methods : ItemImpl → List (String × Method)
typed_methods block = map (λ m. (impl_type_name block, m)) (methods_of block.items)

with_type_lem : (t : String) (ms : List Method) → with_type t ms ≡ map (λ m. (t, m)) ms
unfolding with_type
with_type_lem t [] = refl
with_type_lem t (m ∷ ms) = ap (◌∷◌ (t, m)) (with_type_lem t ms)

flat-append :
    {A B : Type 0} (f : A → List B) (xs ys : List A)
    → flat (map f (xs ++ ys)) ≡ flat (map f xs) ++ flat (map f ys)
flat-append f [] ys = refl
flat-append f (x ∷ xs) ys =
    ap (λ zs. f x ++ zs) (flat-append f xs ys)
    ∙ sym (append_assoc (f x) (flat (map f xs)) (flat (map f ys)))

mutual
  unfolding collect_item_with_type collect_contractimpl_fns_with_type

  in_test_item : (item : Item) → collect_item_with_type true item ≡ []
  in_test_item (mod_inline span attrs ident nested) = in_test nested
  in_test_item (mod_file span attrs ident) = refl
  in_test_item (impl_block block) = refl
  in_test_item (struct_item span attrs ident) = refl
  in_test_item (attributed span attrs) = refl
  in_test_item other_item = refl

  in_test : (items : Items) → collect_contractimpl_fns_with_type true items ≡ []
  in_test nil = refl
  in_test (cons item items) = rw (in_test_item item) (in_test items)

mutual
  unfolding collect_item_with_type collect_contractimpl_fns_with_type

  collect_item_with_type-live :
      (item : Item) → collect_item_with_type false item ≡ flat (map typed_methods (live_item item))
  collect_item_with_type-live (mod_inline span attrs ident nested) =
      elim (Bool-cases (is_test_mod attrs ident)) [
        | inl test ↦ rw test (in_test nested)
        | inr code ↦ rw code (collect_contractimpl_fns_with_type-live nested)
      ]
  collect_item_with_type-live (mod_file span attrs ident) = refl
  collect_item_with_type-live (impl_block block) = elim (Bool-cases (is_contractimpl block)) [
    | inl contract ↦ rw contract (
        with_type_lem (impl_type_name block) (methods_of block.items)
        ∙ sym (append-nil (typed_methods block)))
    | inr other ↦ rw other refl
  ]
  collect_item_with_type-live (struct_item span attrs ident) = refl
  collect_item_with_type-live (attributed span attrs) = refl
  collect_item_with_type-live other_item = refl

  collect_contractimpl_fns_with_type-live :
      (items : Items)
      → collect_contractimpl_fns_with_type false items ≡ flat (map typed_methods (live items))
  collect_contractimpl_fns_with_type-live nil = refl
  collect_contractimpl_fns_with_type-live (cons item items) =
      rw (collect_item_with_type-live item, collect_contractimpl_fns_with_type-live items)
        (sym (flat-append typed_methods (live_item item) (live items)))

map-append :
    (xs ys : List (String × Method))
    → map (λ p. p.1) (xs ++ ys) ≡ map (λ p. p.1) xs ++ map (λ p. p.1) ys
map-append [] ys = refl
map-append (x ∷ xs) ys = ap (◌∷◌ x.1) (map-append xs ys)

map-with_type : (t : String) (ms : List Method) → map (λ p. p.1) (with_type t ms) ≡ ms
unfolding with_type
map-with_type t [] = refl
map-with_type t (m ∷ ms) = ap (◌∷◌ m) (map-with_type t ms)

mutual
  unfolding collect_item collect_contractimpl_fns collect_item_with_type
      collect_contractimpl_fns_with_type

  collect_item-map :
      (b : Bool) (item : Item)
      → map (λ p. p.1) (collect_item_with_type b item) ≡ collect_item b item
  collect_item-map b (mod_inline span attrs ident nested) =
      collect_contractimpl_fns-map (b || is_test_mod attrs ident) nested
  collect_item-map b (mod_file span attrs ident) = refl
  collect_item-map b (impl_block block) = elim (Bool-cases (not b && is_contractimpl block)) [
    | inl contract ↦ rw contract (map-with_type (impl_type_name block) (methods_of block.items))
    | inr other ↦ rw other refl
  ]
  collect_item-map b (struct_item span attrs ident) = refl
  collect_item-map b (attributed span attrs) = refl
  collect_item-map b other_item = refl

  collect_contractimpl_fns-map :
      (b : Bool) (items : Items)
      → map (λ p. p.1) (collect_contractimpl_fns_with_type b items)
        ≡ collect_contractimpl_fns b items
  collect_contractimpl_fns-map b nil = refl
  collect_contractimpl_fns-map b (cons item items) =
      map-append (collect_item_with_type b item) (collect_contractimpl_fns_with_type b items)
      ∙ rw (collect_item-map b item, collect_contractimpl_fns-map b items) refl

-- The methods found, with the names of their types, are those of the contract implementations that no
-- test module holds, block by block in the order of the file; and the walk without type names finds
-- the same methods.
pub contractimpl_functions-live :
    (file : Items)
    → (contractimpl_functions_with_type_excluding_test file ≡ flat (map typed_methods (live file)))
      × (map (λ p. p.1) (contractimpl_functions_with_type_excluding_test file)
          ≡ contractimpl_functions_excluding_test file)
unfolding contractimpl_functions_with_type_excluding_test contractimpl_functions_excluding_test
contractimpl_functions-live file =
    (collect_contractimpl_fns_with_type-live file, collect_contractimpl_fns-map false file)
