-- ===== src/Checks/Ast.antt =====
-- What crates/checks/src/util.rs and its callers read of a parsed file. The types are the parts of
-- `syn`'s syntax tree that the code looks at; lists inside the tree are types of their own.
pub mod Util
use guard_cli.Prelude.{ℕ, String, Bool, Option, List}
use guard_cli.Checks.Syntax.{SynPath, FnArg, Stmts}

mutual
  -- `list` holds what `parse_args_with` returns for the arguments, `list_unparsed` an error of it
  pub data Meta : Type 0 where
    path : SynPath → Meta
    list : SynPath → Metas → Meta
    list_unparsed : SynPath → Meta
    name_value : SynPath → Meta

  pub data Metas : Type 0 where
    nil : Metas
    cons : Meta → Metas → Metas

-- `args` is `parse_args::<Meta>()`, with `none` for an error
pub record Attribute : Type 0 where
  pub path : SynPath
  pub args : Option Meta

-- the lines of a span
pub record Span : Type 0 where
  pub start_line : ℕ
  pub end_line : ℕ

-- `syn::ImplItemFn`; `fn_line` is the line of the keyword `fn`
pub record Method : Type 0 where
  pub ident : String
  pub ident_line : ℕ
  pub fn_line : ℕ
  pub is_public : Bool
  pub inputs : List FnArg
  pub span : Span
  pub block : Stmts
  pub block_end_line : ℕ

pub data ImplItem : Type 0 where
  fn_item : Method → ImplItem
  other_impl_item : ImplItem

-- `self_ty` holds the segments of a `Type::Path`, and `none` for any other type
pub record ItemImpl : Type 0 where
  pub attrs : List Attribute
  pub self_ty : Option (List String)
  pub items : List ImplItem
  pub span : Span

mutual
  -- `attributed` is a `fn`, `const`, `static` or `enum`
  pub data Item : Type 0 where
    mod_inline : Span → List Attribute → String → Items → Item
    mod_file : Span → List Attribute → String → Item
    impl_block : ItemImpl → Item
    struct_item : Span → List Attribute → String → Item
    attributed : Span → List Attribute → Item
    other_item : Item

  pub data Items : Type 0 where
    nil : Items
    cons : Item → Items → Items
