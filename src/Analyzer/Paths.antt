-- ===== src/Analyzer/Paths.antt =====
-- `std::path` as the analyzer uses it, and the path helpers of crates/analyzer/src/lib.rs.
-- A path is the list of its components on Unix; the component "/" in front marks an absolute path.
use guard_cli.Prelude.{
  String, Bool, true, false, ◌||◌, Option, none, some, List, [], ◌∷◌, ◌++◌, if◌then◌else◌, ◌==◌,
  string_eq, nat_eq, ltb, ◌&&◌, ℕ, any,
}
use guard_cli.Prelude.Text.{◌<>◌, rsplit_once, str_leb}

abbrev pub FilePath : Type 0
FilePath = List String

-- `strip_prefix`
unfoldable pub strip_root : FilePath → FilePath → Option FilePath
strip_root [] path = some path
strip_root (r ∷ root) [] = none
strip_root (r ∷ root) (c ∷ path) = if r == c then strip_root root path else none

-- `unwrap_or(path)` behind it
unfoldable pub relative_to : FilePath → FilePath → FilePath
unfolding strip_root
relative_to root path = elim (strip_root root path) [ none ↦ path | some rest ↦ rest ]

abbrev normal : String → Option String
normal c = if c == "/" || c == ".." || c == "." then none else some c

-- `file_name`
unfoldable pub file_name : FilePath → Option String
file_name [] = none
file_name (c ∷ []) = normal c
file_name (c ∷ d ∷ path) = file_name (d ∷ path)

-- of a file name: what follows the last dot, unless the name begins with its only dot
extension_of : String → Option String
extension_of name = elim (rsplit_once b'.' name) [
  | none ↦ none
  | some (before, after) ↦ if before == "" then none else some after
]

-- `extension`
unfoldable pub extension : FilePath → Option String
unfolding file_name extension_of
extension path = elim (file_name path) [ none ↦ none | some name ↦ extension_of name ]

-- `extension().and_then(to_str) != Some("rs")`, negated
unfoldable pub is_rust : FilePath → Bool
unfolding extension
is_rust path = elim (extension path) [ none ↦ false | some e ↦ e == "rs" ]

-- `is_absolute`
abbrev pub is_absolute : FilePath → Bool
is_absolute [] = false
is_absolute (c ∷ path) = c == "/"

-- `join` of one component
abbrev pub join : FilePath → String → FilePath
join path c = path ++ c ∷ []

-- a path without its last component
unfoldable pub drop_last : FilePath → FilePath
drop_last [] = []
drop_last (c ∷ []) = []
drop_last (c ∷ d ∷ path) = c ∷ drop_last (d ∷ path)

-- `parent`
unfoldable pub parent : FilePath → Option FilePath
unfolding drop_last
parent [] = none
parent (c ∷ []) = if c == "/" then none else some []
parent (c ∷ d ∷ path) = some (c ∷ drop_last (d ∷ path))

-- `to_string_lossy`, for a path of valid UTF-8
unfoldable pub display : FilePath → String
display [] = ""
display (c ∷ []) = c
display (c ∷ d ∷ path) =
    let rest = display (d ∷ path) in if c == "/" then c <> rest else c <> ("/" <> rest)

-- the place of a component's kind in the order of `Component`: the root, the directory itself, its
-- parent, a name
unfoldable pub kind_rank : String → ℕ
kind_rank c = if c == "/" then 0 else if c == "." then 1 else if c == ".." then 2 else 3

-- `Component::cmp`, as `c <= d`: by kind, then by text
unfoldable pub component_leb : String → String → Bool
unfolding kind_rank
component_leb c d = ltb (kind_rank c) (kind_rank d) || (kind_rank c == kind_rank d && str_leb c d)

-- `path.cmp`, as `a <= b`: component by component
unfoldable pub path_leb : FilePath → FilePath → Bool
unfolding component_leb
path_leb [] q = true
path_leb (c ∷ p) [] = false
path_leb (c ∷ p) (d ∷ q) = let rest = path_leb p q in if c == d then rest else component_leb c d

-- a component that the scanner never enters
abbrev pub is_ignored : String → Bool
is_ignored c = c == "target" || c == ".git"

unfoldable pub is_ignored_path : FilePath → Bool
is_ignored_path path = any is_ignored path

-- `file_label`, over what `root.is_file()` says
unfoldable pub file_label : Bool → FilePath → FilePath → String
unfolding file_name relative_to display
file_label root_is_file path root =
    if root_is_file
    then elim (file_name path) [ none ↦ "" | some name ↦ name ]
    else display (relative_to root path)
