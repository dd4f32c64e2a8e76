-- ===== src/Analyzer/Filter.antt =====
-- Which files are scanned: `has_generated_file_header`, `compile_globs`, `classify_rust_path`,
-- `collect_rust_paths` and the selection of `scan_files` in crates/analyzer/src/lib.rs. What is
-- written to stderr is a list of warnings.
pub mod Laws
use guard_cli.Prelude.{
  ℕ, zero, suc, ◌+◌, String, Bool, true, false, not, ◌&&◌, ◌||◌, Option, none, some, List, [], ◌∷◌,
  ◌++◌, if◌then◌else◌, any, is_empty, Result, ok, err, map_err, ◌≡◌, refl,
}
use guard_cli.Prelude.Text.{◌<>◌, trim_start, starts_with}
use guard_cli.Analyzer.Paths.{FilePath, is_rust, is_ignored_path, relative_to}
use guard_cli.Analyzer.Errors.{
  IoError, ScanError, io, scan_root, permission_denied, invalid_glob_pattern, traversal, to_string,
}
use guard_cli.Analyzer.Host.{Host, FileType, file, directory, symlink, DirEntry, WalkError}

-- `?` on a result
infixl 5 ◌>>=◌
abbrev pub ◌>>=◌ {ℓ κ} :
    {V : Type ℓ} {W : Type κ} (r : Result V ScanError) (next : V → Result W ScanError)
    → Result W ScanError
err e >>= next = err e
ok v >>= next = next v

pub >>=-eq-ok {ℓ κ} :
    {V : Type ℓ} {W : Type κ} (r : Result V ScanError) (next : V → Result W ScanError) {w : W}
    → (r >>= next) ≡ ok w
    → (v : V) × (r ≡ ok v) × (next v ≡ ok w)
>>=-eq-ok (err e) next q = cc
>>=-eq-ok (ok v) next q = (v, refl, q)

pub data PathVerdict : Type 0 where
  scan generated_skip reject : PathVerdict

abbrev pub is_generated_marker : String → Bool
is_generated_marker line =
    let trimmed = trim_start line in
    starts_with trimmed "// @generated"
    || starts_with trimmed "// Code generated"
    || starts_with trimmed "// DO NOT EDIT"

-- the loop over the first lines; the end of the list is a read of no bytes
unfoldable pub header_in : ℕ → List (Result String IoError) → Result Bool IoError
unfolding trim_start starts_with
header_in zero reads = ok false
header_in (suc n) [] = ok false
header_in (suc n) (err e ∷ reads) = err e
header_in (suc n) (ok line ∷ reads) =
    let later = header_in n reads in if is_generated_marker line then ok true else later

module _ (h : Host) where
  open h use {Pattern, is_file, canonicalize, lines_read, walk, new_pattern, matches_path}

  unfoldable pub has_generated_file_header : FilePath → Result Bool IoError
  unfolding header_in
  has_generated_file_header path = elim (lines_read path) [
    | err e ↦ err e
    | ok reads ↦ header_in 5 reads
  ]

  unfoldable pub canonicalize_root : FilePath → Result FilePath ScanError
  canonicalize_root root = map_err (scan_root root) (canonicalize root)

  unfoldable pub compile_globs : List String → Result (List Pattern) ScanError
  compile_globs [] = ok []
  compile_globs (p ∷ ps) = do
    pattern ← map_err (invalid_glob_pattern p) (new_pattern p)
    compiled ← compile_globs ps
    ok (pattern ∷ compiled)

  abbrev pub glob_hit : List Pattern → FilePath → FilePath → Bool
  glob_hit patterns label path = any (λ p. matches_path p label || matches_path p path) patterns

  unfoldable pub classify_rust_path :
      FilePath → FilePath → List Pattern → List Pattern → Result PathVerdict ScanError
  classify_rust_path path label excludes includes =
      if not (is_rust path)
      then ok reject
      else if glob_hit excludes label path
      then ok reject
      else if not (is_empty includes) && not (glob_hit includes label path)
      then ok reject
      else elim (has_generated_file_header path) [
        | err e ↦ err (io e)
        | ok true ↦ ok generated_skip
        | ok false ↦ ok scan
      ]

-- `{err}` of the warning
unfoldable pub skipping_warning : FilePath → ScanError → String
unfolding to_string
skipping_warning path (io e) =
    let named : ScanError = if e.permission_denied then permission_denied path else io e in
    "warning: " <> (to_string named <> ", skipping file")
skipping_warning path e = "warning: " <> (to_string e <> ", skipping file")

-- what the loops over paths have gathered
pub record Selection : Type 0 where
  pub paths : List FilePath
  pub files_skipped : ℕ
  pub warnings : List String

abbrev pub nothing_selected : Selection
nothing_selected = record { paths = []; files_skipped = 0; warnings = [] }

-- the `match` on the verdict
unfoldable pub record_verdict : FilePath → Result PathVerdict ScanError → Selection → Selection
unfolding skipping_warning
record_verdict path (ok scan) s = record s { paths = s.paths ++ path ∷ [] }
record_verdict path (ok generated_skip) s = record s { files_skipped = s.files_skipped + 1 }
record_verdict path (ok reject) s = s
record_verdict path (err e) s = record s { warnings = s.warnings ++ skipping_warning path e ∷ [] }

module _ (h : Host) where
  open h use {Pattern, is_file, canonicalize, walk}

  abbrev pub is_source_file : DirEntry → Bool
  is_source_file entry = elim entry.file_type [
    | file ↦ true
    | directory ↦ false
    | symlink ↦ is_file entry.path
  ]

  -- one entry of the walk
  unfoldable pub visit_entry :
      FilePath → List Pattern → List Pattern → DirEntry → Selection → Selection
  unfolding record_verdict
  visit_entry root excludes includes entry s =
      if not (is_source_file entry)
      then s
      else if not (is_rust entry.path)
      then s
      else if is_ignored_path entry.path
      then s
      else record_verdict entry.path
          (classify_rust_path h entry.path (relative_to root entry.path) excludes includes) s

  unfoldable pub walk_entries :
      FilePath
      → List Pattern
      → List Pattern
      → List (Result DirEntry WalkError)
      → Selection
      → Result Selection ScanError
  unfolding visit_entry
  walk_entries root excludes includes [] s = ok s
  walk_entries root excludes includes (err e ∷ entries) s =
      err (traversal (elim e.path [ none ↦ root | some path ↦ path ]) e.message)
  walk_entries root excludes includes (ok entry ∷ entries) s =
      walk_entries root excludes includes entries (visit_entry root excludes includes entry s)

  unfoldable pub collect_rust_paths :
      FilePath → List String → List String → Result Selection ScanError
  unfolding walk_entries compile_globs
  collect_rust_paths root excludes includes = do
    exclude_patterns ← compile_globs h excludes
    include_patterns ← compile_globs h includes
    if is_file root
        then ok (record nothing_selected { paths = root ∷ [] })
        else walk_entries root exclude_patterns include_patterns (walk root) nothing_selected

  abbrev pub canonical_or_self : FilePath → FilePath
  canonical_or_self path = elim (canonicalize path) [ ok p ↦ p | err _ ↦ path ]

  -- one path of the list of `scan_files`
  unfoldable pub select_path :
      FilePath → List Pattern → List Pattern → FilePath → Selection → Selection
  unfolding record_verdict
  select_path root excludes includes path s =
      if is_ignored_path (relative_to root path)
      then s
      else let path_canon = canonical_or_self path in
        record_verdict path_canon
          (classify_rust_path h path_canon (relative_to root path_canon) excludes includes) s

  unfoldable pub select_paths :
      FilePath → List Pattern → List Pattern → List FilePath → Selection → Selection
  unfolding select_path
  select_paths root excludes includes [] s = s
  select_paths root excludes includes (path ∷ paths) s =
      select_paths root excludes includes paths (select_path root excludes includes path s)
