-- ===== src/Analyzer/Filter/Laws.antt =====
-- Which files a scan selects.
use mathlib.Core.List.{append_assoc, append-nil}
use guard_cli.Prelude.{
  ℕ, zero, suc, String, ◌≡◌, refl, sym, ap, ◌∙◌, Bool, true, false, not, ◌&&◌, ◌||◌, List, [], ◌∷◌,
  ◌++◌, map, arith, if◌then◌else◌, inl, inr, Bool-cases, any, any-append, is_empty, take, retain,
  Result, ok, err, map-ok-injective, All, All-map, string_eq,
}
use guard_cli.Analyzer.Paths.{FilePath, is_rust, is_ignored, is_ignored_path, relative_to}
use guard_cli.Analyzer.Errors.{IoError, io}
use guard_cli.Analyzer.Host.{Host, DirEntry, WalkError}
use guard_cli.Analyzer.Filter.{
  scan, generated_skip, reject, is_generated_marker, header_in, has_generated_file_header, glob_hit,
  classify_rust_path, compile_globs, Selection, nothing_selected, record_verdict, is_source_file,
  visit_entry, walk_entries, collect_rust_paths, >>=-eq-ok,
}

header_in-any :
    (n : ℕ) (ls : List String) → header_in n (map ok ls) ≡ ok (any is_generated_marker (take n ls))
unfolding header_in
header_in-any zero ls = refl
header_in-any (suc n) [] = refl
header_in-any (suc n) (l ∷ ls) = elim (Bool-cases (is_generated_marker l)) [
  | inl e ↦ rw e
  | inr e ↦ rw e (header_in-any n ls)
]

-- A file that is read without an error counts as generated exactly when one of its first five lines
-- begins, behind white space, with one of the three markers.
pub has_generated_file_header-any :
    (h : Host) (path : FilePath) (ls : List String)
    → h.lines_read path ≡ ok (map ok ls)
    → has_generated_file_header h path ≡ ok (any is_generated_marker (take 5 ls))
unfolding has_generated_file_header
has_generated_file_header-any h path ls e = rw (e, has_generated_file_header) (header_in-any 5 ls)

-- the verdict that no marker was found
abbrev pub says_no : Result Bool IoError → Bool
says_no (ok b) = not b
says_no (err e) = false

-- one path, or none, behind the selected ones
abbrev one_if : Bool → FilePath → List FilePath
one_if b path = if b then path ∷ [] else []

paths_of_verdict :
    (path : FilePath) (s : Selection) (a b c d : Bool) (r : Result Bool IoError)
    → (record_verdict path
        (if not a
          then ok reject
          else if b
          then ok reject
          else if not c && not d
          then ok reject
          else elim r [ err e ↦ err (io e) | ok true ↦ ok generated_skip | ok false ↦ ok scan ])
        s).paths
      ≡ s.paths ++ one_if (a && not b && (c || d) && says_no r) path
unfolding record_verdict
paths_of_verdict path s a b c d r = ground (arith, append-nil s.paths)

module _ (h : Host) (root : FilePath) (excludes includes : List h.Pattern) where
  -- what a file has to satisfy
  abbrev pub wanted : DirEntry → Bool
  wanted entry =
      is_source_file h entry
      && is_rust entry.path
      && not (is_ignored_path entry.path)
      && not (glob_hit h excludes (relative_to root entry.path) entry.path)
      && (is_empty includes || glob_hit h includes (relative_to root entry.path) entry.path)
      && says_no (has_generated_file_header h entry.path)

  paths-visit_entry :
      (entry : DirEntry) (s : Selection)
      → (visit_entry h root excludes includes entry s).paths
        ≡ s.paths ++ (if wanted entry then entry.path ∷ [] else [])
  unfolding visit_entry classify_rust_path
  paths-visit_entry entry s =
      let label = relative_to root entry.path in
      ground (
        arith,
        append-nil s.paths,
        paths_of_verdict entry.path s (is_rust entry.path) (glob_hit h excludes label entry.path)
            (is_empty includes) (glob_hit h includes label entry.path)
            (has_generated_file_header h entry.path),
      )

  -- The entries of a walk that meets no error.
  paths-walk_entries :
      (entries : List (Result DirEntry WalkError)) (s : Selection) {t : Selection}
      → walk_entries h root excludes includes entries s ≡ ok t
      → (es : List DirEntry) × (entries ≡ map ok es)
        × (t.paths ≡ s.paths ++ map (λ entry. entry.path) (retain wanted es))
  unfolding walk_entries
  paths-walk_entries [] s e = ([], refl, ground (arith, append-nil s.paths))
  paths-walk_entries (err x ∷ entries) s e = cc
  paths-walk_entries (ok entry ∷ entries) s e =
      let (es, e₁, e₂) =
        paths-walk_entries entries (visit_entry h root excludes includes entry s) e in
      (
        entry ∷ es,
        ap (◌∷◌ (ok entry)) e₁,
        e₂
            ∙ ap (λ ps. ps ++ map (λ (x : DirEntry). x.path) (retain wanted es))
                (paths-visit_entry entry s)
            ∙ split (wanted entry) es,
      )
    where
      split :
          (b : Bool) (es : List DirEntry)
          → (s.paths ++ (if b then entry.path ∷ [] else [])) ++ map (λ x. x.path) (retain wanted es)
            ≡ s.paths
              ++ map (λ x. x.path) (if b then entry ∷ retain wanted es else retain wanted es)
      split true es = append_assoc s.paths (entry.path ∷ []) _
      split false es =
          ap (λ ps. ps ++ map (λ (x : DirEntry). x.path) (retain wanted es)) (append-nil s.paths)

-- When the scan of a directory gets its list of files, the patterns compiled, the walk met no error,
-- and the files are those entries of the walk, in order, that are files or links to files, end in
-- .rs, have no component `target` or `.git`, match no exclude pattern, match an include pattern if
-- there is one, and have no marker of a generated file.
pub collect_rust_paths-wanted :
    (h : Host) (root : FilePath) (excludes includes : List String) {s : Selection}
    → h.is_file root ≡ false
    → collect_rust_paths h root excludes includes ≡ ok s
    → (ex : List h.Pattern) × (inc : List h.Pattern) × (es : List DirEntry) × (compile_globs h
          excludes
        ≡ ok ex)
      × (compile_globs h includes ≡ ok inc)
      × (h.walk root ≡ map ok es)
      × (s.paths ≡ map (λ entry. entry.path) (retain (wanted h root ex inc) es))
unfolding collect_rust_paths
collect_rust_paths-wanted h root excludes includes dir e =
    let (ex, e₁, k₁) = >>=-eq-ok (compile_globs h excludes) _ e in
    let (inc, e₂, k₂) = >>=-eq-ok (compile_globs h includes) _ k₁ in
    let (es, e₃, e₄) =
      paths-walk_entries h root ex inc (h.walk root) nothing_selected (rw dir at k₂) in
    (ex, inc, es, e₁, e₂, e₃, e₄)

-- the entry lies under the root
abbrev pub Under : FilePath → DirEntry → Type 0
Under root entry = (rest : FilePath) × (entry.path ≡ root ++ rest)

is_ignored_path-append :
    (p q : FilePath) → is_ignored_path p ≡ true → is_ignored_path (p ++ q) ≡ true
unfolding is_ignored_path
is_ignored_path-append p q h = any-append is_ignored p q ∙ rw h

retain-none :
    (p : DirEntry → Bool) (es : List DirEntry) → All (λ e. p e ≡ false) es → retain p es ≡ []
retain-none p [] h = refl
retain-none p (e ∷ es) (q, h) = rw q (retain-none p es h)

not_wanted :
    (h : Host) (root : FilePath) (ex inc : List h.Pattern) (entry : DirEntry)
    → is_ignored_path entry.path ≡ true
    → wanted h root ex inc entry ≡ false
not_wanted h root ex inc entry e = ground (arith, e)

-- Where the canonical path of the scanned directory itself has a component `target` or `.git`, no
-- file under it is selected.
pub collect_rust_paths-ignored_root :
    (h : Host) (root : FilePath) (excludes includes : List String) (es : List DirEntry)
    → h.is_file root ≡ false
    → is_ignored_path root ≡ true
    → h.walk root ≡ map ok es
    → All (Under root) es
    → {s : Selection} → collect_rust_paths h root excludes includes ≡ ok s
    → s.paths ≡ []
collect_rust_paths-ignored_root h root excludes includes es dir ignored walk under e =
    let (ex, inc, es', e₁, e₂, e₃, e₄) = collect_rust_paths-wanted h root excludes includes dir e in
    let same : es' ≡ es = map-ok-injective es' es (sym e₃ ∙ walk) in
    e₄
    ∙ ap (λ l. map (λ (x : DirEntry). x.path) l)
        (retain-none (wanted h root ex inc) es' (
          rw same (
            All-map
              (λ entry u.
                not_wanted h root ex inc entry (rw u.1 (is_ignored_path-append root u.0 ignored)))
              es under)))
