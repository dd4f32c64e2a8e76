-- ===== src/Analyzer/Errors.antt =====
-- `ScanError`, `CheckPanic` and `CheckPanicReport` of crates/analyzer/src/lib.rs, and the collection
-- of the per-file results.
pub mod Laws
pub mod Report
use guard_cli.Prelude.{
  ℕ, String, Bool, true, false, not, Option, none, some, List, [], ◌∷◌, ◌++◌, if◌then◌else◌, length,
  is_empty, Result, ok, err,
}
use guard_cli.Prelude.Text.{◌<>◌}
use guard_cli.Prelude.Decimal.{decimal}
use guard_cli.Prelude.Sort.{sort}
use guard_cli.Analyzer.Paths.{FilePath, display, path_leb}

-- what the program observes of a `std::io::Error`
pub record IoError : Type 0 where
  pub permission_denied : Bool
  pub message : String

mutual
  pub data ScanError : Type 0 where
    io : IoError → ScanError
    scan_root : FilePath → IoError → ScanError
    permission_denied : FilePath → ScanError
    io_read : FilePath → IoError → ScanError
    parse : FilePath → String → ScanError
    check_panic : String → FilePath → String → ScanError
    invalid_glob_pattern : String → String → ScanError
    traversal : FilePath → String → ScanError
    multiple : ScanErrors → ScanError

  -- `Vec<ScanError>` inside an error
  pub data ScanErrors : Type 0 where
    nil : ScanErrors
    cons : ScanError → ScanErrors → ScanErrors

unfoldable pub of_list : List ScanError → ScanErrors
of_list [] = nil
of_list (e ∷ es) = cons e (of_list es)

unfoldable pub to_list : ScanErrors → List ScanError
to_list nil = []
to_list (cons e es) = e ∷ to_list es

-- `Display`, by the `#[error]` attributes
unfoldable pub to_string : ScanError → String
unfolding to_list
to_string (io e) = "IO error: " <> e.message
to_string (scan_root path e) = "cannot read scan path " <> (display path <> (": " <> e.message))
to_string (permission_denied path) = "Permission denied reading " <> display path
to_string (io_read path e) = "IO error reading " <> (display path <> (": " <> e.message))
to_string (parse path message) = "Failed to parse " <> (display path <> (": " <> message))
to_string (check_panic check path message) =
    "Check `" <> (check <> ("` panicked on " <> (display path <> (": " <> message))))
to_string (invalid_glob_pattern pattern reason) =
    "Invalid glob pattern `" <> (pattern <> ("`: " <> reason))
to_string (traversal path reason) =
    "Directory traversal error at " <> (display path <> (": " <> reason))
to_string (multiple es) = decimal (length (to_list es)) <> " files failed to scan"

pub record CheckPanic : Type 0 where
  pub check : String
  pub path : FilePath
  pub message : String

-- `TryFrom`: any other error is handed back
unfoldable pub try_from : ScanError → Result CheckPanic ScanError
try_from (check_panic check path message) =
    ok (record { check = check; path = path; message = message })
try_from e = err e

abbrev pub CheckPanicReport : Type 0
CheckPanicReport = List CheckPanic

unfoldable pub is_degraded : CheckPanicReport → Bool
is_degraded panics = not (is_empty panics)

-- `collect` pushes onto `panics`, and stops at the first error that is no panic
push_panic : List CheckPanic → Result CheckPanic ScanError → Result (List CheckPanic) ScanError
push_panic panics (ok p) = ok (panics ++ p ∷ [])
push_panic panics (err e) = err e

unfoldable mutual
  unfolding push_panic try_from

  pub collect : ScanError → List CheckPanic → Result (List CheckPanic) ScanError
  collect (multiple inner) panics = collect_all inner panics
  collect (io e) panics = push_panic panics (try_from (io e))
  collect (scan_root p e) panics = push_panic panics (try_from (scan_root p e))
  collect (permission_denied p) panics = push_panic panics (try_from (permission_denied p))
  collect (io_read p e) panics = push_panic panics (try_from (io_read p e))
  collect (parse p m) panics = push_panic panics (try_from (parse p m))
  collect (check_panic c p m) panics = push_panic panics (try_from (check_panic c p m))
  collect (invalid_glob_pattern p r) panics =
      push_panic panics (try_from (invalid_glob_pattern p r))
  collect (traversal p r) panics = push_panic panics (try_from (traversal p r))

  -- `try_for_each`
  pub collect_all : ScanErrors → List CheckPanic → Result (List CheckPanic) ScanError
  collect_all nil panics = ok panics
  collect_all (cons e es) panics = elim (collect e panics) [
    | ok more ↦ collect_all es more
    | err other ↦ err other
  ]

unfoldable pub from_errors : List ScanError → Result CheckPanicReport ScanError
unfolding collect of_list
from_errors errors = collect_all (of_list errors) []

unfoldable pub scan_error_path : ScanError → FilePath
scan_error_path (scan_root path e) = path
scan_error_path (permission_denied path) = path
scan_error_path (io_read path e) = path
scan_error_path (parse path m) = path
scan_error_path (check_panic c path m) = path
scan_error_path (traversal path r) = path
scan_error_path (io e) = []
scan_error_path (invalid_glob_pattern p r) = []
scan_error_path (multiple es) = []

abbrev pub error_leb : ScanError → ScanError → Bool
error_leb a b = path_leb (scan_error_path a) (scan_error_path b)

module _ {ℓ} {A : Type ℓ} where
  unfoldable pub oks : List (Result A ScanError) → List A
  oks [] = []
  oks (ok a ∷ rs) = a ∷ oks rs
  oks (err e ∷ rs) = oks rs

  unfoldable pub errs : List (Result A ScanError) → List ScanError
  errs [] = []
  errs (ok a ∷ rs) = errs rs
  errs (err e ∷ rs) = e ∷ errs rs

  unfoldable pub collect_scan_results : List (Result A ScanError) → Result (List A) ScanError
  unfolding oks errs of_list
  collect_scan_results results =
      if is_empty (errs results)
      then ok (oks results)
      else err (multiple (of_list (sort error_leb (errs results))))
