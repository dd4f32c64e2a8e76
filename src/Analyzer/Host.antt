-- ===== src/Analyzer/Host.antt =====
-- What the analyzer takes from outside: the file system, the walk of a directory, glob patterns, the
-- parser and the detectors' own runs. A scan sees one state of the file system.
use guard_cli.Prelude.{String, Bool, Option, List, Result}
use guard_cli.Checks.Ast.{Items}
use guard_cli.Checks.Finding.{Outcome, Check}
use guard_cli.Checks.Registry.{Detector, name}
use guard_cli.Analyzer.Paths.{FilePath}
use guard_cli.Analyzer.Errors.{IoError}

pub data FileType : Type 0 where
  file directory symlink : FileType

pub record DirEntry : Type 0 where
  pub path : FilePath
  pub file_type : FileType

-- an error of `walkdir`
pub record WalkError : Type 0 where
  pub path : Option FilePath
  pub message : String

-- `lines_read` is what `read_line` gives, call by call, up to the end of the file.
pub record Host : Type 1 where
  pub File : Type 0
  pub Pattern : Type 0
  pub is_file : FilePath → Bool
  pub canonicalize : FilePath → Result FilePath IoError
  pub read_to_string : FilePath → Result String IoError
  pub lines_read : FilePath → Result (List (Result String IoError)) IoError
  pub walk : FilePath → List (Result DirEntry WalkError)
  pub new_pattern : String → Result Pattern String
  pub matches_path : Pattern → FilePath → Bool
  pub parse_file : String → Result File String
  pub items : File → Items
  pub detect : Detector → File → String → Outcome

-- a detector as a `Box<dyn Check>`
abbrev pub boxed : (h : Host) → Detector → Check h.File
boxed h d = record { name = name d; run = h.detect d }
