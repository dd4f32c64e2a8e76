-- ===== src/Cli/Config.antt =====
-- crates/cli/src/config.rs: finding, loading and resolving `soroban-guard.toml`. The file system and
-- the TOML parser are parameters.
pub mod Laws
use guard_cli.Prelude.{
  ℕ, zero, suc, String, Bool, true, false, Option, none, some, List, [], ◌∷◌, if◌then◌else◌, Result,
  ok, err, map_err, length,
}
use guard_cli.Prelude.Text.{◌<>◌}
use guard_cli.Analyzer.Paths.{FilePath, join, parent, display}

pub record ScanConfig : Type 0 where
  pub path : Option String
  pub min_severity : Option String

pub record SensitiveNamesConfig : Type 0 where
  pub extra : List String

pub record ChecksConfig : Type 0 where
  pub disabled : List String
  pub sensitive_names : SensitiveNamesConfig

pub record GuardConfig : Type 0 where
  pub scan : ScanConfig
  pub checks : ChecksConfig

-- `GuardConfig::default()`
abbrev pub default_config : GuardConfig
default_config = record {
  scan = record { path = none; min_severity = none };
  checks = record { disabled = []; sensitive_names = record { extra = [] } };
}

-- `from_str` is the parser of TOML into a `GuardConfig`; errors are their messages.
pub record ConfigHost : Type 0 where
  pub is_file : FilePath → Bool
  pub exists : FilePath → Bool
  pub read_to_string : FilePath → Result String String
  pub from_str : String → Result GuardConfig String

abbrev pub Loaded : Type 0
Loaded = Option GuardConfig × Option FilePath

module _ (h : ConfigHost) where
  open h use {is_file, exists, read_to_string, from_str}

  abbrev pub candidate : FilePath → FilePath
  candidate dir = join dir "soroban-guard.toml"

  -- The loop, with a round for each directory that it climbs through. Each parent is one component
  -- shorter, so the rounds never run out.
  climb : ℕ → FilePath → Option FilePath
  climb zero dir = none
  climb (suc fuel) dir =
      if is_file (candidate dir)
      then some (candidate dir)
      else if exists (join dir ".git")
      then none
      else elim (parent dir) [ none ↦ none | some up ↦ climb fuel up ]

  -- the directory that the search begins in
  pub start_dir : FilePath → FilePath
  start_dir scan_path =
      if is_file scan_path
      then elim (parent scan_path) [ none ↦ "." ∷ [] | some dir ↦ dir ]
      else scan_path

  unfoldable pub find_config_path : FilePath → Option FilePath
  unfolding climb start_dir
  find_config_path scan_path = let dir = start_dir scan_path in climb (suc (length dir)) dir

  unfoldable pub load_from_path : FilePath → Result Loaded String
  load_from_path config_path =
      elim (map_err (λ e. "could not read " <> (display config_path <> (": " <> e)))
        (read_to_string config_path)) [
          | err e ↦ err e
          | ok raw ↦ elim (map_err (λ e. display config_path <> (": " <> e)) (from_str raw)) [
            | err e ↦ err e
            | ok cfg ↦ ok (some cfg, some config_path)
          ]
        ]

  unfoldable pub load : FilePath → Result Loaded String
  unfolding find_config_path load_from_path
  load scan_path = elim (find_config_path scan_path) [
    | none ↦ ok (none, none)
    | some config_path ↦ load_from_path config_path
  ]

  unfoldable pub resolve : FilePath → Option FilePath → Bool → Result Loaded String
  unfolding load
  resolve scan_path (some path) no_config = load_from_path path
  resolve scan_path none true = ok (none, none)
  resolve scan_path none false = load scan_path
