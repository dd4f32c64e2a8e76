-- ===== src/Cli/Config/Laws.antt =====
-- Which config file is found.
use guard_cli.Prelude.{◌<◌, ◌≡◌, true, false, some, ◌++◌, length}
use guard_cli.Analyzer.Paths.{FilePath, join, parent, is_absolute}
use guard_cli.Cli.Config.{ConfigHost, candidate}

-- From `dir` the search meets `path`: no directory below it on the way holds a config file or
-- `.git`.
pub data Nearest (h : ConfigHost) (path : FilePath) : FilePath → Type 0 where
  here :
      {dir : FilePath}
      → h.is_file (candidate h dir) ≡ true
      → path ≡ candidate h dir
      → Nearest h path dir
  above :
      {dir up : FilePath}
      → h.is_file (candidate h dir) ≡ false
      → h.exists (join dir ".git") ≡ false
      → parent dir ≡ some up
      → Nearest h path up
      → Nearest h path dir

-- a directory that holds neither a config file nor `.git`
abbrev pub IsClear : ConfigHost → FilePath → Type 0
IsClear h dir = (h.is_file (candidate h dir) ≡ false) × (h.exists (join dir ".git") ≡ false)

-- `path` is the config file in a beginning `d` of `dir`, and all longer beginnings are clear.
abbrev pub IsNearest : ConfigHost → FilePath → FilePath → Type 0
IsNearest h dir path =
    (d : FilePath) × (rest : FilePath) × (dir ≡ d ++ rest)
    × (is_absolute d ≡ is_absolute dir)
    × (path ≡ candidate h d)
    × (h.is_file path ≡ true)
    × ((e f : FilePath) → e ++ f ≡ dir → length d < length e → IsClear h e)
