-- ===== src/Cli/Metadata/Meta.antt =====
-- `CheckMeta` of crates/cli/src/main.rs.
use guard_cli.Prelude.{String, Option}

pub record CheckMeta : Type 0 where
  pub name : String
  pub severity : String
  pub short : String
  pub rule : String
  pub long : Option String
