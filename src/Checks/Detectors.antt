-- ===== src/Checks/Detectors.antt =====
-- The detectors of crates/checks: one module for each file that implements `Check`. A finding leaves
-- its path empty, as the analyzer fills it in.
pub mod Auth
pub mod AuthOrder
pub mod Reentrancy
pub mod Events
pub mod AdminChange
pub mod Ttl
pub mod Panics
pub mod Division
pub mod Overflow
pub mod LargeLoop
pub mod Delegate
pub mod Annotations
pub mod Address
pub mod InputLength
pub mod Protected
pub mod Upgrade
pub mod Mint
pub mod Deployment
pub mod Stamp
mod Tests
use guard_cli.Prelude.{
  ℕ, String, Bool, ◌&&◌, Option, none, some, List, [], ◌∷◌, map, flat, if◌then◌else◌,
}
use guard_cli.Prelude.Text.{◌<>◌}
use guard_cli.Checks.Ast.{Items, Method}
use guard_cli.Checks.Ast.Util.{contractimpl_functions_excluding_test}
use guard_cli.Checks.Finding.{Severity, Finding}
use guard_cli.Checks.Syntax.Walk.{MethodCall}

abbrev pub docs : String → Option String
docs anchor = some ("https://github.com/SorobanGuard/Guard-CLI/blob/main/docs/checks.md#" <> anchor)

-- the loop over the methods of the contract implementations
abbrev pub over_methods : (Method → List Finding) → Items → List Finding
over_methods run_method file = flat (map run_method (contractimpl_functions_excluding_test file))

-- The visitor `FirstStorageWrite`: its line is set once, by the first call that passes the test.
unfoldable pub first_line_from : Option ℕ → (MethodCall → Bool) → List MethodCall → Option ℕ
first_line_from line p [] = line
first_line_from (some line) p (m ∷ ms) = first_line_from (some line) p ms
first_line_from none p (m ∷ ms) = first_line_from (if p m then some m.line else none) p ms

unfoldable pub first_line : (MethodCall → Bool) → List MethodCall → Option ℕ
unfolding first_line_from
first_line = first_line_from none
