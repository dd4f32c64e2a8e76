-- ===== src/Lib.antt =====
-- Soroban Guard scans the sources of Soroban contracts with a set of detectors and reports
-- findings. This library models its three crates.
--
-- crates/checks (module Checks): Finding.antt has `Severity`, `Finding` and the trait `Check` as a
-- record; Registry.antt the list of built-in checks and its construction, where a panic of an
-- assertion is an error with its message; Names.antt the name of each detector; Grouping.antt the
-- two groupings; Ast.antt and Ast/Util.antt the walk over contract implementations, on the parts
-- of the syntax tree that the code reads; Syntax.antt the expressions and statements of a body,
-- Syntax/Walk.antt the default walk of `syn::visit` over them and Syntax/Util.antt the helpers of
-- util.rs on them. Detectors.antt has a module for each detector that is modelled: Auth,
-- AuthOrder, Reentrancy and Delegate; Upgrade, Mint and Deployment with the scanner they share in
-- Protected; Overflow, Division, Panics and LargeLoop; Ttl, Events, AdminChange, Annotations and
-- InputLength; and Address with the text of the source. A visitor whose overrides go on with the
-- default walk is a function of the list of nodes that the walk meets; reentrancy.rs, which walks
-- an `if` in its own way, is a recursion over the body. `Detectors.Stamp.findings_of` puts the
-- runs together. The equality of expressions and the text of tokens, from `syn` and `quote`, are
-- parameters.
--
-- crates/analyzer (module Analyzer): Paths.antt has paths as lists of components; Errors.antt
-- `ScanError`, the report of panics and the collection of results; Suppress.antt the suppression
-- comments; Dedup.antt the passes over findings; Filter.antt the selection of files; Scan.antt the
-- scan of a file and the three entry points. The file system, the walk, globs, the parser and the
-- runs of the detectors are fields of the record `Host` in Host.antt, and a detector may panic
-- there. rayon's collection into a `Result` gives any one of the errors: the parameter `observed`
-- says which.
--
-- crates/cli (module Cli): Baseline.antt has the fingerprints and the filter; Config.antt the
-- search for the config file and its loading; Metadata.antt the table of descriptions; Report.antt
-- and Pretty.antt the outputs; Run.antt `run_scan` with the list of what it prints and writes and
-- its exit code; Setup.antt the scan arm of `main`, which loads the config, builds the checks and
-- runs the scan of the analyzer. The TOML parser, the JSON printer, `fs::write` and the colours
-- are parameters.
--
-- Numbers are natural numbers: line numbers and counts are `usize`, which no input of a possible
-- size exceeds. Maps are lists of entries, changed through the entry of one key: in key order for
-- `BTreeMap`, in any order for `HashMap`, whose order is never read. Two loops run on fuel. The
-- search for the config file gets a round more than its path has components, and each round takes
-- one off; the digits of a number get a round more than the number.
--
-- Not modelled: the detectors admin, balance, global_state, invoke_return, key_collision,
-- missing_nonce, reinit, std_imports, storage, transfer, unchecked_divisor,
-- unchecked_token_amount, uninitialized_storage_read, unsafe_randomness, vec_growth, xc_input and
-- zero_address, but for their names; the watch loop; the command line's declaration, shell
-- completions and version; `init` and `explain`. The syntax tree leaves out attributes, types and
-- patterns inside a body, which hold no calls that the detectors look for, and macro arguments,
-- which `syn` does not parse. Identifiers are ASCII.
pub mod Prelude
pub mod Checks
pub mod Analyzer
pub mod Cli
