-- ===== src/Cli/Setup/Laws.antt =====
-- What the setup of a scan makes of its arguments and the config file.
use mathlib.Core.Path.{subst}
use guard_cli.Prelude.{
  ℕ, ◌≤◌, String, Bool, true, false, not, ◌||◌, ◌≡◌, refl, sym, ap, ◌∙◌, Option, none, some, List,
  [], ◌∷◌, map, ◌==◌, string_eq, find-any, any, contains, retain, Result, ok, err, arith,
  Bool-cases, inl, inr,
}
use guard_cli.Checks.Finding.{Severity}
use guard_cli.Checks.Registry.{name, all_checks_base, default_checks}
use guard_cli.Checks.Registry.Unique.{default_checks_with_config-ok}
use guard_cli.Analyzer.Paths.{FilePath}
use guard_cli.Analyzer.Errors.{ScanError}
use guard_cli.Analyzer.Host.{Host, boxed}
use guard_cli.Analyzer.Scan.{ScanOutput, FileScanResult, scan_directory_with_checks}
use guard_cli.Cli.Run.Laws.{code-run_scan, exit_code}
use guard_cli.Cli.Config.{ConfigHost, GuardConfig, load, Loaded}
use guard_cli.Cli.Run.{ScanOptions, Event, Terminal}
use guard_cli.Cli.Setup.Choices.{
  contains-merge_disabled, IsThreshold, effective_fail_on-IsThreshold,
}
use guard_cli.Cli.Setup.{
  effective_fail_on, parse_fail_on, merge_disabled, ScanArgs, Ready, Stopped, exited, panicked,
  or_default, resolve_scan_path, unknown_check, prepare, setup, after_setup, scan_command,
  config_note, after_load, after_path, with_threshold, activate,
}

default_checks-ok : default_checks ≡ ok all_checks_base
unfolding default_checks
default_checks-ok = refl

abbrev pub registered : String → Bool
registered n = contains (map name all_checks_base) n

abbrev pub is_disabled : ScanArgs → GuardConfig → String → Bool
is_disabled args cfg n = contains cfg.checks.disabled n || contains args.disable_check n

-- what is ready for the scan
abbrev pub IsReady : ScanArgs → FilePath → GuardConfig → Ready → Type 0
IsReady args scan_path cfg ready =
    (map name ready.checks ≡ retain (λ n. not (is_disabled args cfg n)) (map name all_checks_base))
    × ((n : String) → is_disabled args cfg n ≡ true → registered n ≡ true)
    × IsThreshold args.fail_on cfg.scan.min_severity ready.opts.fail_threshold
    × (ready.opts.path ≡ scan_path)

abbrev pub Prepared : ScanArgs → FilePath → GuardConfig → Result Ready Stopped → Type 0
Prepared args scan_path cfg (ok ready) = IsReady args scan_path cfg ready
Prepared args scan_path cfg (err (exited events)) = Unit
Prepared args scan_path cfg (err (panicked message)) = ⊥

retain-ext :
    (p q : String → Bool) (ns : List String)
    → ((n : String) → p n ≡ q n)
    → retain p ns ≡ retain q ns
retain-ext p q [] h = refl
retain-ext p q (n ∷ ns) h = rw (h n, retain-ext p q ns h) refl

any-contains :
    (p : String → Bool) (ns : List String) (n : String)
    → any p ns ≡ false
    → contains ns n ≡ true
    → p n ≡ false
any-contains p [] n h k = ground arith
any-contains p (m ∷ ns) n h k = elim (Bool-cases (m == n)) [
  | inl same ↦ ground (arith, ap p ((string_eq.beq_iff m n).0 same), h)
  | inr other ↦ any-contains p ns n (ground (arith, h)) (ground (arith, k, other))
]

module _ (c : ConfigHost) (from_text : String → FilePath) (t : Terminal) where
  activate-Prepared :
      (args : ScanArgs) (scan_path : FilePath) (notes : List Event) (cfg : GuardConfig)
      (threshold : Severity) (unknown : Option String)
      → parse_fail_on (effective_fail_on args.fail_on cfg.scan.min_severity) ≡ ok threshold
      → unknown_check c from_text t all_checks_base
          (merge_disabled cfg.checks.disabled args.disable_check)
        ≡ unknown
      → Prepared args scan_path cfg (
          activate c from_text t args scan_path notes cfg threshold
            (merge_disabled cfg.checks.disabled args.disable_check)
            unknown)
  unfolding activate
  activate-Prepared args scan_path notes cfg threshold (some bad) s u = tt
  activate-Prepared args scan_path notes cfg threshold none s u =
      let ds = merge_disabled cfg.checks.disabled args.disable_check in
      let (checks, e, names, once) =
        default_checks_with_config-ok ds cfg.checks.sensitive_names.extra in
      let same : (n : String) → contains ds n ≡ is_disabled args cfg n =
        contains-merge_disabled args.disable_check cfg.checks.disabled in
      rw e (
        names
            ∙ retain-ext (λ n. not (contains ds n)) (λ n. not (is_disabled args cfg n))
                (map name all_checks_base) (λ n. ap not (same n)),
        (λ n d. ground (
          arith,
          any-contains (λ n. not (registered n)) ds n (find-any (λ n. not (registered n)) ds u)
              (same n ∙ d),
        )),
        effective_fail_on-IsThreshold args.fail_on cfg.scan.min_severity s,
        refl,
      )

  with_threshold-Prepared :
      (args : ScanArgs) (scan_path : FilePath) (notes : List Event) (cfg : GuardConfig)
      (r : Result Severity String)
      → parse_fail_on (effective_fail_on args.fail_on cfg.scan.min_severity) ≡ r
      → Prepared args scan_path cfg (with_threshold c from_text t args scan_path notes cfg r)
  unfolding with_threshold
  with_threshold-Prepared args scan_path notes cfg (err bad) e = tt
  with_threshold-Prepared args scan_path notes cfg (ok threshold) e = rw default_checks-ok (
      activate-Prepared args scan_path notes cfg threshold
        (unknown_check c from_text t all_checks_base
          (merge_disabled cfg.checks.disabled args.disable_check))
        e refl)

  prepare-Prepared :
      (args : ScanArgs) (scan_path : FilePath) (notes : List Event) (cfg : GuardConfig)
      → Prepared args scan_path cfg (prepare c from_text t args scan_path notes cfg)
  unfolding prepare
  prepare-Prepared args scan_path notes cfg =
      with_threshold-Prepared args scan_path notes cfg
        (parse_fail_on (effective_fail_on args.fail_on cfg.scan.min_severity)) refl

  -- what the setup comes to
  abbrev pub IsSetup : ScanArgs → Result Ready Stopped → Type 0
  IsSetup args (err (exited events)) = Unit
  IsSetup args (err (panicked message)) = ⊥
  IsSetup args (ok ready) =
      (scan_path : FilePath) × (cfg : Option GuardConfig) × (file : Option FilePath)
      × (resolve_scan_path c from_text t args.path ≡ ok scan_path)
      × (load c scan_path ≡ ok (cfg, file))
      × IsReady args scan_path (or_default c from_text t cfg) ready

  IsSetup-Prepared :
      (args : ScanArgs) (scan_path : FilePath) (cfg : Option GuardConfig) (file : Option FilePath)
      (r : Result Ready Stopped)
      → resolve_scan_path c from_text t args.path ≡ ok scan_path
      → load c scan_path ≡ ok (cfg, file)
      → Prepared args scan_path (or_default c from_text t cfg) r
      → IsSetup args r
  IsSetup-Prepared args scan_path cfg file (err (exited events)) p l h = tt
  IsSetup-Prepared args scan_path cfg file (err (panicked message)) p l h = h
  IsSetup-Prepared args scan_path cfg file (ok ready) p l h = (scan_path, cfg, file, p, l, h)

  resolve_scan_path-exits :
      (path : Option FilePath) {stopped : Stopped}
      → resolve_scan_path c from_text t path ≡ err stopped
      → (events : List Event) × (stopped ≡ exited events)
  unfolding resolve_scan_path
  resolve_scan_path-exits (some p) h = cc
  resolve_scan_path-exits none h = ground arith

  after_load-IsSetup :
      (args : ScanArgs) (scan_path : FilePath) (r : Result Loaded String)
      → resolve_scan_path c from_text t args.path ≡ ok scan_path
      → load c scan_path ≡ r
      → IsSetup args (after_load c from_text t args scan_path r)
  unfolding after_load
  after_load-IsSetup args scan_path (err e) p l = tt
  after_load-IsSetup args scan_path (ok (cfg, file)) p l =
      let notes = config_note c from_text t args.verbose file in
      IsSetup-Prepared args scan_path cfg file
        (prepare c from_text t args scan_path notes (or_default c from_text t cfg)) p l
        (prepare-Prepared args scan_path notes (or_default c from_text t cfg))

  after_path-IsSetup :
      (args : ScanArgs) (r : Result FilePath Stopped)
      → resolve_scan_path c from_text t args.path ≡ r
      → IsSetup args (after_path c from_text t args r)
  unfolding after_path
  after_path-IsSetup args (err stopped) p =
      let (events, x) = resolve_scan_path-exits args.path p in
      subst (λ s. IsSetup args (err s)) (sym x) tt
  after_path-IsSetup args (ok scan_path) p =
      after_load-IsSetup args scan_path (load c scan_path) p refl

exit_code-le :
    (t : Terminal) (opts : ScanOptions) (r : Result (ScanOutput FileScanResult) ScanError)
    → exit_code t opts r ≤ 2
exit_code-le t opts (err e) = omega arith
exit_code-le t opts (ok scan) = ground arith

-- Whatever the arguments, the file system and the config files, the setup does not panic. Where it
-- comes to a scan, the scan path and the config file are the ones looked up, the active checks are
-- those of the registry, in its order, that neither the config file nor a flag disables, every
-- disabled name is the name of a check, and the threshold is the one whose word, in any case of the
-- letters, the flag is; without a flag the one whose word the config file has; else high.
pub setup-IsSetup :
    (c : ConfigHost) (from_text : String → FilePath) (t : Terminal) (args : ScanArgs)
    → IsSetup c from_text t args (setup c from_text t args)
unfolding setup
setup-IsSetup c from_text t args =
    after_path-IsSetup c from_text t args (resolve_scan_path c from_text t args.path) refl

after_setup-le :
    (c : ConfigHost) (from_text : String → FilePath) (t : Terminal) (h : Host)
    (observed : List ScanError → ℕ) (args : ScanArgs) (r : Result Ready Stopped)
    → IsSetup c from_text t args r
    → (after_setup c from_text t h observed r).code ≤ 2
unfolding after_setup
after_setup-le c from_text t h observed args (err (exited events)) i = omega arith
after_setup-le c from_text t h observed args (err (panicked message)) i = absurd i
after_setup-le c from_text t h observed args (ok ready) i =
    let checks = map (boxed h) ready.checks in
    rw (code-run_scan h observed t ready.opts checks) (
      exit_code-le t ready.opts (
        scan_directory_with_checks h observed ready.opts.path ready.opts.exclude ready.opts.includes
          checks))

-- Without `--watch` the command ends with 0, 1 or 2, never with the code of a panic, whatever the
-- arguments, the file system, the config files and the detectors do.
pub scan_command-le :
    (c : ConfigHost) (from_text : String → FilePath) (t : Terminal) (h : Host)
    (observed : List ScanError → ℕ) (args : ScanArgs)
    → (scan_command c from_text t h observed args).code ≤ 2
unfolding scan_command
scan_command-le c from_text t h observed args =
    after_setup-le c from_text t h observed args (setup c from_text t args)
      (setup-IsSetup c from_text t args)
