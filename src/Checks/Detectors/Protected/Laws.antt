-- ===== src/Checks/Detectors/Protected/Laws.antt =====
-- What the silence of the detectors for upgrades, mints and deployments promises: a check of the caller on
-- an earlier line.
use guard_cli.Prelude.{
  ℕ, String, ◌≡◌, refl, sym, ap, ◌∙◌, ◌<◌, Bool, true, false, ◌&&◌, Option, none, some, List, [],
  ◌∷◌, ◌++◌, if◌then◌else◌, inl, inr, Bool-cases, arith, any, ◌==◌, string_eq,
}
use guard_cli.Checks.Ast.{Method}
use guard_cli.Checks.Finding.{Finding}
use guard_cli.Checks.Syntax.{method_call}
use guard_cli.Checks.Syntax.Util.{is_admin_var_name}
use guard_cli.Checks.Syntax.Walk.{Visited, at_stmt, at_expr, visit_block, MethodCall, method_calls}
use guard_cli.Checks.Detectors.Protected.{
  AuthScanner, set_once, is_valid, on_call, on_stmt, scan, new, scanner, valid_auth_line,
  is_unprotected,
}
use guard_cli.Checks.Detectors.Upgrade
use guard_cli.Checks.Detectors.Mint
use guard_cli.Checks.Detectors.Deployment

-- a call, as a node of the walk
abbrev pub at_call : MethodCall → Visited
at_call m = at_expr (method_call m.line m.receiver m.method m.args)

module _ (is_admin : String → Bool) where
  -- A call at this line is valid for the names that are bound in front of it.
  abbrev pub ValidAt : AuthScanner → List Visited → ℕ → Type 0
  ValidAt s vs line =
      (pre : List Visited) × (c : MethodCall) × (post : List Visited) × (vs
        ≡ pre ++ (at_call c ∷ post))
      × (is_valid (scan is_admin s pre) c ≡ true)
      × (c.line ≡ line)

  ValidAt-cons :
      (s t : AuthScanner) (v : Visited) (vs : List Visited) (line : ℕ)
      → ((pre : List Visited) → scan is_admin s (v ∷ pre) ≡ scan is_admin t pre)
      → ValidAt t vs line
      → ValidAt s (v ∷ vs) line
  ValidAt-cons s t v vs line same (pre, c, post, split, valid, here) =
      (v ∷ pre, c, post, ap (◌∷◌ v) split, ap (λ u. is_valid u c) (same pre) ∙ valid, here)

  scan-kept :
      (s : AuthScanner) (vs : List Visited) (line : ℕ)
      → s.first_valid_auth_line ≡ some line
      → (scan is_admin s vs).first_valid_auth_line ≡ some line
  unfolding scan on_call
  scan-kept s [] line h = h
  scan-kept s (at_stmt st ∷ vs) line h = scan-kept (on_stmt is_admin s st) vs line h
  scan-kept s (at_expr (method_call l r m args) ∷ vs) line h =
      scan-kept (on_call s (record { line = l; receiver = r; method = m; args = args })) vs line (
        ap
          (λ o.
            set_once o (is_valid s (record { line = l; receiver = r; method = m; args = args })) l)
          h)
  scan-kept s (_ ∷ vs) line h = scan-kept s vs line h

  scan-ValidAt :
      (s : AuthScanner) (vs : List Visited) (line : ℕ)
      → s.first_valid_auth_line ≡ none
      → (scan is_admin s vs).first_valid_auth_line ≡ some line
      → ValidAt s vs line
  unfolding scan on_call
  scan-ValidAt s [] line e h = absurd (ground (arith, e, h))
  scan-ValidAt s (at_stmt st ∷ vs) line e h =
      ValidAt-cons s (on_stmt is_admin s st) (at_stmt st) vs line (λ pre. refl)
        (scan-ValidAt (on_stmt is_admin s st) vs line e h)
  scan-ValidAt s (at_expr (method_call l r m args) ∷ vs) line e h =
      let c : MethodCall = record { line = l; receiver = r; method = m; args = args } in
      elim (Bool-cases (is_valid s c)) [
        | inl valid ↦
            let kept =
              scan-kept (on_call s c) vs l
                (ap (λ o. set_once o (is_valid s c) l) e ∙ ap (λ b. set_once none b l) valid) in
            ([], c, vs, refl, valid, ground (arith, h, kept))
        | inr other ↦
            ValidAt-cons s (on_call s c) (at_call c) vs line (λ pre. refl)
              (scan-ValidAt (on_call s c) vs line
                (ap (λ o. set_once o (is_valid s c) l) e ∙ ap (λ b. set_once none b l) other) h)
      ]
  scan-ValidAt s (v ∷ vs) line e h =
      ValidAt-cons s s v vs line (λ pre. refl) (scan-ValidAt s vs line e h)

  -- the method checks its caller on a line before this one
  abbrev pub GuardedBefore : Method → ℕ → Type 0
  GuardedBefore method sensitive =
      (line : ℕ) × (line < sensitive)
      × ValidAt (scanner is_admin method) (visit_block method.block) line

  protected-line :
      (sensitive : ℕ) (auth : Option ℕ)
      → is_unprotected (some sensitive) auth ≡ false
      → (line : ℕ) × (auth ≡ some line) × (line < sensitive)
  protected-line sensitive none h = cc
  protected-line sensitive (some line) h = (line, refl, ground (arith, h))

  protected-GuardedBefore :
      (method : Method) (sensitive : ℕ)
      → is_unprotected (some sensitive) (valid_auth_line is_admin method) ≡ false
      → GuardedBefore method sensitive
  unfolding valid_auth_line new
  protected-GuardedBefore method sensitive h =
      let (line, found, before) = protected-line sensitive (valid_auth_line is_admin method) h in
      (
        line,
        before,
        scan-ValidAt (scanner is_admin method) (visit_block method.block) line refl found,
      )

-- a method whose name and visibility are those the detector looks for, and that it does not report
silent-protected :
    (named public unprotected : Bool) (finding : Finding)
    → named ≡ true
    → public ≡ true
    → (if named && public && unprotected then finding ∷ [] else []) ≡ []
    → unprotected ≡ false
silent-protected named public unprotected finding h k silent = ground (arith, h, k, silent)

-- If a public method with a sensitive name calls `invoke_wasm`, the first time on some line, and is not
-- reported, then it makes a valid call of `require_auth` on an earlier line, one that is valid for
-- the admin names that are bound in front of it.
pub upgrade_run_method-GuardedBefore :
    (method : Method) (line : ℕ)
    → Upgrade.is_sensitive_name method.ident ≡ true
    → method.is_public ≡ true
    → Upgrade.first_invoke_wasm_line method.block ≡ some line
    → Upgrade.run_method method ≡ []
    → GuardedBefore is_admin_var_name method line
unfolding Upgrade.run_method
upgrade_run_method-GuardedBefore method line name public first silent =
    let auth = valid_auth_line is_admin_var_name method in
    let sensitive = Upgrade.first_invoke_wasm_line method.block in
    protected-GuardedBefore is_admin_var_name method line (
      sym (ap (λ o. is_unprotected o auth) first)
      ∙ silent-protected (Upgrade.is_sensitive_name method.ident) method.is_public
          (is_unprotected sensitive auth) (Upgrade.upgrade_finding method sensitive) name public
          silent)

-- If a public method with the name of a mint or a burn writes to the storage, the first time on some line, and is
-- not reported, then it makes a valid call of `require_auth` on an earlier line.
pub mint_run_method-GuardedBefore :
    (method : Method) (line : ℕ)
    → Mint.is_mint_name method.ident ≡ true
    → method.is_public ≡ true
    → Mint.first_storage_mutation_line method.block ≡ some line
    → Mint.run_method method ≡ []
    → GuardedBefore Mint.is_authority_name method line
unfolding Mint.run_method
mint_run_method-GuardedBefore method line name public first silent =
    let auth = valid_auth_line Mint.is_authority_name method in
    let sensitive = Mint.first_storage_mutation_line method.block in
    protected-GuardedBefore Mint.is_authority_name method line (
      sym (ap (λ o. is_unprotected o auth) first)
      ∙ silent-protected (Mint.is_mint_name method.ident) method.is_public
          (is_unprotected sensitive auth) (Mint.mint_finding method sensitive) name public silent)

abbrev pub is_deployer : MethodCall → Bool
is_deployer m = m.method == "deployer"

deployer_calls-none :
    (v : Deployment.DeployerVisitor) (calls : List MethodCall)
    → any is_deployer calls ≡ false
    → Deployment.deployer_calls v calls ≡ v
unfolding Deployment.deployer_calls
deployer_calls-none v [] h = refl
deployer_calls-none v (m ∷ ms) h =
    let other : is_deployer m ≡ false = ground (arith, h) in
    rw other (deployer_calls-none v ms (ground (arith, h)))

deployer_calls-last :
    (pre post : List MethodCall) (d : MethodCall) (v : Deployment.DeployerVisitor)
    → is_deployer d ≡ true
    → any is_deployer post ≡ false
    → Deployment.deployer_calls v (pre ++ (d ∷ post))
      ≡ record { found_deployer = true; line = d.line }
unfolding Deployment.deployer_calls
deployer_calls-last [] post d v h last =
    ap
      (λ b.
        Deployment.deployer_calls (if b then record { found_deployer = true; line = d.line } else v)
          post)
      h
    ∙ deployer_calls-none (record { found_deployer = true; line = d.line }) post last
deployer_calls-last (m ∷ pre) post d v h last =
    deployer_calls-last pre post d
      (if is_deployer m then record { found_deployer = true; line = m.line } else v) h last

-- If a public method has a call named `deployer`, with no other of that name behind it in the walk, and is
-- not reported, then it makes a valid call of `require_auth`, one that is valid for the admin names
-- that are bound in front of it, on a line before that of this last `deployer` call.
pub deployment_run_method-GuardedBefore :
    (method : Method) (pre post : List MethodCall) (d : MethodCall)
    → method.is_public ≡ true
    → method_calls method.block ≡ pre ++ (d ∷ post)
    → is_deployer d ≡ true
    → any is_deployer post ≡ false
    → Deployment.run_method method ≡ []
    → GuardedBefore is_admin_var_name method d.line
unfolding Deployment.run_method Deployment.has_deployer_call
deployment_run_method-GuardedBefore method pre post d public calls named last silent =
    let v = Deployment.has_deployer_call method.block in
    let start : Deployment.DeployerVisitor = record { found_deployer = false; line = 0 } in
    let e : v ≡ record { found_deployer = true; line = d.line } =
      ap (Deployment.deployer_calls start) calls
      ∙ deployer_calls-last pre post d start named last in
    protected-GuardedBefore is_admin_var_name method d.line (
      ap (λ u. is_unprotected (some u.line) (valid_auth_line is_admin_var_name method)) (sym e)
      ∙ silent-protected method.is_public v.found_deployer
          (is_unprotected (some v.line) (valid_auth_line is_admin_var_name method))
          (Deployment.deployment_finding method v.line) public (ap (λ u. u.found_deployer) e)
          silent)
