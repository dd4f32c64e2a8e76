-- ===== src/Checks/Detectors/Ttl/Laws.antt =====
-- What crates/checks/src/ttl.rs reports, against all the calls of the body at once.
use mathlib.Core.List.{append-nil, append_assoc}
use guard_cli.Prelude.{
  ℕ, String, ◌≡◌, refl, sym, ap, ◌∙◌, true, false, not, List, [], ◌∷◌, ◌++◌, map, flat,
  if◌then◌else◌, string_eq, contains, contains-disjoint, retain, Bool-cases, inl, inr, arith,
}
use guard_cli.Checks.Ast.{Method}
use guard_cli.Checks.Syntax.{Expr}
use guard_cli.Checks.Syntax.Walk.{MethodCall, method_calls}
use guard_cli.Checks.Detectors.Ttl.{
  is_persistent_mutation, is_persistent_extend_ttl, TtlVisitor, entry_of, key_of, on_call,
  ttl_visits, ttl_finding, report, run_method,
}

module _ (tokens : Expr → String) where
  -- the key and the line of a call that changes a persistent entry
  abbrev pub mutations_of : MethodCall → List (String × ℕ)
  mutations_of m = if is_persistent_mutation m then entry_of tokens m.line m.args else []

  -- the key of a call that extends the life of a persistent entry
  abbrev pub extensions_of : MethodCall → List String
  extensions_of m = if is_persistent_extend_ttl m then key_of tokens m.args else []

  -- no name is that of a mutation and of an extension
  extension-no_mutation :
      (m : MethodCall) → is_persistent_mutation m ≡ true → is_persistent_extend_ttl m ≡ false
  unfolding is_persistent_mutation is_persistent_extend_ttl
  extension-no_mutation m h =
      let other =
        contains-disjoint ("set" ∷ "remove" ∷ "append" ∷ []) ("extend_ttl" ∷ "bump" ∷ []) m.method
          refl in
      ground (arith, h, other)

  on_call-mutations :
      (s : TtlVisitor) (m : MethodCall)
      → (on_call tokens s m).mutations ≡ s.mutations ++ mutations_of m
  unfolding on_call
  on_call-mutations s m = elim (Bool-cases (is_persistent_mutation m)) [
    | inl e ↦ rw e refl
    | inr e ↦ rw e (elim (Bool-cases (is_persistent_extend_ttl m)) [
      | inl k ↦ rw k (sym (append-nil s.mutations))
      | inr k ↦ rw k (sym (append-nil s.mutations))
    ])
  ]

  on_call-keys :
      (s : TtlVisitor) (m : MethodCall)
      → (on_call tokens s m).extended_keys ≡ s.extended_keys ++ extensions_of m
  unfolding on_call
  on_call-keys s m = elim (Bool-cases (is_persistent_mutation m)) [
    | inl e ↦ rw (e, extension-no_mutation m e) (sym (append-nil s.extended_keys))
    | inr e ↦ rw e (elim (Bool-cases (is_persistent_extend_ttl m)) [
      | inl k ↦ rw k refl
      | inr k ↦ rw k (sym (append-nil s.extended_keys))
    ])
  ]

  ttl_visits-mutations :
      (s : TtlVisitor) (ms : List MethodCall)
      → (ttl_visits tokens s ms).mutations ≡ s.mutations ++ flat (map mutations_of ms)
  unfolding ttl_visits
  ttl_visits-mutations s [] = sym (append-nil s.mutations)
  ttl_visits-mutations s (m ∷ ms) =
      ttl_visits-mutations (on_call tokens s m) ms
      ∙ (ap (λ xs. xs ++ flat (map mutations_of ms)) (on_call-mutations s m)
          ∙ append_assoc s.mutations (mutations_of m) (flat (map mutations_of ms)))

  ttl_visits-keys :
      (s : TtlVisitor) (ms : List MethodCall)
      → (ttl_visits tokens s ms).extended_keys ≡ s.extended_keys ++ flat (map extensions_of ms)
  unfolding ttl_visits
  ttl_visits-keys s [] = sym (append-nil s.extended_keys)
  ttl_visits-keys s (m ∷ ms) =
      ttl_visits-keys (on_call tokens s m) ms
      ∙ (ap (λ xs. xs ++ flat (map extensions_of ms)) (on_call-keys s m)
          ∙ append_assoc s.extended_keys (extensions_of m) (flat (map extensions_of ms)))

  report-retain :
      (fn_name : String) (keys : List String) (mutations : List (String × ℕ))
      → report tokens fn_name keys mutations
        ≡ map
            (λ (e : String × ℕ). ttl_finding tokens fn_name e.1)
            (retain (λ (e : String × ℕ). not (contains keys e.0)) mutations)
  unfolding report
  report-retain fn_name keys [] = refl
  report-retain fn_name keys ((k, l) ∷ ms) = elim (Bool-cases (contains keys k)) [
    | inl e ↦ rw e (report-retain fn_name keys ms)
    | inr e ↦ rw e (ap (◌∷◌ (ttl_finding tokens fn_name l)) (report-retain fn_name keys ms))
  ]

  -- A method is reported once for each of its calls that changes a persistent entry with a key, in their order
  -- and at their lines, but for the calls whose key, in the same text, is extended by some call of the
  -- method, in front of the write or behind it.
  pub ttl_run_method-reports :
      (method : Method)
      → run_method tokens method
        ≡ map
            (λ (e : String × ℕ). ttl_finding tokens method.ident e.1)
            (retain
              (λ (e : String × ℕ).
                not (contains (flat (map extensions_of (method_calls method.block))) e.0))
              (flat (map mutations_of (method_calls method.block))))
  unfolding run_method
  ttl_run_method-reports method =
      let none_seen : TtlVisitor = record { mutations = []; extended_keys = [] } in
      let calls = method_calls method.block in
      rw (ttl_visits-mutations none_seen calls, ttl_visits-keys none_seen calls)
        (report-retain method.ident (flat (map extensions_of calls))
          (flat (map mutations_of calls)))
