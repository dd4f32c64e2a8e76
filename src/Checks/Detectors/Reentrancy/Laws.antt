-- ===== src/Checks/Detectors/Reentrancy/Laws.antt =====
-- The visitor of crates/checks/src/reentrancy.rs against the walks of a body.
use guard_cli.Prelude.{
  ℕ, ◌≡◌, refl, Bool, true, false, not, ◌&&◌, Option, none, some, List, [], ◌∷◌, ◌++◌, inl, inr,
  any, contains-disjoint, String, string_eq, arith,
}
use guard_cli.Checks.Syntax.{
  Expr, Exprs, Else, Stmt, Stmts, Parts, path_expr, lit, method_call, call, field, index, reference,
  paren, binary, macro_call, if_expr, loop_expr, other_expr, no_args, arg, no_else, else_expr,
  local, expr_stmt, macro_stmt, item_stmt, no_stmts, stmt, no_parts, expr_part, block_part,
  macro_part,
}
use guard_cli.Checks.Syntax.Walk.{MethodCall}
use guard_cli.Checks.Detectors.Reentrancy.{
  is_storage_write, is_storage_read, is_invoke_contract, ReentrancyVisitor, is_none, on_call,
  or_else, join, visit_expr, visit_exprs, visit_else, visit_stmt, visit_block, visit_parts,
}
use guard_cli.Checks.Detectors.Reentrancy.Walks.{
  WalkOfExpr, WalkOfExprs, WalkOfElse, WalkOfStmt, WalkOfBlock, WalkOfParts,
}

-- the visitor's rule for a call, on each call of a walk
abbrev pub run_calls : List MethodCall → ReentrancyVisitor → ReentrancyVisitor
run_calls [] s = s
run_calls (m ∷ ms) s = run_calls ms (on_call s m)

run_calls-append :
    (a b : List MethodCall) (s : ReentrancyVisitor)
    → run_calls (a ++ b) s ≡ run_calls b (run_calls a s)
run_calls-append [] b s = refl
run_calls-append (m ∷ a) b s = run_calls-append a b (on_call s m)

-- there is a write, and no read behind it
abbrev pub at_risk : ReentrancyVisitor → Bool
at_risk s = s.wrote && not s.re_read_after_write

-- The first state is at risk and has a line wherever the second is and has.
abbrev pub Covers : ReentrancyVisitor → ReentrancyVisitor → Type 0
Covers a c =
    (at_risk c ≡ true → at_risk a ≡ true)
    × (is_none a.invoke_after_write_line ≡ true → is_none c.invoke_after_write_line ≡ true)

on_call-Covers :
    (a c : ReentrancyVisitor) (m : MethodCall) → Covers a c → Covers (on_call a m) (on_call c m)
unfolding on_call
on_call-Covers a c m h = (λ r. ground (arith, h.0), λ n. ground (arith, h.0, h.1))

or_else-none :
    (s t e : Option ℕ)
    → is_none (or_else s (or_else t e)) ≡ true
    → (is_none t ≡ true) × (is_none e ≡ true)
or_else-none none none e h = (refl, h)
or_else-none none (some l) e h = cc
or_else-none (some l) t e h = cc

join-Covers-then : (s t e c : ReentrancyVisitor) → Covers t c → Covers (join s t e) c
unfolding join
join-Covers-then s t e c h = (
  λ r. ground (arith, h.0 r),
  λ n. h.1 (or_else-none s.invoke_after_write_line t.invoke_after_write_line _ n).0,
)

join-Covers-else : (s t e c : ReentrancyVisitor) → Covers e c → Covers (join s t e) c
unfolding join
join-Covers-else s t e c h = (
  λ r. ground (arith, h.0 r),
  λ n. h.1 (or_else-none s.invoke_after_write_line t.invoke_after_write_line _ n).1,
)

append-Covers :
    (t u v : List MethodCall) (a c : ReentrancyVisitor)
    → t ≡ u ++ v
    → Covers a (run_calls v (run_calls u c))
    → Covers a (run_calls t c)
append-Covers t u v a c e h = rw (e, run_calls-append u v c) h

empty-Covers :
    (t : List MethodCall) (a c : ReentrancyVisitor) → t ≡ [] → Covers a c → Covers a (run_calls t c)
empty-Covers t a c e h = rw e h

-- The visitor covers every walk.
mutual
  unfolding visit_expr

  pub visit_expr-Covers :
      (x : Expr) (t : List MethodCall) (a c : ReentrancyVisitor)
      → WalkOfExpr x t
      → Covers a c
      → Covers (visit_expr x a) (run_calls t c)
  visit_expr-Covers (path_expr l p) t a c r h = empty-Covers t a c r h
  visit_expr-Covers (lit l s) t a c r h = empty-Covers t a c r h
  visit_expr-Covers (method_call l r m args) t a c (w, d, (u, v, e, p, q)) h =
      let here : MethodCall = record { line = l; receiver = r; method = m; args = args } in
      let called = on_call-Covers a c here h in
      rw d (
        append-Covers w u v _ (on_call c here) e
          (visit_exprs-Covers args v _ _ q (visit_expr-Covers r u _ _ p called)))
  visit_expr-Covers (call l f args) t a c (u, v, e, p, q) h =
      append-Covers t u v _ c e (visit_exprs-Covers args v _ _ q (visit_expr-Covers f u a c p h))
  visit_expr-Covers (field l b m) t a c r h = visit_expr-Covers b t a c r h
  visit_expr-Covers (index l b i) t a c (u, v, e, p, q) h =
      append-Covers t u v _ c e (visit_expr-Covers i v _ _ q (visit_expr-Covers b u a c p h))
  visit_expr-Covers (reference l x) t a c r h = visit_expr-Covers x t a c r h
  visit_expr-Covers (paren l x) t a c r h = visit_expr-Covers x t a c r h
  visit_expr-Covers (binary l op x y) t a c (u, v, e, p, q) h =
      append-Covers t u v _ c e (visit_expr-Covers y v _ _ q (visit_expr-Covers x u a c p h))
  visit_expr-Covers (macro_call l m) t a c r h = empty-Covers t a c r h
  visit_expr-Covers (if_expr l cond b e) t a c (inl r) h =
      join-Covers-then a (visit_block b a) (visit_else e a) _ (visit_block-Covers b t a c r h)
  visit_expr-Covers (if_expr l cond b e) t a c (inr r) h =
      join-Covers-else a (visit_block b a) (visit_else e a) _ (visit_else-Covers e t a c r h)
  visit_expr-Covers (loop_expr l k ps) t a c r h = visit_parts-Covers ps t a c r h
  visit_expr-Covers (other_expr l ps) t a c r h = visit_parts-Covers ps t a c r h

  pub visit_exprs-Covers :
      (x : Exprs) (t : List MethodCall) (a c : ReentrancyVisitor)
      → WalkOfExprs x t
      → Covers a c
      → Covers (visit_exprs x a) (run_calls t c)
  visit_exprs-Covers no_args t a c r h = empty-Covers t a c r h
  visit_exprs-Covers (arg x xs) t a c (u, v, e, p, q) h =
      append-Covers t u v _ c e (visit_exprs-Covers xs v _ _ q (visit_expr-Covers x u a c p h))

  pub visit_else-Covers :
      (x : Else) (t : List MethodCall) (a c : ReentrancyVisitor)
      → WalkOfElse x t
      → Covers a c
      → Covers (visit_else x a) (run_calls t c)
  visit_else-Covers no_else t a c r h = empty-Covers t a c r h
  visit_else-Covers (else_expr x) t a c r h = visit_expr-Covers x t a c r h

  pub visit_stmt-Covers :
      (x : Stmt) (t : List MethodCall) (a c : ReentrancyVisitor)
      → WalkOfStmt x t
      → Covers a c
      → Covers (visit_stmt x a) (run_calls t c)
  visit_stmt-Covers (local pat i d) t a c (u, v, e, p, q) h =
      append-Covers t u v _ c e (visit_else-Covers d v _ _ q (visit_else-Covers i u a c p h))
  visit_stmt-Covers (expr_stmt x) t a c r h = visit_expr-Covers x t a c r h
  visit_stmt-Covers (macro_stmt m) t a c r h = empty-Covers t a c r h
  visit_stmt-Covers (item_stmt ps) t a c r h = visit_parts-Covers ps t a c r h

  pub visit_block-Covers :
      (x : Stmts) (t : List MethodCall) (a c : ReentrancyVisitor)
      → WalkOfBlock x t
      → Covers a c
      → Covers (visit_block x a) (run_calls t c)
  visit_block-Covers no_stmts t a c r h = empty-Covers t a c r h
  visit_block-Covers (stmt s ss) t a c (u, v, e, p, q) h =
      append-Covers t u v _ c e (visit_block-Covers ss v _ _ q (visit_stmt-Covers s u a c p h))

  pub visit_parts-Covers :
      (x : Parts) (t : List MethodCall) (a c : ReentrancyVisitor)
      → WalkOfParts x t
      → Covers a c
      → Covers (visit_parts x a) (run_calls t c)
  visit_parts-Covers no_parts t a c r h = empty-Covers t a c r h
  visit_parts-Covers (expr_part x ps) t a c (u, v, e, p, q) h =
      append-Covers t u v _ c e (visit_parts-Covers ps v _ _ q (visit_expr-Covers x u a c p h))
  visit_parts-Covers (block_part b ps) t a c (u, v, e, p, q) h =
      append-Covers t u v _ c e (visit_parts-Covers ps v _ _ q (visit_block-Covers b u a c p h))
  visit_parts-Covers (macro_part m ps) t a c r h = visit_parts-Covers ps t a c r h

-- Behind a write, calls that are no reads keep the risk, and the next external call gets its line
-- recorded, unless one is recorded already.
run_calls-at_risk :
    (mid : List MethodCall) (s : ReentrancyVisitor)
    → at_risk s ≡ true
    → any is_storage_read mid ≡ false
    → at_risk (run_calls mid s) ≡ true
unfolding on_call
run_calls-at_risk [] s r h = r
run_calls-at_risk (m ∷ mid) s r h =
    run_calls-at_risk mid (on_call s m) (ground (arith, r, h)) (ground (arith, h))

on_call-write :
    (s : ReentrancyVisitor) (w : MethodCall)
    → is_storage_write w ≡ true
    → at_risk (on_call s w) ≡ true
unfolding on_call
on_call-write s w h = ground (arith, h)

-- the name of an external call is no name of a storage call
invoke-not_storage :
    (c : MethodCall)
    → is_invoke_contract c ≡ true
    → (is_storage_write c ≡ false) × (is_storage_read c ≡ false)
unfolding is_invoke_contract is_storage_write is_storage_read
invoke-not_storage c h =
    let other = λ (names : List String).
      contains-disjoint ("invoke_contract" ∷ "invoke_contract_check" ∷ []) names c.method in
    (
      ground (arith, h, other ("set" ∷ "remove" ∷ "append" ∷ []) refl h),
      ground (arith, h, other ("get" ∷ "get_unchecked" ∷ "has" ∷ []) refl h),
    )

on_call-invoke :
    (s : ReentrancyVisitor) (c : MethodCall)
    → at_risk s ≡ true
    → is_invoke_contract c ≡ true
    → is_none (on_call s c).invoke_after_write_line ≡ false
unfolding on_call
on_call-invoke s c r h = ground (arith, r, h, invoke-not_storage c h)

run_calls-keeps :
    (ms : List MethodCall) (s : ReentrancyVisitor)
    → is_none s.invoke_after_write_line ≡ false
    → is_none (run_calls ms s).invoke_after_write_line ≡ false
unfolding on_call
run_calls-keeps [] s h = h
run_calls-keeps (m ∷ ms) s h = run_calls-keeps ms (on_call s m) (ground (arith, h))

pub run_calls-risky :
    (pre mid post : List MethodCall) (w c : MethodCall) (s : ReentrancyVisitor)
    → is_storage_write w ≡ true
    → any is_storage_read mid ≡ false
    → is_invoke_contract c ≡ true
    → is_none (run_calls (pre ++ (w ∷ (mid ++ (c ∷ post)))) s).invoke_after_write_line ≡ false
run_calls-risky pre mid post w c s hw hm hc =
    rw (run_calls-append pre (w ∷ (mid ++ (c ∷ post))) s) (
      rw (run_calls-append mid (c ∷ post) (on_call (run_calls pre s) w)) (
        run_calls-keeps post _ (
          on_call-invoke _ c (run_calls-at_risk mid _ (on_call-write (run_calls pre s) w hw) hm)
            hc)))
