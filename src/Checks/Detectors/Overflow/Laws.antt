-- ===== src/Checks/Detectors/Overflow/Laws.antt =====
-- Which expressions crates/checks/src/overflow.rs reports, against all the calls of the body at once, and how
-- they relate to those of division.rs.
use guard_cli.Prelude.{
  String, ◌≡◌, refl, ap, Bool, true, false, not, ◌&&◌, ◌||◌, List, [], ◌∷◌, map, any, retain,
  Bool-cases, inl, inr, arith, ◌++◌, ◌⊎◌, ◌↔◌, ◌∙◌, contains, string_eq, nat_eq,
}
use guard_cli.Prelude.Text.{starts_with}
use guard_cli.Checks.Ast.{Method}
use guard_cli.Checks.Syntax.{
  BinOp, add, sub, mul, add_assign, sub_assign, mul_assign, div, rem, div_assign, rem_assign,
  other_op, Expr, Exprs, no_args, arg, Stmts,
}
use guard_cli.Checks.Syntax.Walk.{MethodCall, method_calls, Binary, binaries}
use guard_cli.Checks.Detectors.Division.{flagged}
use guard_cli.Checks.Detectors.Overflow.{
  is_unchecked_binary, guards, safe_visits, uses_safe_arithmetic, overflow_finding, arith_visits,
  run_method, op_text, unchecked_op, is_literal_expr, operands_match,
}

-- No binary expression is reported as unchecked arithmetic and as a truncating division.
pub unchecked_and_division-disjoint : (e : Binary) → (is_unchecked_binary e && flagged e) ≡ false
unfolding is_unchecked_binary flagged
unchecked_and_division-disjoint e = ground arith

abbrev pub wrapping_ops : List String
wrapping_ops = "+" ∷ "-" ∷ "*" ∷ "+=" ∷ "-=" ∷ "*=" ∷ []

abbrev pub assign_ops : List String
assign_ops = "+=" ∷ "-=" ∷ "*=" ∷ []

-- an operation that can wrap: one of the six, not on literals alone
abbrev pub Wraps : Binary → Type 0
Wraps e =
    (contains wrapping_ops (op_text e.op) ≡ true)
    × ((is_literal_expr e.right && (contains assign_ops (op_text e.op) || is_literal_expr e.left))
        ≡ false)

unchecked_op-Wraps :
    (op : BinOp) (left right : Expr)
    → (unchecked_op op left right ≡ true) ↔ (
        (contains wrapping_ops (op_text op) ≡ true)
        × ((is_literal_expr right && (contains assign_ops (op_text op) || is_literal_expr left))
            ≡ false))
unchecked_op-Wraps add left right = ground arith
unchecked_op-Wraps sub left right = ground arith
unchecked_op-Wraps mul left right = ground arith
unchecked_op-Wraps add_assign left right = ground arith
unchecked_op-Wraps sub_assign left right = ground arith
unchecked_op-Wraps mul_assign left right = ground arith
unchecked_op-Wraps div left right = ground arith
unchecked_op-Wraps rem left right = ground arith
unchecked_op-Wraps div_assign left right = ground arith
unchecked_op-Wraps rem_assign left right = ground arith
unchecked_op-Wraps other_op left right = ground arith

unchecked-Wraps : (e : Binary) → (is_unchecked_binary e ≡ true) ↔ Wraps e
unfolding is_unchecked_binary
unchecked-Wraps e = unchecked_op-Wraps e.op e.left e.right

any-split :
    {A : Type 0} (p : A → Bool) (xs : List A)
    → any p xs ≡ true
    → (pre : List A) × (x : A) × (post : List A) × (xs ≡ pre ++ x ∷ post) × (p x ≡ true)
any-split p [] h = cc
any-split p (x ∷ xs) h = elim (Bool-cases (p x)) [
  | inl here ↦ ([], x, xs, refl, here)
  | inr other ↦
      let (pre, y, post, k, found) = any-split p xs (ground (arith, h, other)) in
      (x ∷ pre, y, post, ap (◌∷◌ x) k, found)
]

any-here :
    {A : Type 0} (p : A → Bool) (pre : List A) (x : A) (post : List A)
    → p x ≡ true
    → any p (pre ++ x ∷ post) ≡ true
any-here p [] x post h = ground (arith, h)
any-here p (y ∷ pre) x post h = ground (arith, any-here p pre x post h)

module _ (same_expr : Expr → Expr → Bool) where
  safe_visits-any :
      (e : Binary) (found : Bool) (calls : List MethodCall)
      → safe_visits same_expr e found calls ≡ (found || any (guards same_expr e) calls)
  unfolding safe_visits
  safe_visits-any e found [] = ground arith
  safe_visits-any e true (i ∷ is) = safe_visits-any e true is
  safe_visits-any e false (i ∷ is) = safe_visits-any e (guards same_expr e i) is

  -- an expression is reported: unchecked, and no call of the block guards it
  abbrev pub reported : Stmts → Binary → Bool
  reported block e = is_unchecked_binary e && not (any (guards same_expr e) (method_calls block))

  reported_lem :
      (block : Stmts) (e : Binary)
      → (is_unchecked_binary e && not (uses_safe_arithmetic same_expr block e)) ≡ reported block e
  unfolding uses_safe_arithmetic
  reported_lem block e =
      ap (λ b. is_unchecked_binary e && not b) (safe_visits-any e false (method_calls block))

  arith_visits-retain :
      (fn_name : String) (block : Stmts) (is : List Binary)
      → arith_visits same_expr fn_name block is
        ≡ map (overflow_finding fn_name) (retain (reported block) is)
  unfolding arith_visits
  arith_visits-retain fn_name block [] = refl
  arith_visits-retain fn_name block (i ∷ is) = elim (Bool-cases (reported block i)) [
    | inl e ↦
        rw (reported_lem block i, e)
          (ap (◌∷◌ (overflow_finding fn_name i)) (arith_visits-retain fn_name block is))
    | inr e ↦ rw (reported_lem block i, e) (arith_visits-retain fn_name block is)
  ]

  run_method-retain :
      (method : Method)
      → run_method same_expr method
        ≡ map
            (overflow_finding method.ident)
            (retain (reported method.block) (binaries method.block))
  unfolding run_method
  run_method-retain method = arith_visits-retain method.ident method.block (binaries method.block)

  -- the receiver and the first argument are the two operands, in one order or the other
  abbrev pub SameOperands : Binary → Expr → Exprs → Type 0
  SameOperands e receiver no_args = ⊥
  SameOperands e receiver (arg first args) =
      ((same_expr e.left receiver ≡ true) × (same_expr e.right first ≡ true))
      ⊎ ((same_expr e.right receiver ≡ true) × (same_expr e.left first ≡ true))

  abbrev pub Guards : Binary → MethodCall → Type 0
  Guards e c =
      ((starts_with c.method "checked_" || starts_with c.method "saturating_") ≡ true)
      × (c.line ≡ e.line)
      × SameOperands e c.receiver c.args

  -- some call of the block guards the expression
  abbrev pub IsGuarded : Stmts → Binary → Type 0
  IsGuarded block e =
      (pre : List MethodCall) × (c : MethodCall) × (post : List MethodCall) × (method_calls block
        ≡ pre ++ c ∷ post)
      × Guards e c

  operands_match-Same :
      (e : Binary) (receiver : Expr) (args : Exprs)
      → (operands_match same_expr e receiver args ≡ true) ↔ SameOperands e receiver args
  operands_match-Same e receiver no_args = (λ h. cc, λ h. absurd h)
  operands_match-Same e receiver (arg first args) = ground arith

  guards-Guards : (e : Binary) (c : MethodCall) → (guards same_expr e c ≡ true) ↔ Guards e c
  unfolding guards
  guards-Guards e c = (
    (λ h. (
      ground (arith, h),
      ground (arith, h),
      (operands_match-Same e c.receiver c.args).0 (ground (arith, h)),
    )),
    λ (safe, line, same).
        ground (arith, safe, line, (operands_match-Same e c.receiver c.args).1 same),
  )

  any-IsGuarded :
      (block : Stmts) (e : Binary)
      → (any (guards same_expr e) (method_calls block) ≡ true) ↔ IsGuarded block e
  any-IsGuarded block e = (
    (λ h.
        let (pre, c, post, k, g) = any-split (guards same_expr e) (method_calls block) h in
        (pre, c, post, k, (guards-Guards e c).0 g)),
    λ (pre, c, post, k, g).
        ap (any (guards same_expr e)) k
        ∙ any-here (guards same_expr e) pre c post ((guards-Guards e c).1 g),
  )

  -- A method is reported once for each of some of its binary expressions, in the order of the walk: those that
  -- add, subtract or multiply, with an operand that is no literal (of an assignment, the right one),
  -- and that no call of the method guards, where a guard is a call whose name begins with `checked_`
  -- or `saturating_`, on the line of the expression, with its two operands for the receiver and the
  -- first argument, in either order.
  pub overflow_run_method-reports :
      (method : Method)
      → (wanted : Binary → Bool) × (run_method same_expr method
          ≡ map (overflow_finding method.ident) (retain wanted (binaries method.block)))
        × ((e : Binary) → (wanted e ≡ true) ↔ (Wraps e × (IsGuarded method.block e → ⊥)))
  overflow_run_method-reports method = (
    reported method.block,
    run_method-retain method,
    λ e. (
      (λ h. (
        (unchecked-Wraps e).0 (ground (arith, h)),
        λ g. absurd (ground (arith, h, (any-IsGuarded method.block e).1 g)),
      )),
      λ (w, free). elim (Bool-cases (any (guards same_expr e) (method_calls method.block))) [
        | inl guarded ↦ absurd (free ((any-IsGuarded method.block e).0 guarded))
        | inr unguarded ↦ ground (arith, unguarded, (unchecked-Wraps e).1 w)
      ],
    ),
  )
