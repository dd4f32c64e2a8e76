-- ===== src/Checks/Detectors/InputLength/Laws.antt =====
-- Which parameters crates/checks/src/missing_input_length_bound.rs reports.
use guard_cli.Prelude.{
  String, ◌≡◌, refl, ap, Bool, true, false, not, ◌||◌, List, [], ◌∷◌, map, if◌then◌else◌, any,
  retain, arith, Bool-cases, inl, inr,
}
use guard_cli.Checks.Ast.{Method}
use guard_cli.Checks.Syntax.Walk.{MethodCall, method_calls}
use guard_cli.Checks.Detectors.InputLength.{
  checks_length, length_visits, has_length_check, length_finding, find_bytes_vec_params,
  param_findings, run_method,
}

length_visits-any :
    (name : String) (found : Bool) (ms : List MethodCall)
    → length_visits name found ms ≡ (found || any (checks_length name) ms)
unfolding length_visits
length_visits-any name found [] = ground arith
length_visits-any name found (m ∷ ms) =
    ground (arith, length_visits-any name (if checks_length name m then true else found) ms)

-- no call of the body asks for the parameter's length
abbrev pub unchecked : Method → String × String → Bool
unchecked method p = not (any (checks_length p.0) (method_calls method.block))

unchecked_lem :
    (method : Method) (p : String × String)
    → not (has_length_check method.block p.0) ≡ unchecked method p
unfolding has_length_check
unchecked_lem method p = ap not (length_visits-any p.0 false (method_calls method.block))

param_findings-retain :
    (method : Method) (params : List (String × String))
    → param_findings method params
      ≡ map (λ (p : String × String). length_finding method p.0) (retain (unchecked method) params)
unfolding param_findings
param_findings-retain method [] = refl
param_findings-retain method ((name, ty) ∷ params) =
    elim (Bool-cases (unchecked method (name, ty))) [
      | inl e ↦
          rw (unchecked_lem method (name, ty), e)
            (ap (◌∷◌ (length_finding method name)) (param_findings-retain method params))
      | inr e ↦ rw (unchecked_lem method (name, ty), e) (param_findings-retain method params)
    ]

-- A public method is reported once for each of its parameters of an unbounded type, in their order, whose length
-- no call of the body asks for; a method that is not public is not reported.
pub input_length_run_method-reports :
    (method : Method)
    → run_method method ≡ (
        if method.is_public
        then map
            (λ (p : String × String). length_finding method p.0)
            (retain (unchecked method) (find_bytes_vec_params method.inputs))
        else [])
unfolding run_method
input_length_run_method-reports method =
    ap (λ fs. if method.is_public then fs else [])
      (param_findings-retain method (find_bytes_vec_params method.inputs))
