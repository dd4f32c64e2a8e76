-- ===== src/Checks/Detectors/Stamp/Lists.antt =====
-- A finding with its check name and no path yet, and tests that every element of a list passes.
use guard_cli.Prelude.{
  String, ◌≡◌, refl, Bool, true, ◌&&◌, List, [], ◌∷◌, ◌++◌, map, flat, if◌then◌else◌, ◌==◌,
  string_eq, all, arith,
}
use guard_cli.Checks.Finding.{Finding}

-- a finding under this name, with no path yet
abbrev pub stamped : String → Finding → Bool
stamped check f = f.check_name == check && f.file_path == ""

module _ {ℓ} {A : Type ℓ} (p : A → Bool) where
  pub all-append : (xs ys : List A) → all p xs ≡ true → all p ys ≡ true → all p (xs ++ ys) ≡ true
  all-append [] ys h k = k
  all-append (x ∷ xs) ys h k = ground (arith, all-append xs ys, h, k)

  pub all-if :
      (b : Bool) (x : A) (xs : List A)
      → p x ≡ true
      → all p xs ≡ true
      → all p (if b then x ∷ xs else xs) ≡ true
  all-if b x xs h k = ground (arith, h, k)

  pub all-unless : (b : Bool) (xs : List A) → all p xs ≡ true → all p (if b then [] else xs) ≡ true
  all-unless b xs h = ground (arith, h)

  pub all-map {κ} :
      {B : Type κ} (f : B → A) (xs : List B) → ((x : B) → p (f x) ≡ true) → all p (map f xs) ≡ true
  all-map f [] h = refl
  all-map f (x ∷ xs) h = ground (arith, all-map f xs h, h x)

  pub all-over {κ} :
      {B : Type κ} (f : B → List A) (xs : List B)
      → ((x : B) → all p (f x) ≡ true)
      → all p (flat (map f xs)) ≡ true
  all-over f [] h = refl
  all-over f (x ∷ xs) h = all-append (f x) (flat (map f xs)) (h x) (all-over f xs h)
