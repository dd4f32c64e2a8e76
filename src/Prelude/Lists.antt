-- ===== src/Prelude/Lists.antt =====
-- Lists: measures over the native numbers, Boolean searches, and what holds of every element.
use Prim.Native.Nat.{ℕ, zero, suc, ◌+◌, ◌≤◌, min}
use mathlib.Core.Path.{◌≡◌, refl, sym, ap}
use mathlib.Core.Logic.{inl, inr}
use mathlib.Core.Bool.{Bool, true, false, not, ◌&&◌, ◌||◌}
use mathlib.Core.Option.{Option, none, some}
use mathlib.Core.List.{List, [], ◌∷◌, ◌++◌, map}
use native.Mathlib.Omega.{arith}
use guard_cli.Prelude.Tests.{if◌then◌else◌, Eq, ◌==◌, Bool-cases, Result, ok}

module _ {ℓ} {A : Type ℓ} where
  abbrev pub length : List A → ℕ
  length [] = 0
  length (x ∷ xs) = suc (length xs)

  abbrev pub any : (A → Bool) → List A → Bool
  any p [] = false
  any p (x ∷ xs) = p x || any p xs

  abbrev pub all : (A → Bool) → List A → Bool
  all p [] = true
  all p (x ∷ xs) = p x && all p xs

  -- `Iterator::find`
  abbrev pub find : (A → Bool) → List A → Option A
  find p [] = none
  find p (x ∷ xs) = if p x then some x else find p xs

  -- `Vec::retain` and `Iterator::filter`
  abbrev pub retain : (A → Bool) → List A → List A
  retain p [] = []
  retain p (x ∷ xs) = if p x then x ∷ retain p xs else retain p xs

  abbrev pub is_empty : List A → Bool
  is_empty [] = true
  is_empty (x ∷ xs) = false

  -- `flatten`
  abbrev pub flat : List (List A) → List A
  flat [] = []
  flat (xs ∷ xss) = xs ++ flat xss

  abbrev pub take : ℕ → List A → List A
  take zero xs = []
  take (suc n) [] = []
  take (suc n) (x ∷ xs) = x ∷ take n xs

  abbrev pub drop : ℕ → List A → List A
  drop zero xs = xs
  drop (suc n) [] = []
  drop (suc n) (x ∷ xs) = drop n xs

  pub length-append : (xs ys : List A) → length (xs ++ ys) ≡ length xs + length ys
  length-append [] ys = omega arith
  length-append (x ∷ xs) ys = omega (arith, length-append xs ys)

  pub length-take : (n : ℕ) (xs : List A) → length (take n xs) ≡ min n (length xs)
  length-take zero xs = omega arith
  length-take (suc n) [] = omega arith
  length-take (suc n) (x ∷ xs) = omega (arith, length-take n xs)

  pub take-append-drop : (n : ℕ) (xs : List A) → take n xs ++ drop n xs ≡ xs
  take-append-drop zero xs = refl
  take-append-drop (suc n) [] = refl
  take-append-drop (suc n) (x ∷ xs) = ap (◌∷◌ x) (take-append-drop n xs)

  pub length-retain : (p : A → Bool) (xs : List A) → length (retain p xs) ≤ length xs
  length-retain p [] = omega arith
  length-retain p (x ∷ xs) = ground (arith, length-retain p xs)

  pub any-append : (p : A → Bool) (xs ys : List A) → any p (xs ++ ys) ≡ (any p xs || any p ys)
  any-append p [] ys = refl
  any-append p (x ∷ xs) ys = ground (arith, any-append p xs ys)

  pub any-retain : (p q : A → Bool) (xs : List A) → any q (retain p xs) ≡ any (λ x. p x && q x) xs
  any-retain p q [] = refl
  any-retain p q (x ∷ xs) = ground (arith, any-retain p q xs)

  pub find-any : (p : A → Bool) (xs : List A) → find p xs ≡ none → any p xs ≡ false
  find-any p [] h = refl
  find-any p (x ∷ xs) h = ground (arith, find-any p xs)

  pub find-some : (p : A → Bool) (xs : List A) {x : A} → find p xs ≡ some x → p x ≡ true
  find-some p [] h = cc
  find-some p (y ∷ xs) {x} h = elim (Bool-cases (p y)) [
    | inl e ↦ ground (arith, e)
    | inr e ↦ find-some p xs (ground (arith, e))
  ]

module _ {ℓ κ} {A : Type ℓ} where
  -- What holds of each element.
  abbrev pub All : (A → Type κ) → List A → Type κ
  All P [] = Unit
  All P (x ∷ xs) = P x × All P xs

  pub All-append : (P : A → Type κ) (xs ys : List A) → All P xs → All P ys → All P (xs ++ ys)
  All-append P [] ys h k = k
  All-append P (x ∷ xs) ys (p, h) k = (p, All-append P xs ys h k)

  pub All-map : {P Q : A → Type κ} (f : (x : A) → P x → Q x) (xs : List A) → All P xs → All Q xs
  All-map f [] h = tt
  All-map f (x ∷ xs) (p, h) = (f x p, All-map f xs h)

module _ {ℓ κ} {A : Type ℓ} (P : A → Type κ) where
  -- What holds of each element that passes the test, holds of each that is retained.
  pub All-retain :
      (p : A → Bool) (xs : List A) → All (λ x. p x ≡ true → P x) xs → All P (retain p xs)
  All-retain p [] h = tt
  All-retain p (x ∷ xs) (q, h) = elim (Bool-cases (p x)) [
    | inl e ↦ rw e (q e, All-retain p xs h)
    | inr e ↦ rw e (All-retain p xs h)
  ]

  pub All-of_forall : ((x : A) → P x) → (xs : List A) → All P xs
  All-of_forall f [] = tt
  All-of_forall f (x ∷ xs) = (f x, All-of_forall f xs)

  pub All-flat : (xss : List (List A)) → All (All P) xss → All P (flat xss)
  All-flat [] h = tt
  All-flat (xs ∷ xss) (p, h) = All-append P xs (flat xss) p (All-flat xss h)

  pub All-map-map {ι} :
      {B : Type ι} (f : B → A) (xs : List B) → All (λ x. P (f x)) xs → All P (map f xs)
  All-map-map f [] h = tt
  All-map-map f (x ∷ xs) (p, h) = (p, All-map-map f xs h)

module _ {ℓ} {A : Type ℓ} ⦃e : Eq A⦄ where
  -- membership in a `Vec` or a `HashSet`
  abbrev pub contains : List A → A → Bool
  contains xs a = any (λ x. x == a) xs

  -- no element stands twice
  abbrev pub distinct : List A → Bool
  distinct [] = true
  distinct (x ∷ xs) = not (contains xs x) && distinct xs

module _ {ℓ κ} {A : Type ℓ} {E : Type κ} where
  pub map-ok-injective : (xs ys : List A) → map {B = Result A E} ok xs ≡ map ok ys → xs ≡ ys
  map-ok-injective [] [] h = refl
  map-ok-injective [] (y ∷ ys) h = cc
  map-ok-injective (x ∷ xs) [] h = cc
  map-ok-injective (x ∷ xs) (y ∷ ys) h = ground (arith, map-ok-injective xs ys)

-- a name of one list is none of a list that shares no name with it
pub contains-disjoint {ℓ} :
    {A : Type ℓ} ⦃e : Eq A⦄ (xs ys : List A) (a : A)
    → all (λ x. not (contains ys x)) xs ≡ true
    → contains xs a ≡ true
    → contains ys a ≡ false
contains-disjoint [] ys a d h = cc
contains-disjoint ⦃e⦄ (x ∷ xs) ys a d h = elim (Bool-cases (x == a)) [
  | inl same ↦ rw (sym ((e.beq_iff x a).0 same)) (ground (arith, d))
  | inr other ↦ contains-disjoint xs ys a (ground (arith, d)) (ground (arith, h, other))
]
