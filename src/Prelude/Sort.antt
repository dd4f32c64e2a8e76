-- ===== src/Prelude/Sort.antt =====
-- `sort_by`: a stable sort by a comparison, as `leb a b` for "a stays in front of b".
use mathlib.Core.Path.{◌≡◌, refl}
use mathlib.Core.Logic.{◌⊎◌, inl, inr}
use mathlib.Core.Bool.{Bool, true}
use mathlib.Core.List.{List, [], ◌∷◌, Perm}
use mathlib.Core.List.Perm
use native.Mathlib.Omega.{arith}
use guard_cli.Prelude.Tests.{if◌then◌else◌, Bool-cases}
use guard_cli.Prelude.Lists.{any, All, All-map}

module _ {ℓ} {A : Type ℓ} (le : A → A → Bool) where
  -- in front of the first element that it does not exceed: equal elements keep their order
  unfoldable pub insert_sorted : A → List A → List A
  insert_sorted x [] = x ∷ []
  insert_sorted x (y ∷ ys) =
      let rest = insert_sorted x ys in if le x y then x ∷ y ∷ ys else y ∷ rest

  unfoldable pub sort : List A → List A
  unfolding insert_sorted
  sort [] = []
  sort (x ∷ xs) = insert_sorted x (sort xs)

  abbrev pub IsSorted : List A → Type ℓ
  IsSorted [] = Unit
  IsSorted (x ∷ xs) = All (λ y. le x y ≡ true) xs × IsSorted xs

module _ {ℓ} {A : Type ℓ} (le : A → A → Bool) where
  pub insert_sorted-perm : (x : A) (ys : List A) → Perm (insert_sorted le x ys) (x ∷ ys)
  unfolding insert_sorted
  insert_sorted-perm x [] = Perm.refl _
  insert_sorted-perm x (y ∷ ys) = elim (Bool-cases (le x y)) [
    | inl e ↦ rw e (Perm.refl _)
    | inr e ↦ rw e (Perm.trans (Perm.cons y (insert_sorted-perm x ys)) (Perm.swap _ _ _))
  ]

  any-insert_sorted :
      (p : A → Bool) (x : A) (ys : List A) → any p (insert_sorted le x ys) ≡ any p (x ∷ ys)
  unfolding insert_sorted
  any-insert_sorted p x [] = refl
  any-insert_sorted p x (y ∷ ys) = ground (arith, any-insert_sorted p x ys)

  pub any-sort : (p : A → Bool) (xs : List A) → any p (sort le xs) ≡ any p xs
  unfolding sort
  any-sort p [] = refl
  any-sort p (x ∷ xs) = ground (arith, any-insert_sorted p x (sort le xs), any-sort p xs)

  pub sort-perm : (xs : List A) → Perm (sort le xs) xs
  unfolding sort
  sort-perm [] = Perm.refl _
  sort-perm (x ∷ xs) = Perm.trans (insert_sorted-perm x (sort le xs)) (Perm.cons x (sort-perm xs))

  pub All-insert_sorted {κ} :
      (P : A → Type κ) (x : A) (ys : List A) → P x → All P ys → All P (insert_sorted le x ys)
  unfolding insert_sorted
  All-insert_sorted P x [] p h = (p, tt)
  All-insert_sorted P x (y ∷ ys) p (q, h) = elim (Bool-cases (le x y)) [
    | inl e ↦ rw e (p, (q, h))
    | inr e ↦ rw e (q, All-insert_sorted P x ys p h)
  ]

  pub All-sort {κ} : (P : A → Type κ) (xs : List A) → All P xs → All P (sort le xs)
  unfolding sort
  All-sort P [] h = tt
  All-sort P (x ∷ xs) (p, h) = All-insert_sorted P x (sort le xs) p (All-sort P xs h)

-- The order is total and transitive.
module _ {ℓ} {A : Type ℓ} (le : A → A → Bool)
    (total : (a b : A) → (le a b ≡ true) ⊎ (le b a ≡ true))
    (trans : (a b c : A) → le a b ≡ true → le b c ≡ true → le a c ≡ true) where
  insert_sorted-IsSorted :
      (x : A) (ys : List A) → IsSorted le ys → IsSorted le (insert_sorted le x ys)
  unfolding insert_sorted
  insert_sorted-IsSorted x [] h = (tt, tt)
  insert_sorted-IsSorted x (y ∷ ys) (below, h) = elim (Bool-cases (le x y)) [
    | inl e ↦ rw e ((e, All-map (λ z. trans x y z e) ys below), (below, h))
    | inr e ↦ rw e (
      All-insert_sorted le _ x ys (ground (arith, total x y, e)) below,
      insert_sorted-IsSorted x ys h,
    )
  ]

  pub sort-IsSorted : (xs : List A) → IsSorted le (sort le xs)
  unfolding sort
  sort-IsSorted [] = tt
  sort-IsSorted (x ∷ xs) = insert_sorted-IsSorted x (sort le xs) (sort-IsSorted xs)
