-- ===== src/Prelude/Maps.antt =====
-- `BTreeMap`, as the list of its entries in key order, and `HashMap`, whose order the program never
-- reads, as an association list. Both are changed through the entry of one key.
use mathlib.Core.Path.{◌≡◌, refl, ap}
use mathlib.Core.Logic.{◌⊎◌, inl, inr}
use mathlib.Core.Bool.{Bool, true, false}
use mathlib.Core.Option.{Option, none, some}
use mathlib.Core.List.{List, [], ◌∷◌}
use native.Mathlib.Omega.{arith}
use guard_cli.Prelude.Tests.{if◌then◌else◌, Eq, ◌==◌, Bool-cases}
use guard_cli.Prelude.Lists.{All, All-map}

-- Rust's `Ord`, as `a <= b`.
pub record Ord {ℓ} (A : Type ℓ) : Type ℓ where
  pub leb : A → A → Bool
  pub total : (a b : A) → (leb a b ≡ true) ⊎ (leb b a ≡ true)
  pub trans : (a b c : A) → leb a b ≡ true → leb b c ≡ true → leb a c ≡ true
  pub antisymm : (a b : A) → leb a b ≡ true → leb b a ≡ true → a ≡ b

module _ {ℓ κ} {K : Type ℓ} {V : Type κ} ⦃e : Eq K⦄ where
  -- `get`
  unfoldable pub lookup : (key : K) (entries : List (K × V)) → Option V
  lookup key [] = none
  lookup key ((j, value) ∷ entries) =
      let later = lookup key entries in if j == key then some value else later

  -- the entry of `k` in a `HashMap`: what was there, if anything, is replaced by `f` of it
  unfoldable pub hash_entry : K → (Option V → V) → List (K × V) → List (K × V)
  hash_entry k f [] = (k, f none) ∷ []
  hash_entry k f ((j, v) ∷ m) =
      let rest = hash_entry k f m in if j == k then (j, f (some v)) ∷ m else (j, v) ∷ rest

  pub lookup-hash_entry :
      (k j : K) (f : Option V → V) (m : List (K × V))
      → lookup j (hash_entry k f m) ≡ (if k == j then some (f (lookup k m)) else lookup j m)
  unfolding lookup hash_entry
  lookup-hash_entry k j f [] = refl
  lookup-hash_entry k j f ((i, v) ∷ m) =
      ground (arith, e.beq_iff i k, e.beq_iff i j, e.beq_iff k j, lookup-hash_entry k j f m)

module _ {ℓ κ} {K : Type ℓ} {V : Type κ} ⦃e : Eq K⦄ ⦃o : Ord K⦄ where
  -- the entry of `k` in a `BTreeMap`, put where the key order wants it
  unfoldable pub tree_entry : K → (Option V → V) → List (K × V) → List (K × V)
  tree_entry k f [] = (k, f none) ∷ []
  tree_entry k f ((j, v) ∷ m) =
      let rest = tree_entry k f m in
      if j == k
      then (j, f (some v)) ∷ m
      else if o.leb k j
      then (k, f none) ∷ (j, v) ∷ m
      else (j, v) ∷ rest

  abbrev pub Below : K → K × V → Type 0
  Below k p = (o.leb k p.0 ≡ true) × ((p.0 == k) ≡ false)

  -- The keys ascend strictly.
  abbrev pub IsOrdered : List (K × V) → Type 0
  IsOrdered [] = Unit
  IsOrdered ((k, v) ∷ m) = All (Below k) m × IsOrdered m

  Below-trans : (k j : K) (p : K × V) → o.leb k j ≡ true → (j == k) ≡ false → Below j p → Below k p
  Below-trans k j (i, v) h n (b, c) = (
    o.trans k j i h b,
    elim (Bool-cases (i == k)) [
      | inl same ↦ ground (
        arith,
        e.beq_iff i k,
        e.beq_iff j k,
        o.antisymm j k,
        same,
        n,
        h,
        b,
        ap (o.leb j) ((e.beq_iff i k).0 same),
      )
      | inr other ↦ other
    ],
  )

  lookup-Below : (k : K) (m : List (K × V)) → All (Below k) m → lookup k m ≡ none
  unfolding lookup
  lookup-Below k [] h = refl
  lookup-Below k ((j, v) ∷ m) ((b, c), h) = ground (arith, lookup-Below k m h)

  pub lookup-tree_entry :
      (k j : K) (f : Option V → V) (m : List (K × V))
      → IsOrdered m
      → lookup j (tree_entry k f m) ≡ (if k == j then some (f (lookup k m)) else lookup j m)
  unfolding lookup tree_entry
  lookup-tree_entry k j f [] h = refl
  lookup-tree_entry k j f ((i, v) ∷ m) (b, h) = elim (Bool-cases (i == k)) [
    | inl same ↦ ground (arith, e.beq_iff i k, e.beq_iff i j, e.beq_iff k j)
    | inr other ↦ elim (Bool-cases (o.leb k i)) [
      | inl under ↦
          let gone = lookup-Below k m (All-map (λ p. Below-trans k i p under other) m b) in
          ground (arith, gone, other, under)
      | inr over ↦ ground (
        arith,
        other,
        over,
        e.beq_iff i k,
        e.beq_iff i j,
        e.beq_iff k j,
        lookup-tree_entry k j f m h,
      )
    ]
  ]

  All-tree_entry :
      (i k : K) (f : Option V → V) (m : List (K × V))
      → o.leb i k ≡ true
      → (k == i) ≡ false
      → All (Below i) m
      → All (Below i) (tree_entry k f m)
  unfolding tree_entry
  All-tree_entry i k f [] h n b = ((h, n), tt)
  All-tree_entry i k f ((j, v) ∷ m) h n (b, bs) = ground (arith, All-tree_entry i k f m h n bs)

  pub tree_entry-IsOrdered :
      (k : K) (f : Option V → V) (m : List (K × V)) → IsOrdered m → IsOrdered (tree_entry k f m)
  unfolding tree_entry
  tree_entry-IsOrdered k f [] h = (tt, tt)
  tree_entry-IsOrdered k f ((j, v) ∷ m) (b, h) = elim (Bool-cases (j == k)) [
    | inl same ↦ rw same (b, h)
    | inr other ↦ elim (Bool-cases (o.leb k j)) [
      | inl under ↦
          rw (other, under)
            (((under, other), All-map (λ p. Below-trans k j p under other) m b), (b, h))
      | inr over ↦
          rw (other, over)
            (
              All-tree_entry j k f m (ground (arith, o.total j k, over))
                  (ground (arith, e.beq_iff j k, e.beq_iff k j, other)) b,
              tree_entry-IsOrdered k f m h,
            )
    ]
  ]
