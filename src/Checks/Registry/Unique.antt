-- ===== src/Checks/Registry/Unique.antt =====
-- The names of the registered checks.
use guard_cli.Prelude.{
  String, ◌≡◌, refl, ap, ◌∙◌, ◌↔◌, Bool, true, false, not, ◌&&◌, List, [], ◌∷◌, map, arith, ok, inl,
  inr, Bool-cases, contains, distinct, retain, all, ◌==◌, string_eq,
}
use guard_cli.Checks.Registry.{
  Detector, name, all_checks_base, ensure_unique_from, ensure_unique_check_names, and_return,
  configure, default_checks_with_config, unprotected_admin_check,
}

-- no check has a name that was seen
abbrev fresh : List String → List Detector → Bool
fresh seen checks = all (λ n. not (contains seen n)) (map name checks)

fresh-cons :
    (n : String) (seen : List String) (ns : List String)
    → all (λ m. not (contains (n ∷ seen) m)) ns
      ≡ (not (contains ns n) && all (λ m. not (contains seen m)) ns)
fresh-cons n seen [] = refl
fresh-cons n seen (m ∷ ns) =
    ground (arith, fresh-cons n seen ns, string_eq.beq_iff n m, string_eq.beq_iff m n)

ensure_unique_from_lem :
    (seen : List String) (checks : List Detector)
    → (ensure_unique_from seen checks ≡ ok tt)
      ↔ ((distinct (map name checks) && fresh seen checks) ≡ true)
unfolding ensure_unique_from
ensure_unique_from_lem seen [] = ground arith
ensure_unique_from_lem seen (c ∷ cs) =
    ground
      (arith, ensure_unique_from_lem (name c ∷ seen) cs, fresh-cons (name c) seen (map name cs))

all-not-contains-nil : (ns : List String) → all (λ m. not (contains [] m)) ns ≡ true
all-not-contains-nil [] = refl
all-not-contains-nil (n ∷ ns) = all-not-contains-nil ns

-- The assertion passes exactly when no two checks of the list have one name.
pub ensure_unique_check_names-iff-distinct :
    (checks : List Detector)
    → (ensure_unique_check_names checks ≡ ok tt) ↔ (distinct (map name checks) ≡ true)
unfolding ensure_unique_check_names
ensure_unique_check_names-iff-distinct checks =
    ground (arith, ensure_unique_from_lem [] checks, all-not-contains-nil (map name checks))

name-configure : (extra : List String) (c : Detector) → name (configure extra c) ≡ name c
unfolding configure name
name-configure extra c = elim (Bool-cases (name c == name (unprotected_admin_check []))) [
  | inl same ↦
      rw same (ground (arith, string_eq.beq_iff (name c) (name (unprotected_admin_check []))))
  | inr other ↦ rw other
]

names-configure :
    (extra : List String) (cs : List Detector) → map name (map (configure extra) cs) ≡ map name cs
names-configure extra [] = refl
names-configure extra (c ∷ cs) = cc (name-configure extra c, names-configure extra cs)

names-retain :
    (p : String → Bool) (cs : List Detector)
    → map name (retain (λ c. p (name c)) cs) ≡ retain p (map name cs)
names-retain p [] = refl
names-retain p (c ∷ cs) = ground (arith, names-retain p cs)

contains-retain :
    (p : String → Bool) (ns : List String) (n : String)
    → contains ns n ≡ false
    → contains (retain p ns) n ≡ false
contains-retain p [] n h = refl
contains-retain p (m ∷ ns) n h = ground (arith, contains-retain p ns n)

distinct-retain :
    (p : String → Bool) (ns : List String) → distinct ns ≡ true → distinct (retain p ns) ≡ true
distinct-retain p [] h = refl
distinct-retain p (m ∷ ns) h = ground (arith, distinct-retain p ns, contains-retain p ns m)

distinct-names-all_checks_base : distinct (map name all_checks_base) ≡ true
unfolding all_checks_base name
distinct-names-all_checks_base = refl

-- Whatever the config file disables or adds, the construction does not panic, the names of the
-- checks are those of the registry without the disabled ones, in the registry's order, and no
-- name stands twice.
pub default_checks_with_config-ok :
    (disabled extra : List String)
    → (checks : List Detector) × (default_checks_with_config disabled extra ≡ ok checks)
      × (map name checks ≡ retain (λ n. not (contains disabled n)) (map name all_checks_base))
      × (distinct (map name checks) ≡ true)
default_checks_with_config-ok disabled extra =
    let keep = λ (n : String). not (contains disabled n) in
    let checks = retain (λ c. keep (name c)) (map (configure extra) all_checks_base) in
    let names : map name checks ≡ retain keep (map name all_checks_base) =
      names-retain keep (map (configure extra) all_checks_base)
      ∙ ap (retain keep) (names-configure extra all_checks_base) in
    let once : distinct (map name checks) ≡ true =
      rw names (distinct-retain keep (map name all_checks_base) distinct-names-all_checks_base) in
    (
      checks,
      unfold default_checks_with_config in
          rw ((ensure_unique_check_names-iff-distinct checks).1 once, and_return),
      names,
      once,
    )
