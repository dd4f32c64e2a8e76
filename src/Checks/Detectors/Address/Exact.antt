-- ===== src/Checks/Detectors/Address/Exact.antt =====
-- `find_candidate_keys` misses no key, since keys between boundaries do not overlap.
use Prim.Native.Char.{Char, code}
use Prim.Native.String.{String, [] as no_text, ◌∷◌ as ◌::◌}
use guard_cli.Prelude.{
  ℕ, not, zero, suc, ◌≡◌, refl, sym, ap, ◌∙◌, ◌↔◌, inl, inr, Bool, true, false, some, List, ◌∷◌,
  nat_eq, nat_beq_iff, string_eq, contains, arith, Option-cases, beq_self,
}
use guard_cli.Checks.Detectors.Address.Keys.{
  key_len, is_word_char, ends_here, key_of_length, starts_key, key_at, keys_from,
  find_candidate_keys,
}
use guard_cli.Checks.Detectors.Address.Places.{
  is_address, StandsAlone, is_address_lem, starts_word_lem, ends_word_lem,
}
use guard_cli.Checks.Detectors.Address.Boundaries.{
  chars, ◌⊕◌, all_strkey, is_key, ends_inside, skip_ok, key-skip_ok, key_of_length-found,
  starts_key-append, key_at-some, keys_from-none, keys_from-some, keys_from-Holds,
}

is_key-parts :
    (key : String)
    → is_key key ≡ true
    → (starts_key key ≡ true) × (all_strkey key ≡ true) × (chars key ≡ key_len)
is_key-parts key h =
    (ground (arith, h), ground (arith, h), (nat_beq_iff (chars key) key_len).0 (ground (arith, h)))

key_at-found :
    (key post : String)
    → is_key key ≡ true
    → ends_here post ≡ true
    → key_at false (key ⊕ post) ≡ some key
unfolding key_at
key_at-found key post h back =
    let (start, strkey, len) = is_key-parts key h in
    let found =
      ap (λ n. key_of_length n (key ⊕ post)) (sym len) ∙ key_of_length-found key post strkey back in
    ground (arith, found, start, starts_key-append key post 55 len)

keys_from-skip :
    (inside : Bool) (n : ℕ) (c : Char) (s : String)
    → keys_from inside (suc n) (c :: s) ≡ keys_from (is_word_char (code c)) n s
unfolding keys_from
keys_from-skip inside n c s = refl

-- behind a key that was found
found-skip_ok :
    (inside : Bool) (c : Char) (s found : String)
    → key_at inside (c :: s) ≡ some found
    → skip_ok (is_word_char (code c)) 55 s ≡ true
found-skip_ok inside c s found e =
    let (front, start, long) = key_at-some inside (c :: s) found e in
    key-skip_ok key_len (c :: s) found long

contains-rest :
    (first key : String) (keys : List String)
    → contains keys key ≡ true
    → contains (first ∷ keys) key ≡ true
contains-rest first key keys h = ground (arith, h)

keys_from-finds :
    (inside : Bool) (skip : ℕ) (pre key post : String)
    → is_key key ≡ true
    → skip_ok inside skip (pre ⊕ (key ⊕ post)) ≡ true
    → ends_inside inside pre ≡ false
    → ends_here post ≡ true
    → contains (keys_from inside skip (pre ⊕ (key ⊕ post))) key ≡ true
keys_from-finds inside skip no_text no_text post good skipped front back = cc
keys_from-finds inside (suc n) no_text (c :: key) post good skipped front back =
    absurd (ground (arith, skipped, front))
keys_from-finds inside zero no_text (c :: key) post good skipped front back =
    let here : key_at inside (c :: (key ⊕ post)) ≡ some (c :: key) =
      ap (λ b. key_at b (c :: (key ⊕ post))) front ∙ key_at-found (c :: key) post good back in
    ap (λ ks. contains ks (c :: key)) (keys_from-some inside c (key ⊕ post) (c :: key) here)
    ∙ ground (arith, beq_self (c :: key))
keys_from-finds inside (suc n) (c :: pre) key post good skipped front back =
    ap (λ ks. contains ks key) (keys_from-skip inside n c (pre ⊕ (key ⊕ post)))
    ∙ keys_from-finds (is_word_char (code c)) n pre key post good (ground (arith, skipped)) front
        back
keys_from-finds inside zero (c :: pre) key post good skipped front back =
    let s = pre ⊕ (key ⊕ post) in
    elim (Option-cases (key_at inside (c :: s))) [
      | inl e ↦
          ap (λ ks. contains ks key) (keys_from-none inside c s e)
          ∙ keys_from-finds (is_word_char (code c)) 0 pre key post good refl front back
      | inr (found, e) ↦
          ap (λ ks. contains ks key) (keys_from-some inside c s found e)
          ∙ contains-rest found key (keys_from (is_word_char (code c)) 55 s) (
              keys_from-finds (is_word_char (code c)) 55 pre key post good
                (found-skip_ok inside c s found e) front back)
    ]

not-true : {b : Bool} → not b ≡ true → b ≡ false
not-true h = ground (arith, h)

-- A text is among the candidate keys of a line exactly if it consists of 56 characters `A` to `Z` and `2` to
-- `7`, the first of them `G` or `C`, and stands somewhere in the line with no letter, digit or `_`
-- directly in front of it or behind it.
pub find_candidate_keys-exact :
    (line key : String)
    → (contains (find_candidate_keys line) key ≡ true)
      ↔ ((is_address key ≡ true) × StandsAlone line key)
unfolding find_candidate_keys
find_candidate_keys-exact line key = (
  (λ h.
      let (good, (pre, post, split, front, back)) = keys_from-Holds false 0 line key h in
      (
        sym (is_address_lem key) ∙ good,
        (
          pre,
          post,
          split,
          sym (ends_word_lem pre) ∙ front,
          not-true (sym (starts_word_lem post) ∙ back),
        ),
      )),
  λ h.
      let (good, (pre, post, split, front, back)) = h in
      rw split (
        keys_from-finds false 0 pre key post (is_address_lem key ∙ good) refl
          (ends_word_lem pre ∙ front) (starts_word_lem post ∙ ap not back)),
)
