-- ===== src/Checks/Detectors/Address/Boundaries.antt =====
-- Which parts of a line `find_candidate_keys` returns.
use Prim.Native.Char.{Char, code}
use Prim.Native.String.{String, [] as no_text, ◌∷◌ as ◌::◌}
use guard_cli.Prelude.{
  ℕ, zero, suc, ◌≡◌, refl, sym, ap, ◌∙◌, inl, inr, Bool, true, false, ◌&&◌, none, some, ◌∷◌, ◌==◌,
  nat_eq, string_eq, contains, arith, Bool-cases, Option-cases,
}
use guard_cli.Checks.Detectors.Address.Keys.{
  key_len, is_strkey_char, is_word_char, ends_here, key_of_length, starts_key, key_at, keys_from,
}

abbrev pub chars : String → ℕ
chars no_text = 0
chars (c :: s) = suc (chars s)

-- one text behind another
infixr 5 ◌⊕◌
abbrev pub ◌⊕◌ : String → String → String
no_text ⊕ t = t
(c :: s) ⊕ t = c :: (s ⊕ t)

abbrev pub all_strkey : String → Bool
all_strkey no_text = true
all_strkey (c :: s) = is_strkey_char (code c) && all_strkey s

-- 56 characters of the base-32 alphabet, the first of them a `G` or a `C`
abbrev pub is_key : String → Bool
is_key s = starts_key s && all_strkey s && chars s == key_len

-- whether a text ends in a word character; `inside` stands for the character in front of it
abbrev pub ends_inside : Bool → String → Bool
ends_inside inside no_text = inside
ends_inside inside (c :: s) = ends_inside (is_word_char (code c)) s

strkey-word : (b : ℕ) → is_strkey_char b ≡ true → is_word_char b ≡ true
unfolding is_strkey_char is_word_char
strkey-word b h = ground (arith, h)

no_key : (n : ℕ) (key : String) → key_of_length (suc n) no_text ≡ some key → ⊥
unfolding key_of_length
no_key n key h = cc

-- what `key_of_length` has seen when it finds a key
key_of_length-nil :
    (s key : String) → key_of_length 0 s ≡ some key → (ends_here s ≡ true) × (key ≡ no_text)
unfolding key_of_length
key_of_length-nil s key h = (ground (arith, h), ground (arith, h))

key_of_length-cons :
    (n : ℕ) (c : Char) (s key : String)
    → key_of_length (suc n) (c :: s) ≡ some key
    → (is_strkey_char (code c) ≡ true)
      × (k : String) × (key_of_length n s ≡ some k)
      × (key ≡ c :: k)
unfolding key_of_length
key_of_length-cons n c s key h = elim (Option-cases (key_of_length n s)) [
  | inl e ↦ absurd (ground (arith, h, e))
  | inr (k, e) ↦ (ground (arith, h, e), k, e, ground (arith, h, e))
]

key_of_length-some :
    (n : ℕ) (s key : String)
    → key_of_length n s ≡ some key
    → (post : String) × (s ≡ key ⊕ post)
      × (ends_here post ≡ true)
      × (all_strkey key ≡ true)
      × (chars key ≡ n)
key_of_length-some zero s key h =
    let seen = key_of_length-nil s key h in rw seen.1 (s, refl, seen.0, refl, refl)
key_of_length-some (suc n) no_text key h = absurd (no_key n key h)
key_of_length-some (suc n) (c :: s) key h =
    let (ok, k, e, same) = key_of_length-cons n c s key h in
    let (post, split, end, strkey, len) = key_of_length-some n s k e in
    rw same (post, ap (λ t. c :: t) split, end, ground (arith, ok, strkey), ap suc len)

pub key_of_length-found :
    (key post : String)
    → all_strkey key ≡ true
    → ends_here post ≡ true
    → key_of_length (chars key) (key ⊕ post) ≡ some key
unfolding key_of_length
key_of_length-found no_text post h k = ground (arith, k)
key_of_length-found (c :: key) post h k =
    ground (arith, h, key_of_length-found key post (ground (arith, h)) k)

-- The characters still to be skipped are there, and each has a word character in front of it.
abbrev pub skip_ok : Bool → ℕ → String → Bool
skip_ok inside zero s = true
skip_ok inside (suc n) no_text = false
skip_ok inside (suc n) (c :: s) = inside && skip_ok (is_word_char (code c)) n s

pub key-skip_ok : (n : ℕ) (s key : String) → key_of_length n s ≡ some key → skip_ok true n s ≡ true
key-skip_ok zero s key h = refl
key-skip_ok (suc n) no_text key h = absurd (no_key n key h)
key-skip_ok (suc n) (c :: s) key h =
    let (ok, k, e, same) = key_of_length-cons n c s key h in
    rw (strkey-word (code c) ok) (key-skip_ok n s k e)

-- The text holds the key at a place where no word character stands in front of it or behind it.
abbrev pub Holds : Bool → String → String → Type 0
Holds inside s key =
    (pre : String) × (post : String) × (s ≡ pre ⊕ (key ⊕ post))
    × (ends_inside inside pre ≡ false)
    × (ends_here post ≡ true)

Holds-cons :
    (inside : Bool) (c : Char) (s key : String)
    → Holds (is_word_char (code c)) s key
    → Holds inside (c :: s) key
Holds-cons inside c s key (pre, post, split, front, back) =
    (c :: pre, post, ap (λ t. c :: t) split, front, back)

pub key_at-some :
    (inside : Bool) (s key : String)
    → key_at inside s ≡ some key
    → (inside ≡ false) × (starts_key s ≡ true) × (key_of_length key_len s ≡ some key)
unfolding key_at
key_at-some inside s key h = (ground (arith, h), ground (arith, h), ground (arith, h))

pub starts_key-append :
    (key post : String) (n : ℕ) → chars key ≡ suc n → starts_key (key ⊕ post) ≡ starts_key key
starts_key-append no_text post n h = absurd (ground (arith, h))
starts_key-append (c :: key) post n h = refl

key_at-Holds :
    (inside : Bool) (s key : String)
    → key_at inside s ≡ some key
    → (is_key key ≡ true) × Holds inside s key
key_at-Holds inside s key h =
    let (front, start, e) = key_at-some inside s key h in
    let (post, split, back, strkey, len) = key_of_length-some key_len s key e in
    let started : starts_key key ≡ true =
      sym (starts_key-append key post 55 len) ∙ (sym (ap starts_key split) ∙ start) in
    (ground (arith, started, strkey, len), (no_text, post, split, front, back))

pub keys_from-none :
    (inside : Bool) (c : Char) (s : String)
    → key_at inside (c :: s) ≡ none
    → keys_from inside 0 (c :: s) ≡ keys_from (is_word_char (code c)) 0 s
unfolding keys_from
keys_from-none inside c s e = rw (e, keys_from) refl

pub keys_from-some :
    (inside : Bool) (c : Char) (s key : String)
    → key_at inside (c :: s) ≡ some key
    → keys_from inside 0 (c :: s) ≡ key ∷ keys_from (is_word_char (code c)) 55 s
unfolding keys_from
keys_from-some inside c s key e = rw (e, keys_from) refl

pub keys_from-Holds :
    (inside : Bool) (skip : ℕ) (s key : String)
    → contains (keys_from inside skip s) key ≡ true
    → (is_key key ≡ true) × Holds inside s key
unfolding keys_from
keys_from-Holds inside skip no_text key h = cc
keys_from-Holds inside (suc n) (c :: s) key h =
    let (good, held) = keys_from-Holds (is_word_char (code c)) n s key h in
    (good, Holds-cons inside c s key held)
keys_from-Holds inside zero (c :: s) key h = elim (Option-cases (key_at inside (c :: s))) [
  | inl e ↦
      let (good, held) =
        keys_from-Holds (is_word_char (code c)) 0 s key
          (sym (ap (λ ks. contains ks key) (keys_from-none inside c s e)) ∙ h) in
      (good, Holds-cons inside c s key held)
  | inr (found, e) ↦
      let listed = sym (ap (λ ks. contains ks key) (keys_from-some inside c s found e)) ∙ h in
      elim (Bool-cases (found == key)) [
        | inl same ↦
            key_at-Holds inside (c :: s) key (e ∙ ap some ((string_eq.beq_iff found key).0 same))
        | inr other ↦
            let (good, held) =
              keys_from-Holds (is_word_char (code c)) 55 s key (ground (arith, listed, other)) in
            (good, Holds-cons inside c s key held)
      ]
]
