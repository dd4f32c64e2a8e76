-- ===== src/Checks/Detectors/Address/Places.antt =====
-- What an address in a line is, apart from the code that searches for it.
use Prim.Native.Char.{code}
use Prim.Native.String.{String, [] as no_text, ◌∷◌ as ◌::◌}
use guard_cli.Prelude.{
  ℕ, ◌≡◌, refl, ap, Bool, true, false, not, ◌&&◌, ◌||◌, ◌==◌, nat_eq, leb, arith,
}
use guard_cli.Checks.Detectors.Address.Keys.{is_strkey_char, is_word_char, ends_here}
use guard_cli.Checks.Detectors.Address.Boundaries.{chars, ◌⊕◌, all_strkey, is_key, ends_inside}

abbrev pub between : ℕ → ℕ → ℕ → Bool
between low high b = leb low b && leb b high

-- a digit, an uppercase letter, `_` or a lowercase letter
abbrev pub in_word : ℕ → Bool
in_word b = between 48 57 b || between 65 90 b || b == 95 || between 97 122 b

-- `2` to `7` or an uppercase letter
abbrev pub in_base_32 : ℕ → Bool
in_base_32 b = between 50 55 b || between 65 90 b

abbrev pub all_base_32 : String → Bool
all_base_32 no_text = true
all_base_32 (c :: s) = in_base_32 (code c) && all_base_32 s

-- 56 characters of the alphabet, the first of them a `C` or a `G`
abbrev pub is_address : String → Bool
is_address no_text = false
is_address (c :: s) = (code c == 67 || code c == 71) && all_base_32 (c :: s) && chars s == 55

abbrev pub starts_word : String → Bool
starts_word no_text = false
starts_word (c :: s) = in_word (code c)

abbrev pub ends_word : String → Bool
ends_word no_text = false
ends_word (c :: no_text) = in_word (code c)
ends_word (c :: d :: s) = ends_word (d :: s)

-- The text stands in the line with no word character directly in front of it or behind it.
abbrev pub StandsAlone : String → String → Type 0
StandsAlone line key =
    (pre : String) × (post : String) × (line ≡ pre ⊕ (key ⊕ post))
    × (ends_word pre ≡ false)
    × (starts_word post ≡ false)

in_word_lem : (b : ℕ) → is_word_char b ≡ in_word b
unfolding is_word_char
in_word_lem b = ground arith

in_base_32_lem : (b : ℕ) → is_strkey_char b ≡ in_base_32 b
unfolding is_strkey_char
in_base_32_lem b = ground arith

all_base_32_lem : (s : String) → all_strkey s ≡ all_base_32 s
all_base_32_lem no_text = refl
all_base_32_lem (c :: s) = rw (in_base_32_lem (code c), all_base_32_lem s) refl

pub is_address_lem : (s : String) → is_key s ≡ is_address s
is_address_lem no_text = refl
is_address_lem (c :: s) = rw (all_base_32_lem (c :: s)) (ground arith)

pub starts_word_lem : (s : String) → ends_here s ≡ not (starts_word s)
starts_word_lem no_text = refl
starts_word_lem (c :: s) = ap not (in_word_lem (code c))

pub ends_word_lem : (s : String) → ends_inside false s ≡ ends_word s
ends_word_lem no_text = refl
ends_word_lem (c :: no_text) = in_word_lem (code c)
ends_word_lem (c :: d :: s) = ends_word_lem (d :: s)
