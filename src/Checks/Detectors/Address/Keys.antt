-- ===== src/Checks/Detectors/Address/Keys.antt =====
-- `find_candidate_keys` of crates/checks/src/hardcoded_address.rs.
use Prim.Native.Char.{code}
use Prim.Native.String.{String, [] as no_text, ◌∷◌ as ◌::◌}
use guard_cli.Prelude.{
  ℕ, zero, suc, Bool, true, false, not, ◌&&◌, ◌||◌, Option, none, some, List, [], ◌∷◌,
  if◌then◌else◌, ◌==◌, nat_eq, leb,
}

abbrev pub key_len : ℕ
key_len = 56

unfoldable pub is_strkey_char : ℕ → Bool
is_strkey_char b = (leb 65 b && leb b 90) || (leb 50 b && leb b 55)

-- a letter, a digit or `_`
unfoldable pub is_word_char : ℕ → Bool
is_word_char b =
    (leb 65 b && leb b 90) || (leb 97 b && leb b 122) || (leb 48 b && leb b 57) || b == b'_'

-- `boundary_after`
abbrev pub ends_here : String → Bool
ends_here no_text = true
ends_here (c :: s) = not (is_word_char (code c))

-- the next `n` characters, if there are so many, all of them may stand in a key and a key may end there
unfoldable pub key_of_length : ℕ → String → Option String
unfolding is_strkey_char is_word_char
key_of_length zero s = if ends_here s then some no_text else none
key_of_length (suc n) no_text = none
key_of_length (suc n) (c :: s) =
    if is_strkey_char (code c)
    then (elim (key_of_length n s) [ none ↦ none | some key ↦ some (c :: key) ])
    else none

abbrev pub starts_key : String → Bool
starts_key no_text = false
starts_key (c :: s) = code c == b'G' || code c == b'C'

-- the key that starts here; `inside` says that the character in front is a word character
unfoldable pub key_at : Bool → String → Option String
unfolding key_of_length
key_at inside s = if starts_key s && not inside then key_of_length key_len s else none

-- `skip` counts the characters of the last key that are still ahead.
unfoldable pub keys_from : Bool → ℕ → String → List String
unfolding key_at is_word_char
keys_from inside skip no_text = []
keys_from inside (suc n) (c :: s) = keys_from (is_word_char (code c)) n s
keys_from inside zero (c :: s) = elim (key_at inside (c :: s)) [
  | none ↦ keys_from (is_word_char (code c)) 0 s
  | some key ↦ key ∷ keys_from (is_word_char (code c)) 55 s
]

unfoldable pub find_candidate_keys : String → List String
unfolding keys_from
find_candidate_keys line = keys_from false 0 line
