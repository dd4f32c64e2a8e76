-- ===== src/Checks/Detectors/Overflow/Words.antt =====
-- `name_words` of crates/checks/src/overflow.rs: no character of a name is lost.
use Prim.Native.Char.{Char, code}
use Prim.Native.String.{String, [] as no_text, ◌∷◌ as ◌::◌}
use text.Mathlib.TextLemmas.{nil-append, append_assoc, cons-append}
use guard_cli.Prelude.{
  ◌≡◌, refl, sym, ap, ◌∙◌, Bool, true, false, not, List, [], ◌∷◌, if◌then◌else◌, ◌==◌, string_eq,
  nat_eq, all, arith, Bool-cases, inl, inr,
}
use guard_cli.Prelude.Text.{◌<>◌}
use guard_cli.Prelude.Lowercase.{lower_char}
use guard_cli.Checks.Detectors.Overflow.{
  is_lower_or_digit, push_word, ends_word, char_text, words_from, name_words,
}

-- the words one behind the other
abbrev pub concat : List String → String
concat [] = no_text
concat (w ∷ ws) = w <> concat ws

-- the name in lowercase and without its underscores
abbrev pub lowered : String → String
lowered no_text = no_text
lowered (c :: s) = if code c == b'_' then lowered s else lower_char c :: lowered s

abbrev pub is_word : String → Bool
is_word w = not (w == "")

push_word-concat : (w : String) (ws : List String) → concat (push_word w ws) ≡ w <> concat ws
push_word-concat w ws = elim (Bool-cases (w == "")) [
  | inl e ↦
      rw e (sym (ap (λ t. t <> concat ws) ((string_eq.beq_iff w "").0 e) ∙ nil-append (concat ws)))
  | inr e ↦ rw e refl
]

push_word-words :
    (w : String) (ws : List String) → all is_word ws ≡ true → all is_word (push_word w ws) ≡ true
push_word-words w ws h = ground (arith, h)

char_text-lowered : (c : Char) (s : String) → char_text c <> lowered s ≡ lowered (c :: s)
char_text-lowered c s = elim (Bool-cases (code c == b'_')) [
  | inl e ↦ rw e (nil-append (lowered s))
  | inr e ↦ rw e (
      cons-append (lower_char c) no_text (lowered s)
      ∙ ap (λ t. lower_char c :: t) (nil-append (lowered s)))
]

cut-concat :
    (cut : Bool) (current t : String) (rest : List String)
    → concat rest ≡ (if cut then no_text else current) <> t
    → concat (if cut then push_word current rest else rest) ≡ current <> t
cut-concat true current t rest h =
    push_word-concat current rest ∙ ap (λ u. current <> u) (h ∙ nil-append t)
cut-concat false current t rest h = h

cut-words :
    (cut : Bool) (current : String) (rest : List String)
    → all is_word rest ≡ true
    → all is_word (if cut then push_word current rest else rest) ≡ true
cut-words true current rest h = push_word-words current rest h
cut-words false current rest h = h

words_from-concat :
    (current : String) (prev_lower : Bool) (s : String)
    → concat (words_from current prev_lower s) ≡ current <> lowered s
unfolding words_from
words_from-concat current prev_lower no_text = push_word-concat current []
words_from-concat current prev_lower (c :: s) =
    let word = if ends_word c prev_lower then no_text else current in
    let rest =
      words_from-concat (word <> char_text c) (is_lower_or_digit (code c)) s
      ∙ (append_assoc word (char_text c) (lowered s)
          ∙ ap (λ t. word <> t) (char_text-lowered c s)) in
    cut-concat (ends_word c prev_lower) current (lowered (c :: s))
      (words_from (word <> char_text c) (is_lower_or_digit (code c)) s) rest

words_from-words :
    (current : String) (prev_lower : Bool) (s : String)
    → all is_word (words_from current prev_lower s) ≡ true
unfolding words_from
words_from-words current prev_lower no_text = push_word-words current [] refl
words_from-words current prev_lower (c :: s) =
    let word = if ends_word c prev_lower then no_text else current in
    cut-words (ends_word c prev_lower) current
      (words_from (word <> char_text c) (is_lower_or_digit (code c)) s)
      (words_from-words (word <> char_text c) (is_lower_or_digit (code c)) s)

-- The words of a name, one behind the other, are the name in lowercase without its underscores, and none of
-- them is empty.
pub name_words-concat :
    (name : String)
    → (concat (name_words name) ≡ lowered name) × (all is_word (name_words name) ≡ true)
unfolding name_words
name_words-concat name = (
  words_from-concat no_text false name ∙ nil-append (lowered name),
  words_from-words no_text false name,
)
