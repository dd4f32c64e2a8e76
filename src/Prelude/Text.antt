-- ===== src/Prelude/Text.antt =====
-- The operations of Rust's `str` that the program calls. A `String` is the list of its characters;
-- their order is that of the UTF-8 bytes, which is the order of the code points.
use Prim.Native.Nat.{ℕ}
use Prim.Native.Char.{Char, code}
use Prim.Native.String.{String, [], ◌∷◌}
use mathlib.Core.Path.{◌≡◌, refl}
use mathlib.Core.Logic.{◌⊎◌, inl, inr}
use mathlib.Core.Bool.{Bool, true, false, ◌&&◌, ◌||◌}
use mathlib.Core.Option.{Option, none, some}
use mathlib.Core.List.{List}
use native.Mathlib.Omega.{arith}
pub use Prim.Native.String.{◌++◌ as ◌<>◌}
use text.Mathlib.TextEquality.{Char-path}
use guard_cli.Prelude.Maps.{Ord}
use guard_cli.Prelude.Tests.{ltb, leb, if◌then◌else◌, ◌==◌, nat_eq, string_eq}

-- `char::is_whitespace`: Unicode White_Space
unfoldable pub is_whitespace : ℕ → Bool
is_whitespace c =
    (leb 9 c && leb c 13)
    || c == 32
    || c == 133
    || c == 160
    || c == 5760
    || (leb 8192 c && leb c 8202)
    || c == 8232
    || c == 8233
    || c == 8239
    || c == 8287
    || c == 12288

-- `trim_start`
unfoldable pub trim_start : String → String
unfolding is_whitespace
trim_start [] = []
trim_start (c ∷ s) = if is_whitespace (code c) then trim_start s else c ∷ s

-- drops the trailing characters that pass a test
unfoldable pub trim_end_by : (ℕ → Bool) → String → String
trim_end_by p [] = []
trim_end_by p (c ∷ s) =
    let rest = trim_end_by p s in if rest == "" && p (code c) then [] else c ∷ rest

-- `trim`
unfoldable pub trim : String → String
unfolding trim_start trim_end_by is_whitespace
trim s = trim_end_by is_whitespace (trim_start s)

-- `strip_prefix`
unfoldable pub strip_prefix : String → String → Option String
strip_prefix [] s = some s
strip_prefix (c ∷ p) [] = none
strip_prefix (c ∷ p) (d ∷ s) = if code c == code d then strip_prefix p s else none

unfoldable pub starts_with : String → String → Bool
unfolding strip_prefix
starts_with s p = elim (strip_prefix p s) [ none ↦ false | some _ ↦ true ]

-- `split_once` at a character
unfoldable pub split_once : ℕ → String → Option (String × String)
split_once b [] = none
split_once b (c ∷ s) =
    let rest = split_once b s in
    if code c == b then some ([], s) else elim rest [ none ↦ none | some (x, y) ↦ some (c ∷ x, y) ]

-- `rsplit_once` at a character
unfoldable pub rsplit_once : ℕ → String → Option (String × String)
rsplit_once b [] = none
rsplit_once b (c ∷ s) = elim (rsplit_once b s) [
  | none ↦ if code c == b then some ([], s) else none
  | some (x, y) ↦ some (c ∷ x, y)
]

-- puts a character in front of the first piece
cons_head : Char → List String → List String
cons_head c List.[] = List.◌∷◌ (c ∷ []) List.[]
cons_head c (List.◌∷◌ x xs) = List.◌∷◌ (c ∷ x) xs

-- `split` at a character: one piece more than there are separators
unfoldable pub split : ℕ → String → List String
unfolding cons_head
split b [] = List.◌∷◌ [] List.[]
split b (c ∷ s) =
    let pieces = split b s in if code c == b then List.◌∷◌ [] pieces else cons_head c pieces

drop_return : String → String
drop_return [] = []
drop_return (c ∷ s) = let rest = drop_return s in if code c == 13 && s == "" then [] else c ∷ rest

-- A line that ends in a newline loses it, and a carriage return in front of it.
lines_of : List String → List String
lines_of List.[] = List.[]
lines_of (List.◌∷◌ x List.[]) = if x == "" then List.[] else List.◌∷◌ x List.[]
lines_of (List.◌∷◌ x (List.◌∷◌ y rest)) = List.◌∷◌ (drop_return x) (lines_of (List.◌∷◌ y rest))

-- `lines`
unfoldable pub lines : String → List String
unfolding split lines_of drop_return
lines s = lines_of (split b'\n' s)

-- `a <= b`
unfoldable pub str_leb : String → String → Bool
str_leb [] t = true
str_leb (c ∷ s) [] = false
str_leb (c ∷ s) (d ∷ t) =
    let rest = str_leb s t in
    if ltb (code c) (code d) then true else if ltb (code d) (code c) then false else rest

pub str_leb-total : (s t : String) → (str_leb s t ≡ true) ⊎ (str_leb t s ≡ true)
unfolding str_leb
str_leb-total [] t = inl refl
str_leb-total (c ∷ s) [] = inr refl
str_leb-total (c ∷ s) (d ∷ t) = ground (arith, str_leb-total s t)

pub str_leb_trans : (s t u : String) → str_leb s t ≡ true → str_leb t u ≡ true → str_leb s u ≡ true
unfolding str_leb
str_leb_trans [] t u h k = refl
str_leb_trans (c ∷ s) [] u h k = cc
str_leb_trans (c ∷ s) (d ∷ t) [] h k = cc
str_leb_trans (c ∷ s) (d ∷ t) (e ∷ u) h k = ground (arith, str_leb_trans s t u)

pub str_leb_antisymm : (s t : String) → str_leb s t ≡ true → str_leb t s ≡ true → s ≡ t
unfolding str_leb
str_leb_antisymm [] [] h k = refl
str_leb_antisymm [] (d ∷ t) h k = cc
str_leb_antisymm (c ∷ s) [] h k = cc
str_leb_antisymm (c ∷ s) (d ∷ t) h k = ground (arith, str_leb_antisymm s t, Char-path c d)

instance abbrev pub string_ord : Ord String
string_ord = record {
  leb = str_leb;
  total = str_leb-total;
  trans = str_leb_trans;
  antisymm = str_leb_antisymm;
}

-- `contains` of a text
unfoldable pub includes : String → String → Bool
unfolding starts_with
includes [] sub = starts_with [] sub
includes (c ∷ s) sub = starts_with (c ∷ s) sub || includes s sub
