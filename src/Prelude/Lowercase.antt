-- ===== src/Prelude/Lowercase.antt =====
-- `to_lowercase` of a text of ASCII characters.
use Prim.Native.Char.{Char, code}
use Prim.Native.String.{String, [] as no_text, ◌∷◌ as ◌::◌}
use guard_cli.Prelude.Tests.{if◌then◌else◌, ◌==◌, nat_eq}

-- looks an uppercase letter up in a text of pairs
unfoldable pub lower_in : String → Char → Char
lower_in no_text c = c
lower_in (u :: no_text) c = c
lower_in (u :: l :: table) c = if code u == code c then l else lower_in table c

-- `to_lowercase` of a character
unfoldable pub lower_char : Char → Char
unfolding lower_in
lower_char c = lower_in "AaBbCcDdEeFfGgHhIiJjKkLlMmNnOoPpQqRrSsTtUuVvWwXxYyZz" c

unfoldable pub to_lowercase : String → String
unfolding lower_char
to_lowercase no_text = no_text
to_lowercase (c :: s) = lower_char c :: to_lowercase s
