-- ===== src/Checks/Detectors/Address/Lines.antt =====
-- `effective_lines` of crates/checks/src/hardcoded_address.rs: the lines without their comments. The
-- places of the source's loop are the values of a mode, which one character at a time moves on.
use Prim.Native.Char.{code}
use Prim.Native.String.{String, [] as no_text, ◌∷◌ as ◌::◌}
use guard_cli.Prelude.{ℕ, Bool, true, false, ◌&&◌, List, [], ◌∷◌, if◌then◌else◌, ◌==◌, nat_eq}
use guard_cli.Prelude.Text.{lines}

-- `opening` and `closing` stand between the two characters of a delimiter, `escaped` behind a `\` in a
-- string, `line_comment` behind the `break`.
pub data Mode : Type 0 where
  plain in_block_comment in_string escaped opening closing line_comment : Mode

-- `bytes[i + 1] == c`, where there is such a byte
abbrev pub next_is : ℕ → String → Bool
next_is c no_text = false
next_is c (d :: s) = code d == c

-- the mode behind a character, and whether the character is kept
unfoldable pub step : Mode → ℕ → String → Mode × Bool
step plain c s =
    if c == b'/' && next_is b'/' s
    then (line_comment, false)
    else if c == b'/' && next_is b'*' s
    then (opening, false)
    else if c == b'"'
    then (in_string, true)
    else (plain, true)
step in_block_comment c s =
    if c == b'*' && next_is b'/' s then (closing, false) else (in_block_comment, false)
step in_string c s =
    if c == b'\\' then (escaped, true) else if c == b'"' then (plain, true) else (in_string, true)
step escaped c s = (in_string, true)
step opening c s = (in_block_comment, false)
step closing c s = (plain, false)
step line_comment c s = (line_comment, false)

-- whether the next line starts inside a block comment
abbrev pub carried : Mode → Mode
carried in_block_comment = in_block_comment
carried opening = in_block_comment
carried _ = plain

-- what is kept of a line, and the mode that the next line starts in
unfoldable pub effective_line : Mode → String → String × Mode
unfolding step
effective_line m no_text = (no_text, carried m)
effective_line m (c :: s) =
    let next = step m (code c) s in
    let rest = effective_line next.0 s in (if next.1 then c :: rest.0 else rest.0, rest.1)

unfoldable pub effective_from : Mode → List String → List String
unfolding effective_line
effective_from m [] = []
effective_from m (line ∷ rest) =
    let effective = effective_line m line in effective.0 ∷ effective_from effective.1 rest

unfoldable pub effective_lines : String → List String
unfolding effective_from lines
effective_lines source = effective_from plain (lines source)
