-- ===== src/Checks/Detectors/Address/Kept.antt =====
-- What `effective_lines` keeps of a source.
use Prim.Native.Char.{code}
use Prim.Native.String.{String, [] as no_text, ◌∷◌ as ◌::◌}
use guard_cli.Prelude.{
  ℕ, ◌≡◌, refl, ap, Bool, true, false, not, ◌&&◌, List, [], ◌∷◌, ◌==◌, nat_eq, all, length, arith,
}
use guard_cli.Prelude.Text.{lines}
use guard_cli.Checks.Detectors.Address.Lines.{
  Mode, plain, in_block_comment, in_string, escaped, opening, closing, line_comment, step, carried,
  effective_line, effective_from, effective_lines,
}

abbrev pub no_slash : String → Bool
no_slash no_text = true
no_slash (c :: s) = not (code c == b'/') && no_slash s

-- outside every comment
abbrev pub is_code : Mode → Bool
is_code plain = true
is_code in_string = true
is_code escaped = true
is_code _ = false

step-kept :
    (m : Mode) (c : ℕ) (s : String)
    → is_code m ≡ true
    → (c == b'/') ≡ false
    → (is_code (step m c s).0 ≡ true) × ((step m c s).1 ≡ true)
unfolding step
step-kept plain c s h k = (ground (arith, k), ground (arith, k))
step-kept in_string c s h k = (ground arith, ground arith)
step-kept escaped c s h k = (refl, refl)
step-kept in_block_comment c s h k = cc
step-kept opening c s h k = cc
step-kept closing c s h k = cc
step-kept line_comment c s h k = cc

carried-plain : (m : Mode) → is_code m ≡ true → carried m ≡ plain
carried-plain plain h = refl
carried-plain in_string h = refl
carried-plain escaped h = refl
carried-plain in_block_comment h = cc
carried-plain opening h = cc
carried-plain closing h = refl
carried-plain line_comment h = refl

effective_line-kept :
    (m : Mode) (s : String) → is_code m ≡ true → no_slash s ≡ true → effective_line m s ≡ (s, plain)
unfolding effective_line
effective_line-kept m no_text h k = ap (λ n. (no_text, n)) (carried-plain m h)
effective_line-kept m (c :: s) h k =
    let (next, kept) = step-kept m (code c) s h (ground (arith, k)) in
    let rest = effective_line-kept (step m (code c) s).0 s next (ground (arith, k)) in
    rw (kept, rest) refl

effective_from-kept : (ls : List String) → all no_slash ls ≡ true → effective_from plain ls ≡ ls
unfolding effective_from
effective_from-kept [] h = refl
effective_from-kept (l ∷ ls) h =
    rw (effective_line-kept plain l refl (ground (arith, h)))
      (ap (◌∷◌ l) (effective_from-kept ls (ground (arith, h))))

effective_from-length : (m : Mode) (ls : List String) → length (effective_from m ls) ≡ length ls
unfolding effective_from
effective_from-length m [] = refl
effective_from-length m (l ∷ ls) = omega (arith, effective_from-length (effective_line m l).1 ls)

-- There is one effective line for each line of the source.
pub effective_lines-length :
    (source : String) → length (effective_lines source) ≡ length (lines source)
unfolding effective_lines
effective_lines-length source = effective_from-length plain (lines source)

-- A source with no `/` in it is kept as it is.
pub effective_lines-kept :
    (source : String) → all no_slash (lines source) ≡ true → effective_lines source ≡ lines source
unfolding effective_lines
effective_lines-kept source h = effective_from-kept (lines source) h
