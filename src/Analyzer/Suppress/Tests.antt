-- ===== src/Analyzer/Suppress/Tests.antt =====
-- Tests of the suppression comments.
use guard_cli.Prelude.{String, ◌≡◌, refl, true, none, some, [], ◌∷◌, any}
use guard_cli.Prelude.Text.{lines}
use guard_cli.Checks.Finding.{medium, Finding}
use guard_cli.Checks.Tests.{finding_of}
use guard_cli.Analyzer.Suppress.{parse_allow_checks, parse_suppressions, is_suppressed}
use guard_cli.Analyzer.Suppress.Laws.{allows, is_suppressed-allows}

abbrev source_text : String
source_text = "// soroban-guard: allow(self-transfer, large-loop)\n#[inline]\ncall();\n"

abbrev on_line_3 : Finding
on_line_3 = finding_of "self-transfer" medium "a.rs" 3

two_names :
    parse_allow_checks "  //soroban-guard : allow( self-transfer ,, large-loop) why"
    ≡ some ("self-transfer" ∷ "large-loop" ∷ [])
unfolding parse_allow_checks
two_names = refl

doc_comment : parse_allow_checks "/// soroban-guard: allow(self-transfer)" ≡ none
unfolding parse_allow_checks
doc_comment = refl

no_names : parse_allow_checks "// soroban-guard: allow( , )" ≡ none
unfolding parse_allow_checks
no_names = refl

-- the comment reaches over the attribute
hidden : is_suppressed on_line_3 (parse_suppressions source_text []) [] ≡ true
unfolding is_suppressed parse_suppressions
hidden = refl

is_suppressed-allows_example : any (allows "self-transfer") (lines source_text) ≡ true
is_suppressed-allows_example = is_suppressed-allows source_text [] on_line_3 hidden
