-- ===== src/Cli/Report/Laws.antt =====
-- What the outputs say of the findings.
use mathlib.Core.Path.{subst}
use mathlib.Core.List.{append-nil}
use Prim.Native.Char.{code}
use text.Mathlib.TextLemmas.{nil-append, cons-append}
use guard_cli.Prelude.{
  ℕ, ◌+◌, ◌-◌, ◌≤◌, String, ◌≡◌, refl, sym, ap, ◌∙◌, Bool, true, false, not, ◌&&◌, ◌||◌, Option,
  none, some, List, [], ◌∷◌, ◌++◌, arith, ◌==◌, nat_eq, string_eq, if◌then◌else◌, leb, length, take,
  drop, take-append-drop, length-take, length-append, retain, any, all, inl, inr, Bool-cases,
}
use guard_cli.Prelude.Maps.{lookup, IsOrdered, tree_entry, lookup-tree_entry, tree_entry-IsOrdered}
use guard_cli.Prelude.Text.{string_ord}
use guard_cli.Checks.Finding.{
  Severity, high, medium, low, Finding, severity_eq, severity_leb, severity_ltb,
}
use guard_cli.Cli.Report.{
  severity_counts, severity_counts_from, truncate, replace_char, escape_md_cell, rule_severity,
  rule_severity_from, worse,
}

abbrev pub number_of : Severity → List Finding → ℕ
number_of s fs = length (retain (λ f. f.severity == s) fs)

severity_counts_from_lem :
    (fs : List Finding) (h m l : ℕ)
    → severity_counts_from h m l fs
      ≡ (h + number_of high fs, m + number_of medium fs, l + number_of low fs)
unfolding severity_counts_from
severity_counts_from_lem [] h m l = ground arith
severity_counts_from_lem (f ∷ fs) h m l = ground (
  arith,
  severity_counts_from_lem fs (h + 1) m l,
  severity_counts_from_lem fs h (m + 1) l,
  severity_counts_from_lem fs h m (l + 1),
)

number_of-sum :
    (fs : List Finding) → number_of high fs + number_of medium fs + number_of low fs ≡ length fs
number_of-sum [] = omega arith
number_of-sum (f ∷ fs) = ground (arith, number_of-sum fs)

-- The three counts are the numbers of the findings of the three severities, and add up to the number
-- of all findings.
pub severity_counts-number_of :
    (fs : List Finding)
    → (severity_counts fs ≡ (number_of high fs, number_of medium fs, number_of low fs))
      × ((severity_counts fs).0 + (severity_counts fs).1 + (severity_counts fs).2 ≡ length fs)
unfolding severity_counts
severity_counts-number_of fs =
    let e : severity_counts_from 0 0 0 fs
        ≡ (number_of high fs, number_of medium fs, number_of low fs) =
      severity_counts_from_lem fs 0 0 0 ∙ ground arith in
    (e, rw e (number_of-sum fs))

-- The displayed findings are the first ones and the number left out is that of the others: none for a
-- cap of 0, and else as many as there are findings beyond the cap.
pub truncate-prefix :
    (fs : List Finding) (max : ℕ)
    → (rest : List Finding) × ((truncate fs max).0 ++ rest ≡ fs)
      × ((truncate fs max).1 ≡ length rest)
      × (length rest ≡ (if max == 0 then 0 else length fs - max))
unfolding truncate
truncate-prefix fs max = elim (Bool-cases (max == 0 || leb (length fs) max)) [
  | inl all ↦ ([], rw all (append-nil fs), rw all, ground arith)
  | inr cut ↦
      let left : length (drop max fs) ≡ length fs - max = omega (
        arith,
        length-append (take max fs) (drop max fs),
        length-take max fs,
        ap length (take-append-drop max fs),
        short cut,
      ) in
      (drop max fs, rw cut (take-append-drop max fs), rw cut (sym left), ground (arith, left))
]
  where
    short : (max == 0 || leb (length fs) max) ≡ false → max ≤ length fs
    short e = ground arith

-- A text where newlines and carriage returns stand only if allowed, and a bar only behind a
-- backslash. The last flag says that a backslash stands in front.
abbrev pub is_text : Bool → Bool → Bool → String → Bool
is_text newlines returns escaped String.[] = true
is_text newlines returns escaped (String.◌∷◌ c s) =
    (newlines || not (code c == 10))
    && (returns || not (code c == 13))
    && (escaped || not (code c == b'|'))
    && is_text newlines returns (code c == b'\\') s

is_text-escaped : (n r e : Bool) (s : String) → is_text n r e s ≡ true → is_text n r true s ≡ true
is_text-escaped n r e String.[] h = refl
is_text-escaped n r e (String.◌∷◌ c s) h = ground arith

is_text-bars : (s : String) (e : Bool) → is_text true true e (replace_char b'|' "\\|" s) ≡ true
unfolding replace_char
is_text-bars String.[] e = refl
is_text-bars (String.◌∷◌ c s) e = elim (Bool-cases (code c == b'|')) [
  | inl bar ↦
      rw bar (rw (cons-append, cons-append, nil-append) (ground (arith, is_text-bars s false)))
  | inr plain ↦ rw plain (ground (arith, is_text-bars s (code c == b'\\')))
]

is_text-newlines :
    (s : String) (e : Bool)
    → is_text true true e s ≡ true
    → is_text false true e (replace_char 10 " " s) ≡ true
unfolding replace_char
is_text-newlines String.[] e h = refl
is_text-newlines (String.◌∷◌ c s) e h = elim (Bool-cases (code c == 10)) [
  | inl line ↦ rw line (rw (cons-append, nil-append) (ground (arith, is_text-newlines s false)))
  | inr plain ↦ rw plain (ground (arith, is_text-newlines s (code c == b'\\')))
]

is_text-returns :
    (s : String) (e : Bool)
    → is_text false true e s ≡ true
    → is_text false false e (replace_char 13 "" s) ≡ true
unfolding replace_char
is_text-returns String.[] e h = refl
is_text-returns (String.◌∷◌ c s) e h = elim (Bool-cases (code c == 13)) [
  | inl ret ↦
      rw ret
        (rw nil-append (is_text-returns s e (ground (arith, is_text-escaped false true false s))))
  | inr plain ↦ rw plain (ground (arith, is_text-returns s (code c == b'\\')))
]

-- A cell holds no newline, no carriage return, and every bar in it stands behind a backslash: it
-- cannot end its row or its column.
pub escape_md_cell-is_text : (s : String) → is_text false false false (escape_md_cell s) ≡ true
unfolding escape_md_cell
escape_md_cell-is_text s =
    is_text-returns (replace_char 10 " " (replace_char b'|' "\\|" s)) false
      (is_text-newlines (replace_char b'|' "\\|" s) false (is_text-bars s false))

-- the most severe of the findings of a check, behind an entry
worst_from : Option Severity → String → List Finding → Option Severity
worst_from o k [] = o
worst_from o k (f ∷ fs) =
    if f.check_name == k then worst_from (some (worse f.severity o)) k fs else worst_from o k fs

worst_step :
    (f : Finding) (m : List (String × Severity)) (fs : List Finding) (k : String)
    → worst_from
        (if f.check_name == k then some (worse f.severity (lookup f.check_name m)) else lookup k m)
        k
        fs
      ≡ worst_from (lookup k m) k (f ∷ fs)
unfolding worst_from
worst_step f m fs k = elim (Bool-cases (f.check_name == k)) [
  | inl same ↦ rw same (
      ap (λ j. worst_from (some (worse f.severity (lookup j m))) k fs)
        ((string_eq.beq_iff f.check_name k).0 same))
  | inr other ↦ rw other refl
]

lookup-rule_severity_from :
    (fs : List Finding) (m : List (String × Severity)) (k : String)
    → IsOrdered m
    → IsOrdered (rule_severity_from m fs)
      × (lookup k (rule_severity_from m fs) ≡ worst_from (lookup k m) k fs)
unfolding rule_severity_from worst_from
lookup-rule_severity_from [] m k h = (h, refl)
lookup-rule_severity_from (f ∷ fs) m k h =
    let (o, e) =
      lookup-rule_severity_from fs (tree_entry f.check_name (worse f.severity) m) k
        (tree_entry-IsOrdered f.check_name (worse f.severity) m h) in
    (
      o,
      e
          ∙ ap (λ v. worst_from v k fs) (lookup-tree_entry f.check_name k (worse f.severity) m h)
          ∙ worst_step f m fs k,
    )

abbrev pub none_of : String → List Finding → Bool
none_of k fs = not (any (λ f. f.check_name == k) fs)

-- one of the findings of the check has the severity
abbrev pub attained : String → Severity → List Finding → Bool
attained k s fs = any (λ f. f.check_name == k && f.severity == s) fs

-- no finding of the check is more severe
abbrev pub bounded : String → Severity → List Finding → Bool
bounded k s fs = all (λ f. not (f.check_name == k) || severity_leb s f.severity) fs

abbrev pub IsWorst : String → List Finding → Option Severity → Type 0
IsWorst k fs none = none_of k fs ≡ true
IsWorst k fs (some s) = (attained k s fs ≡ true) × (bounded k s fs ≡ true)

leb-worse :
    (t a s : Severity)
    → severity_leb t (worse a (some s)) ≡ true
    → (severity_leb t s ≡ true) × (severity_leb t a ≡ true)
unfolding worse severity_leb severity_ltb
leb-worse t a s h = ground arith

worse-pick :
    (t a s : Severity) (r : Bool)
    → (t == worse a (some s) || r) ≡ true
    → (t == s || (a == t || r)) ≡ true
unfolding worse severity_ltb
worse-pick t a s r h = ground arith

severity_leb_refl : (s : Severity) → severity_leb s s ≡ true
unfolding severity_leb
severity_leb_refl s = ground arith

worst_from-some :
    (fs : List Finding) (s : Severity) (k : String)
    → (t : Severity) × (worst_from (some s) k fs ≡ some t)
      × (severity_leb t s ≡ true)
      × (bounded k t fs ≡ true)
      × ((t == s || attained k t fs) ≡ true)
unfolding worst_from
worst_from-some [] s k = (s, refl, severity_leb_refl s, refl, ground arith)
worst_from-some (f ∷ fs) s k = elim (Bool-cases (f.check_name == k)) [
  | inl same ↦
      let (t, e, le, b, a) = worst_from-some fs (worse f.severity (some s)) k in
      let (under, over) = leb-worse t f.severity s le in
      rw same (t, e, under, rw over b, worse-pick t f.severity s (attained k t fs) a)
  | inr other ↦ let (t, e, le, b, a) = worst_from-some fs s k in rw other (t, e, le, b, a)
]

pick_self : (t s : Severity) (r : Bool) → (t == s || r) ≡ true → (s == t || r) ≡ true
pick_self t s r h = ground arith

IsWorst-other :
    (f : Finding) (k : String) (fs : List Finding) (o : Option Severity)
    → (f.check_name == k) ≡ false
    → IsWorst k fs o
    → IsWorst k (f ∷ fs) o
IsWorst-other f k fs none other h = rw other h
IsWorst-other f k fs (some s) other h = rw other h

worst_from-none : (fs : List Finding) (k : String) → IsWorst k fs (worst_from none k fs)
unfolding worst_from worse
worst_from-none [] k = refl
worst_from-none (f ∷ fs) k = elim (Bool-cases (f.check_name == k)) [
  | inl same ↦
      let (t, e, le, b, a) = worst_from-some fs f.severity k in
      let w : IsWorst k (f ∷ fs) (some t) =
        rw same (pick_self t f.severity (attained k t fs) a, rw le b) in
      rw same (subst (λ o. IsWorst k (f ∷ fs) o) (sym e) w)
  | inr other ↦ rw other (IsWorst-other f k fs (worst_from none k fs) other (worst_from-none fs k))
]

-- The severities of the SARIF rules: one entry for a check that has findings, in the order of the
-- names, with the most severe level among the findings of that check.
pub rule_severity-IsWorst :
    (fs : List Finding)
    → IsOrdered (rule_severity fs) × ((k : String) → IsWorst k fs (lookup k (rule_severity fs)))
unfolding rule_severity lookup
rule_severity-IsWorst fs = (
  (lookup-rule_severity_from fs [] "" tt).0,
  λ k. subst (IsWorst k fs) (sym (lookup-rule_severity_from fs [] k tt).1) (worst_from-none fs k),
)
