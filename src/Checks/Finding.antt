-- ===== src/Checks/Finding.antt =====
-- `Severity`, `Finding` and the interface `Check` of crates/checks/src/lib.rs.
use guard_cli.Prelude.{
  ℕ, String, Bool, true, false, ◌≡◌, ◌↔◌, ◌⊎◌, Option, List, arith, leb, ltb, Eq, nat_eq, string_eq,
}
use guard_cli.Prelude.Maps.{Ord}

pub data Severity : Type 0 where
  high medium low : Severity

-- `rank` of `cmp`
unfoldable pub rank : Severity → ℕ
rank high = 0
rank medium = 1
rank low = 2

-- `a <= b`: the more severe comes first
unfoldable pub severity_leb : Severity → Severity → Bool
unfolding rank
severity_leb a b = leb (rank a) (rank b)

-- `a < b`
unfoldable pub severity_ltb : Severity → Severity → Bool
unfolding rank
severity_ltb a b = ltb (rank a) (rank b)

abbrev pub severity_beq : Severity → Severity → Bool
severity_beq high high = true
severity_beq medium medium = true
severity_beq low low = true
severity_beq _ _ = false

pub severity_beq_iff : (a b : Severity) → (severity_beq a b ≡ true) ↔ (a ≡ b)
severity_beq_iff a b = ground arith

instance abbrev pub severity_eq : Eq Severity
severity_eq = record { beq = severity_beq; beq_iff = severity_beq_iff }

pub severity_leb-total : (a b : Severity) → (severity_leb a b ≡ true) ⊎ (severity_leb b a ≡ true)
unfolding severity_leb
severity_leb-total a b = ground arith

pub severity_leb_trans :
    (a b c : Severity) → severity_leb a b ≡ true → severity_leb b c ≡ true → severity_leb a c ≡ true
unfolding severity_leb
severity_leb_trans a b c h k = ground arith

pub severity_leb_antisymm :
    (a b : Severity) → severity_leb a b ≡ true → severity_leb b a ≡ true → a ≡ b
unfolding severity_leb
severity_leb_antisymm a b h k = ground arith

instance abbrev pub severity_ord : Ord Severity
severity_ord = record {
  leb = severity_leb;
  total = severity_leb-total;
  trans = severity_leb_trans;
  antisymm = severity_leb_antisymm;
}

pub record Finding : Type 0 where
  pub check_name : String
  pub severity : Severity
  pub file_path : String
  pub line : ℕ
  pub function_name : String
  pub description : String
  pub rule_url : Option String
  pub suggestion : Option String

-- what a panic of a check carries
pub data Payload : Type 0 where
  str_slice owned : String → Payload
  other : Payload

-- A run of a check returns its findings, or panics.
pub data Outcome : Type 0 where
  hits : List Finding → Outcome
  panics : Payload → Outcome

-- The trait `Check`, over the type of parsed files.
pub record Check {ℓ} (File : Type ℓ) : Type ℓ where
  pub name : String
  pub run : File → String → Outcome
