-- ===== src/PasswordPolicy.antt =====
-- The password rules (internal/passwordpolicy/policy.go). A password is a list of code points; the
-- classes of Unicode are the fields of a record.
pub mod Rules
use stora_ecommerce.Prelude.{ℕ, ◌+◌, ⊤, Bool, true, false, [], ◌∷◌, ◌&&◌, ◌||◌, ltb, if◌then◌else◌}
use stora_ecommerce.Schema.{Text}
use stora_ecommerce.Effect.{Result, ok, err, weak_password}

-- `unicode.IsUpper` and so on.
pub record RuneClass : Type 0 where
  pub is_upper : ℕ → Bool
  pub is_lower : ℕ → Bool
  pub is_digit : ℕ → Bool
  pub is_punct : ℕ → Bool
  pub is_symbol : ℕ → Bool

abbrev pub min_length : ℕ
min_length = 8

abbrev pub max_length : ℕ
max_length = 72

-- How many bytes a code point takes in UTF-8.
abbrev pub rune_len : ℕ → ℕ
rune_len r = if ltb r 0x80 then 1 else if ltb r 0x800 then 2 else if ltb r 0x10000 then 3 else 4

unfoldable pub byte_length : Text → ℕ
byte_length [] = 0
byte_length (r ∷ pw) = rune_len r + byte_length pw

pub record Seen : Type 0 where
  pub has_upper : Bool
  pub has_lower : Bool
  pub has_digit : Bool
  pub has_symbol : Bool

-- The `switch` on one code point.
abbrev pub see : RuneClass → ℕ → Seen → Seen
see c r s =
    if c.is_upper r
    then record s { has_upper = true }
    else if c.is_lower r
    then record s { has_lower = true }
    else if c.is_digit r
    then record s { has_digit = true }
    else if c.is_punct r || c.is_symbol r
    then record s { has_symbol = true }
    else s

unfoldable pub scan : RuneClass → Text → Seen → Seen
scan c [] s = s
scan c (r ∷ pw) s = scan c pw (see c r s)

abbrev pub nothing_seen : Seen
nothing_seen = record {
  has_upper = false;
  has_lower = false;
  has_digit = false;
  has_symbol = false;
}

abbrev pub verdict : Seen → Result ⊤
verdict s =
    if s.has_upper && (s.has_lower && (s.has_digit && s.has_symbol))
    then ok tt
    else err weak_password

unfoldable pub validate : RuneClass → Text → Result ⊤
validate c pw =
    if ltb (byte_length pw) min_length || ltb max_length (byte_length pw)
    then err weak_password
    else verdict (scan c pw nothing_seen)
