-- ===== src/PasswordPolicy/Rules.antt =====
-- The loop over the code points (`Validate` of internal/passwordpolicy/policy.go) and the rules that
-- it is to enforce.
use stora_ecommerce.Prelude.{ℕ, ◌≡◌, Bool, false, ◌&&◌, ◌||◌, leb, any_where}
use stora_ecommerce.Schema.{Text}
use stora_ecommerce.PasswordPolicy.{RuneClass, min_length, max_length, byte_length, Seen}

-- The general categories of Unicode exclude one another.
pub record IsDisjoint (c : RuneClass) : Type 0 where
  pub one_class :
      (r : ℕ)
      → (c.is_upper r && (c.is_lower r || (c.is_digit r || (c.is_punct r || c.is_symbol r))))
          || (c.is_lower r && (c.is_digit r || (c.is_punct r || c.is_symbol r)))
          || (c.is_digit r && (c.is_punct r || c.is_symbol r))
        ≡ false

-- What the scan adds to what was seen before.
abbrev found : RuneClass → Text → Seen → Seen
found c pw s = record {
  has_upper = s.has_upper || any_where c.is_upper pw;
  has_lower = s.has_lower || any_where c.is_lower pw;
  has_digit = s.has_digit || any_where c.is_digit pw;
  has_symbol = s.has_symbol || any_where (λ r. c.is_punct r || c.is_symbol r) pw;
}

-- The rules, each on its own: 8 to 72 bytes, and a code point of every class.
abbrev pub strong : RuneClass → Text → Bool
strong c pw =
    leb min_length (byte_length pw)
    && (leb (byte_length pw) max_length
        && (any_where c.is_upper pw
            && (any_where c.is_lower pw
                && (any_where c.is_digit pw && any_where (λ r. c.is_punct r || c.is_symbol r) pw))))
