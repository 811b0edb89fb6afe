-- ===== src/Strings.antt =====
-- The functions of Go's strings package that the services call, on ASCII text.
pub mod Trim
use stora_ecommerce.Prelude.{
  ℕ, ◌+◌, ◌-◌, Bool, true, false, [], ◌∷◌, map, ◌&&◌, ◌||◌, ◌==◌, leb, if◌then◌else◌,
}
use stora_ecommerce.Schema.{Text}

-- `strings.TrimSpace` and `strings.ToUpper`, on ASCII.
abbrev pub is_space : ℕ → Bool
is_space c = c == 32 || leb 9 c && leb c 13

abbrev pub trim_left : Text → Text
trim_left [] = []
trim_left (c ∷ text) = let rest = trim_left text in if is_space c then rest else c ∷ text

abbrev pub push_trimmed : ℕ → Text → Text
push_trimmed c [] = if is_space c then [] else c ∷ []
push_trimmed c (d ∷ rest) = c ∷ d ∷ rest

abbrev pub trim_right : Text → Text
trim_right [] = []
trim_right (c ∷ text) = push_trimmed c (trim_right text)

unfoldable pub trim_space : Text → Text
trim_space text = trim_right (trim_left text)

unfoldable pub to_upper : Text → Text
to_upper text = map (λ c. if leb b'a' c && leb c b'z' then c - 32 else c) text

unfoldable pub to_lower : Text → Text
to_lower text = map (λ c. if leb b'A' c && leb c b'Z' then c + 32 else c) text

-- `==` on strings.
abbrev pub text_eq : Text → Text → Bool
text_eq [] [] = true
text_eq (a ∷ as') (b ∷ bs) = a == b && text_eq as' bs
text_eq _ _ = false
