-- ===== src/Strings/Trim.antt =====
-- Lemmas on the text functions.
use stora_ecommerce.Prelude.{
  ℕ, ◌-◌, ◌≡◌, refl, ap, ◌∙◌, false, ◌&&◌, leb, map, [], ◌∷◌, arith, if◌then◌else◌, Bool-cases, inl,
  inr,
}
use stora_ecommerce.Schema.{Text}
use stora_ecommerce.Strings.{is_space, trim_left, push_trimmed, trim_right, trim_space, to_upper}

trim_right-push_trimmed :
    (c : ℕ) (r : Text) → trim_right r ≡ r → trim_right (push_trimmed c r) ≡ push_trimmed c r
trim_right-push_trimmed c [] h = elim (Bool-cases (is_space c)) [
  | inl s ↦ rw s refl
  | inr s ↦ rw s (rw s refl)
]
trim_right-push_trimmed c (d ∷ rest) h = rw h refl

trim_right_twice : (t : Text) → trim_right (trim_right t) ≡ trim_right t
trim_right_twice [] = refl
trim_right_twice (c ∷ t) = trim_right-push_trimmed c (trim_right t) (trim_right_twice t)

trim_left-push_trimmed :
    (c : ℕ) (r : Text) → is_space c ≡ false → trim_left (push_trimmed c r) ≡ push_trimmed c r
trim_left-push_trimmed c [] h = rw h (rw h refl)
trim_left-push_trimmed c (d ∷ rest) h = rw h refl

-- What is trimmed on the left stays so when it is trimmed on the right.
trim_left-trim_right : (t : Text) → trim_left (trim_right (trim_left t)) ≡ trim_right (trim_left t)
trim_left-trim_right [] = refl
trim_left-trim_right (c ∷ t) = elim (Bool-cases (is_space c)) [
  | inl s ↦ rw s (trim_left-trim_right t)
  | inr s ↦ rw s (trim_left-push_trimmed c (trim_right t) s)
]

pub trim_space_twice : (t : Text) → trim_space (trim_space t) ≡ trim_space t
unfolding trim_space
trim_space_twice t = ap trim_right (trim_left-trim_right t) ∙ trim_right_twice (trim_left t)

abbrev upper : ℕ → ℕ
upper c = if leb b'a' c && leb c b'z' then c - 32 else c

is_space-upper : (c : ℕ) → is_space (upper c) ≡ is_space c
is_space-upper c = ground arith

upper_twice : (c : ℕ) → upper (upper c) ≡ upper c
upper_twice c = ground arith

trim_left-upper : (t : Text) → trim_left (map upper t) ≡ map upper (trim_left t)
trim_left-upper [] = refl
trim_left-upper (c ∷ t) = elim (Bool-cases (is_space c)) [
  | inl s ↦ rw (is_space-upper c, s) (trim_left-upper t)
  | inr s ↦ rw (is_space-upper c, s) refl
]

push_trimmed-upper :
    (c : ℕ) (r : Text) → push_trimmed (upper c) (map upper r) ≡ map upper (push_trimmed c r)
push_trimmed-upper c [] = elim (Bool-cases (is_space c)) [
  | inl s ↦ rw (is_space-upper c, s) refl
  | inr s ↦ rw (is_space-upper c, s) refl
]
push_trimmed-upper c (d ∷ r) = refl

trim_right-upper : (t : Text) → trim_right (map upper t) ≡ map upper (trim_right t)
trim_right-upper [] = refl
trim_right-upper (c ∷ t) =
    ap (push_trimmed (upper c)) (trim_right-upper t) ∙ push_trimmed-upper c (trim_right t)

map-upper_twice : (t : Text) → map upper (map upper t) ≡ map upper t
map-upper_twice [] = refl
map-upper_twice (c ∷ t) = cc (upper_twice c, map-upper_twice t)

pub country_twice :
    (t : Text) → to_upper (trim_space (to_upper (trim_space t))) ≡ to_upper (trim_space t)
unfolding to_upper trim_space
country_twice t =
    ap (λ x. map upper (trim_right x)) (trim_left-upper (trim_space t))
    ∙ ap (map upper) (trim_right-upper (trim_left (trim_space t)))
    ∙ map-upper_twice (trim_space (trim_space t))
    ∙ ap (map upper) (trim_space_twice t)

pub trim_space-to_upper : (t : Text) → trim_space (to_upper t) ≡ to_upper (trim_space t)
unfolding to_upper trim_space
trim_space-to_upper t = ap trim_right (trim_left-upper t) ∙ trim_right-upper (trim_left t)
