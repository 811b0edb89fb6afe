-- ===== src/Recommend/Diverse.antt =====
-- What the diversity cap guarantees (`Recommend` of internal/recommend/service.go).
use stora_ecommerce.Prelude.{
  ℕ, zero, suc, ◌+◌, ◌≤◌, ◌≡◌, refl, ap, Bool, false, Option, none, some, List, [], ◌∷◌, ◌==◌,
  length, count_where, Bool-cases, inl, inr, arith, if◌then◌else◌,
}
use stora_ecommerce.Recommend.{
  Scored, outranks, insert_scored, sort_scored, max_per_category, is_full, taken, pick, select,
}

abbrev pub in_category : ℕ → Scored → Bool
in_category c r = elim r.category [ none ↦ false | some k ↦ k == c ]

count-insert :
    (p : Scored → Bool) (a : Scored) (items : List Scored)
    → count_where p (insert_scored a items) ≡ (if p a then 1 else 0) + count_where p items
count-insert p a [] = refl
count-insert p a (b ∷ items) = elim (Bool-cases (outranks b a)) [
  | inl above ↦ rw above (omega (arith, count-insert p a items))
  | inr below ↦ rw below refl
]

count-sort :
    (p : Scored → Bool) (items : List Scored)
    → count_where p (sort_scored items) ≡ count_where p items
unfolding sort_scored
count-sort p [] = refl
count-sort p (a ∷ items) = omega (arith, count-insert p a (sort_scored items), count-sort p items)

count-pick :
    (p : Scored → Bool) (room : ℕ) (counts : ℕ → ℕ) (items : List Scored)
    → count_where p (pick room counts items) ≤ count_where p items
unfolding pick
count-pick p zero counts items = omega arith
count-pick p (suc room) counts [] = omega arith
count-pick p (suc room) counts (r ∷ items) = elim (Bool-cases (is_full counts r.category)) [
  | inl full ↦ rw full (omega (arith, count-pick p (suc room) counts items))
  | inr free ↦ rw free (omega (arith, count-pick p room (taken counts r.category) items))
]

length-pick :
    (room : ℕ) (counts : ℕ → ℕ) (items : List Scored) → length (pick room counts items) ≤ room
unfolding pick
length-pick zero counts items = omega arith
length-pick (suc room) counts [] = omega arith
length-pick (suc room) counts (r ∷ items) = elim (Bool-cases (is_full counts r.category)) [
  | inl full ↦ rw full (length-pick (suc room) counts items)
  | inr free ↦ rw free (omega (arith, length-pick room (taken counts r.category) items))
]

-- One item more of its category.
taken_lem :
    (c : ℕ) (counts : ℕ → ℕ) (o : Option ℕ)
    → taken counts o c ≡ counts c + (if (elim o [ none ↦ false | some k ↦ k == c ]) then 1 else 0)
taken_lem c counts none = omega arith
taken_lem c counts (some k) = ground arith

free_below :
    (c : ℕ) (counts : ℕ → ℕ) (o : Option ℕ)
    → counts c ≤ max_per_category
    → is_full counts o ≡ false
    → taken counts o c ≤ max_per_category
free_below c counts none h free = h
free_below c counts (some k) h free = elim (Bool-cases (c == k)) [
  | inl hit ↦
      let same : c ≡ k = ground (arith, hit) in
      let count : counts c ≡ counts k = ap counts same in rw hit (ground (arith, free, count))
  | inr miss ↦ rw miss h
]

category-pick :
    (c room : ℕ) (counts : ℕ → ℕ) (items : List Scored)
    → counts c ≤ max_per_category
    → count_where (in_category c) (pick room counts items) + counts c ≤ max_per_category
unfolding pick
category-pick c zero counts items h = omega (arith, h)
category-pick c (suc room) counts [] h = omega (arith, h)
category-pick c (suc room) counts (r ∷ items) h = elim (Bool-cases (is_full counts r.category)) [
  | inl full ↦ rw full (category-pick c (suc room) counts items h)
  | inr free ↦ rw free (
      omega (
        arith,
        taken_lem c counts r.category,
        category-pick c room (taken counts r.category) items
            (free_below c counts r.category h free),
      ))
]

-- Of the candidates, each taken at most as often as it is there, at most `limit` are recommended,
-- and at most two of every category.
pub select_diverse :
    (limit : ℕ) (candidates : List Scored)
    → (length (select limit candidates) ≤ limit)
      × ((c : ℕ) → count_where (in_category c) (select limit candidates) ≤ 2)
      × ((p : Scored → Bool) → count_where p (select limit candidates) ≤ count_where p candidates)
unfolding select
select_diverse limit candidates = (
  length-pick limit (λ c. 0) (sort_scored candidates),
  λ c. omega (arith, category-pick c limit (λ c. 0) (sort_scored candidates) (omega arith)),
  λ p. omega (arith, count-pick p limit (λ c. 0) (sort_scored candidates), count-sort p candidates),
)
