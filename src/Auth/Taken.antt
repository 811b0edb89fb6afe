-- ===== src/Auth/Taken.antt =====
-- Refresh tokens that are used, by their id (`MarkRefreshTokenUsed` of internal/auth/repository.go).
use stora_ecommerce.Prelude.{
  ℕ, ◌≡◌, ◌∙◌, refl, Bool, true, false, ◌||◌, ◌==◌, List, [], ◌∷◌, ◌++◌, any_where, update_where,
  Bool-cases, inl, inr, arith,
}
use mathlib.Core.Path.{subst}
use stora_ecommerce.Schema.{RefreshToken, Db}
use stora_ecommerce.Effect.Rely.{Ends}
use stora_ecommerce.Auth.Repository.{has_row, is_unused, set_used, mark_used}

-- There is a row with the id, and none that is unused.
pub record Taken (id : ℕ) (rows : List RefreshToken) : Type 0 where
  pub there : any_where (has_row id) rows ≡ true
  pub used : any_where (is_unused id) rows ≡ false

module _ {A : Type 0} (p : A → Bool) where
  any_where-append : (xs ys : List A) → any_where p (xs ++ ys) ≡ (any_where p xs || any_where p ys)
  any_where-append [] ys = refl
  any_where-append (x ∷ xs) ys = elim (Bool-cases (p x)) [
    | inl hit ↦ rw hit refl
    | inr miss ↦ rw miss (any_where-append xs ys)
  ]

  any_where-update :
      (q : A → Bool) (f : A → A)
      → ((a : A) → p (f a) ≡ p a)
      → (xs : List A) → any_where p (update_where q f xs) ≡ any_where p xs
  any_where-update q f same [] = refl
  any_where-update q f same (x ∷ xs) = elim (Bool-cases (q x)) [
    | inl chosen ↦ rw (chosen, same x, any_where-update q f same xs) refl
    | inr other ↦ rw (other, any_where-update q f same xs) refl
  ]

  -- An update of what has a property ends it for all.
  none_where-update :
      (f : A → A)
      → ((a : A) → p (f a) ≡ false)
      → (xs : List A) → any_where p (update_where p f xs) ≡ false
  none_where-update f ends [] = refl
  none_where-update f ends (x ∷ xs) = elim (Bool-cases (p x)) [
    | inl hit ↦ rw (hit, ends x) (none_where-update f ends xs)
    | inr miss ↦ rw (miss, miss) (none_where-update f ends xs)
  ]

  -- An update that gives nothing a property.
  still_none_where :
      (q : A → Bool) (f : A → A)
      → ((a : A) → p a ≡ false → p (f a) ≡ false)
      → (xs : List A) → any_where p xs ≡ false
      → any_where p (update_where q f xs) ≡ false
  still_none_where q f keep [] h = refl
  still_none_where q f keep (x ∷ xs) h = elim (Bool-cases (p x)) [
    | inl hit ↦ absurd (ground (arith, hit, h))
    | inr miss ↦ elim (Bool-cases (q x)) [
      | inl chosen ↦
          rw (chosen, keep x miss) (still_none_where q f keep xs (ground (arith, miss, h)))
      | inr other ↦ rw (other, miss) (still_none_where q f keep xs (ground (arith, miss, h)))
    ]
  ]

pub Taken-update :
    (id : ℕ) (q : RefreshToken → Bool) (f : RefreshToken → RefreshToken)
    → ((r : RefreshToken) → has_row id (f r) ≡ has_row id r)
    → ((r : RefreshToken) → is_unused id r ≡ false → is_unused id (f r) ≡ false)
    → (rows : List RefreshToken) → Taken id rows
    → Taken id (update_where q f rows)
Taken-update id q f same keep rows t = record {
  there = any_where-update (has_row id) q f same rows ∙ t.there;
  used = still_none_where (is_unused id) q f keep rows t.used;
}

pub Taken-append :
    (id : ℕ) (row : RefreshToken) (rows : List RefreshToken)
    → any_where (has_row row.id) rows ≡ false
    → Taken id rows
    → Taken id (rows ++ row ∷ [])
Taken-append id row rows free t = elim (Bool-cases (row.id == id)) [
  | inl same ↦ absurd (clash (ground (arith, same)))
  | inr other ↦ record {
    there = any_where-append (has_row id) rows (row ∷ []) ∙ rw t.there refl;
    used = any_where-append (is_unused id) rows (row ∷ []) ∙ rw (t.used, other) refl;
  }
]
  where
    clash : row.id ≡ id → ⊥
    clash e = cc (subst (λ i. any_where (has_row i) rows ≡ false) e free, t.there)

unused-there :
    (id : ℕ) (rows : List RefreshToken)
    → any_where (is_unused id) rows ≡ true
    → any_where (has_row id) rows ≡ true
unused-there id [] h = h
unused-there id (r ∷ rows) h = elim (Bool-cases (r.id == id)) [
  | inl same ↦ rw same refl
  | inr other ↦ rw other (unused-there id rows (ground (arith, other, h)))
]

-- The update takes a token of the id.
pub mark_used-Taken :
    (id : ℕ) (db : Db)
    → Ends (λ _ db. Taken id db.refresh_tokens) (mark_used id db).0 (mark_used id db).1
mark_used-Taken id db = elim (Bool-cases (any_where (is_unused id) db.refresh_tokens)) [
  | inl found ↦ rw found record {
    there =
        any_where-update (has_row id) (is_unused id) set_used (λ a. refl) db.refresh_tokens
        ∙ unused-there id db.refresh_tokens found;
    used = none_where-update (is_unused id) set_used (λ r. ground arith) db.refresh_tokens;
  }
  | inr gone ↦ rw gone tt
]

-- Who comes late takes nothing.
pub mark_used-late :
    (id : ℕ) (db : Db)
    → Taken id db.refresh_tokens
    → Ends (λ _ _. ⊥) (mark_used id db).0 (mark_used id db).1
mark_used-late id db t = rw (t.used) tt
