-- ===== src/Review/Votes.antt =====
-- Helpful votes (internal/review/service.go and repository.go).
use stora_ecommerce.Prelude.{
  ℕ, ⊤, Bool, true, false, not, ◌&&◌, Option, [], ◌∷◌, ◌++◌, ◌==◌, any_where, delete_where,
  if◌then◌else◌,
}
use stora_ecommerce.Schema.{Review, Vote, Db}
use stora_ecommerce.Effect.{
  Result, ok, M, pure, lift, ◌>>=◌, raise_if, query, infra, review_not_found,
}
use stora_ecommerce.Review.{is_approved, parsed}

-- Votes.

abbrev pub is_vote : ℕ → ℕ → Vote → Bool
is_vote review user v = v.review_id == review && v.user_id == user

abbrev pub is_public : ℕ → Review → Bool
is_public id r = r.id == id && is_approved r.status

-- `INSERT ... SELECT ... WHERE EXISTS ... ON CONFLICT DO NOTHING`: how many rows.
abbrev pub insert_vote : ℕ → ℕ → Db → Result Bool × Db
insert_vote review user db =
    if any_where (is_public review) db.reviews
      && not (any_where (is_vote review user) db.review_votes)
    then (
      ok true,
      record db {
        review_votes = db.review_votes ++ record { review_id = review; user_id = user } ∷ [];
      },
    )
    else (ok false, db)

abbrev pub or_check : ℕ → Bool → M ⊤
or_check review true = pure tt
or_check review false = do
  there ← query (λ env t db. (ok (any_where (is_public review) db.reviews), db))
  raise_if (not there) review_not_found

unfoldable pub add_vote : ℕ → ℕ → M ⊤
add_vote review user = do
  inserted ← query (λ env t db. insert_vote review user db)
  or_check review inserted

unfoldable pub remove_vote : ℕ → ℕ → M ⊤
remove_vote review user = query (λ env t db.
    (ok tt, record db { review_votes = delete_where (is_vote review user) db.review_votes }))

unfoldable pub vote : Option ℕ → Option ℕ → Bool → M ⊤
vote review_id user_id helpful = do
  review ← lift (parsed review_not_found review_id)
  user ← lift (parsed infra user_id)
  if helpful then add_vote review user else remove_vote review user
