-- ===== src/Review/Moderation.antt =====
-- Moderation (`ListForModeration`, `SetStatus` and `Delete` of internal/review).
use stora_ecommerce.Prelude.{
  ℕ, ◌-◌, ◌*◌, ⊤, Bool, true, false, not, ◌||◌, Option, none, some, List, [], ◌∷◌, ◌==◌, ltb, take,
  drop, any_where, count_where, update_where, delete_where, if◌then◌else◌,
}
use stora_ecommerce.Schema.{
  Text, Product, ReviewStatus, pending, approved, hidden, Review, Vote, Db,
}
use stora_ecommerce.Effect.{
  Result, ok, err, M, pure, lift, ◌>>=◌, ◌>>◌, query, rows_seen, review_not_found,
  invalid_review_status,
}
use stora_ecommerce.Review.{is_approved, is_pending, parsed}

-- Moderation; a status that is none of the three is `none`.

abbrev pub set_review_status : ReviewStatus → Review → Review
set_review_status status r = record r { status = status }

abbrev pub is_review : ℕ → Review → Bool
is_review id r = r.id == id

abbrev pub update_review : ℕ → ReviewStatus → Db → Result ⊤ × Db
update_review id status db =
    if any_where (is_review id) db.reviews
    then (
      ok tt,
      record db { reviews = update_where (is_review id) (set_review_status status) db.reviews },
    )
    else (err review_not_found, db)

abbrev pub known_status : Option ReviewStatus → Result ReviewStatus
known_status none = err invalid_review_status
known_status (some status) = ok status

unfoldable pub set_status : Option ℕ → Option ReviewStatus → M ⊤
set_status review_id to = do
  status ← lift (known_status to)
  id ← lift (parsed review_not_found review_id)
  query (λ env t db. update_review id status db)

-- `ON DELETE CASCADE` takes the votes along.
abbrev pub delete_review : ℕ → Db → Result ⊤ × Db
delete_review id db =
    if any_where (is_review id) db.reviews
    then (
      ok tt,
      record db {
        reviews = delete_where (is_review id) db.reviews;
        review_votes = delete_where (λ (v : Vote). v.review_id == id) db.review_votes;
      },
    )
    else (err review_not_found, db)

unfoldable pub delete : Option ℕ → M ⊤
delete review_id = do
  id ← lift (parsed review_not_found review_id)
  query (λ env t db. delete_review id db)

-- The filter of the queue: the empty text, a status, or what is none.
pub data StatusFilter : Type 0 where
  every_status unknown_status : StatusFilter
  only_status : ReviewStatus → StatusFilter

pub record ModerationItem : Type 0 where
  pub id : ℕ
  pub product_id : ℕ
  pub product_name : Text
  pub rating : ℕ
  pub comment : Option Text
  pub status : ReviewStatus
  pub created_at : ℕ

abbrev pub has_status : ReviewStatus → Review → Bool
has_status pending r = is_pending r.status
has_status approved r = is_approved r.status
has_status hidden r = not (is_pending r.status || is_approved r.status)

abbrev pub passes : StatusFilter → Review → Bool
passes every_status r = true
passes unknown_status r = false
passes (only_status status) r = has_status status r

-- `ORDER BY created_at DESC`
abbrev pub insert_newest : ModerationItem → List ModerationItem → List ModerationItem
insert_newest a [] = a ∷ []
insert_newest a (b ∷ rest) =
    if ltb a.created_at b.created_at then b ∷ insert_newest a rest else a ∷ b ∷ rest

-- `JOIN products`: a review of no product has no row.
abbrev pub joined : Option Product → Review → List ModerationItem → List ModerationItem
joined none r rest = rest
joined (some p) r rest =
    insert_newest
      (record {
        id = r.id;
        product_id = r.product_id;
        product_name = p.name;
        rating = r.rating;
        comment = r.comment;
        status = r.status;
        created_at = r.created_at;
      })
      rest

unfoldable pub moderation_rows : StatusFilter → Db → List Review → List ModerationItem
moderation_rows filter db [] = []
moderation_rows filter db (r ∷ reviews) =
    let rest = moderation_rows filter db reviews in
    if passes filter r then joined (db.products r.product_id) r rest else rest

-- The loop does not ask `rows.Err()`.
unfoldable pub moderation_page : StatusFilter → ℕ → ℕ → M (List ModerationItem × ℕ)
moderation_page filter page page_size = do
  total ← query (λ env t db. (ok (count_where (passes filter) db.reviews), db))
  items ← query (λ env t db. (
    ok (
        rows_seen (env.cut t)
          (take page_size (drop ((page - 1) * page_size) (moderation_rows filter db db.reviews)))),
    db,
  ))
  pure (items, total)

abbrev pub known_filter : StatusFilter → Result ⊤
known_filter unknown_status = err invalid_review_status
known_filter every_status = ok tt
known_filter (only_status status) = ok tt

unfoldable pub list_for_moderation : StatusFilter → ℕ → ℕ → M (List ModerationItem × ℕ)
list_for_moderation filter page page_size = do
  let p = if ltb page 1 then 1 else page
  let size = if ltb page_size 1 || ltb 100 page_size then 20 else page_size
  lift (known_filter filter)
  moderation_page filter p size
