-- ===== src/Review/Listing.antt =====
-- The public list of a product (`List` and `ListByProduct` of internal/review).
use stora_ecommerce.Prelude.{
  ℕ, ◌+◌, ◌-◌, ◌*◌, Bool, true, false, ◌&&◌, ◌||◌, Option, none, some, List, [], ◌∷◌, ◌==◌, ltb,
  take, drop, any_where, count_where, if◌then◌else◌,
}
use stora_ecommerce.Schema.{Text, Review, Vote}
use stora_ecommerce.Effect.{ok, M, pure, lift, ◌>>=◌, query, rows_seen, product_not_found}
use stora_ecommerce.Review.{is_approved, parsed}

-- The public list of a product.

pub data SortOrder : Type 0 where
  helpful newest highest lowest other : SortOrder

pub record PublicReview : Type 0 where
  pub id : ℕ
  pub rating : ℕ
  pub comment : Option Text
  pub helpful_count : ℕ
  pub voted_by_me : Bool
  pub mine_to_edit : Bool
  pub created_at : ℕ

abbrev pub by_viewer : Option ℕ → ℕ → Bool
by_viewer none user = false
by_viewer (some viewer) user = user == viewer

abbrev pub public_review : Option ℕ → List Vote → Review → PublicReview
public_review viewer votes r = record {
  id = r.id;
  rating = r.rating;
  comment = r.comment;
  helpful_count = count_where (λ (v : Vote). v.review_id == r.id) votes;
  voted_by_me = any_where (λ (v : Vote). v.review_id == r.id && by_viewer viewer v.user_id) votes;
  mine_to_edit = by_viewer viewer r.user_id;
  created_at = r.created_at;
}

abbrev pub then_newest : Bool → Bool → PublicReview → PublicReview → Bool
then_newest less greater a b =
    if less then true else if greater then false else ltb b.created_at a.created_at

-- `orderClause`: whether one row comes before another.
abbrev pub precedes : SortOrder → PublicReview → PublicReview → Bool
precedes newest a b = ltb b.created_at a.created_at
precedes highest a b = then_newest (ltb b.rating a.rating) (ltb a.rating b.rating) a b
precedes lowest a b = then_newest (ltb a.rating b.rating) (ltb b.rating a.rating) a b
precedes helpful a b =
    then_newest (ltb b.helpful_count a.helpful_count) (ltb a.helpful_count b.helpful_count) a b
precedes other a b =
    then_newest (ltb b.helpful_count a.helpful_count) (ltb a.helpful_count b.helpful_count) a b

abbrev pub insert_by : SortOrder → PublicReview → List PublicReview → List PublicReview
insert_by order a [] = a ∷ []
insert_by order a (b ∷ rest) =
    if precedes order b a then b ∷ insert_by order a rest else a ∷ b ∷ rest

abbrev pub is_shown : ℕ → Review → Bool
is_shown product r = r.product_id == product && is_approved r.status

unfoldable pub shown : SortOrder → ℕ → Option ℕ → List Vote → List Review → List PublicReview
shown order product viewer votes [] = []
shown order product viewer votes (r ∷ reviews) =
    let rest = shown order product viewer votes reviews in
    if is_shown product r then insert_by order (public_review viewer votes r) rest else rest

-- `GROUP BY rating`: the stars that occur, of the five that the column admits.
abbrev pub of_star : ℕ → ℕ → Review → Bool
of_star product star r = is_shown product r && r.rating == star

abbrev pub group_of : ℕ → List Review → ℕ → List (ℕ × ℕ) → List (ℕ × ℕ)
group_of product reviews star rest =
    let count = count_where (of_star product star) reviews in
    if count == 0 then rest else (star, count) ∷ rest

unfoldable pub groups : ℕ → List Review → List (ℕ × ℕ)
groups product reviews = group_of product reviews 1 (
    group_of product reviews 2
      (group_of product reviews 3 (group_of product reviews 4 (group_of product reviews 5 []))))

-- The loop over the groups: `dist`, `total` and `weighted`, whose quotient is the average.
pub record Aggregate : Type 0 where
  pub distribution : ℕ → ℕ
  pub total : ℕ
  pub weighted : ℕ

unfoldable pub aggregate : List (ℕ × ℕ) → Aggregate → Aggregate
aggregate [] a = a
aggregate ((star, count) ∷ rest) a = aggregate rest (record {
  distribution = λ s. if s == star then count else a.distribution s;
  total = a.total + count;
  weighted = a.weighted + star * count;
})

abbrev pub no_ratings : Aggregate
no_ratings = record { distribution = λ s. 0; total = 0; weighted = 0 }

pub record ListResult : Type 0 where
  pub reviews : List PublicReview
  pub page : ℕ
  pub page_size : ℕ
  pub ratings : Aggregate

-- Neither loop asks `rows.Err()`.
unfoldable pub list_by_product : ℕ → SortOrder → ℕ → ℕ → Option ℕ → M ListResult
list_by_product product order page page_size viewer = do
  reviews ← query (λ env t db. (
    ok (
        rows_seen (env.cut t) (
          take page_size (
            drop ((page - 1) * page_size)
              (shown order product viewer db.review_votes db.reviews)))),
    db,
  ))
  stars ← query (λ env t db. (ok (rows_seen (env.cut t) (groups product db.reviews)), db))
  pure (record {
    reviews = reviews;
    page = page;
    page_size = page_size;
    ratings = aggregate stars no_ratings;
  })

unfoldable pub list : Option ℕ → SortOrder → ℕ → ℕ → Option ℕ → M ListResult
list product_id order page page_size viewer = do
  let p = if ltb page 1 then 1 else page
  let size = if ltb page_size 1 || ltb 100 page_size then 10 else page_size
  product ← lift (parsed product_not_found product_id)
  list_by_product product order p size viewer
