-- ===== src/Review.antt =====
-- Reviews (internal/review/service.go, internal/review/repository.go). The validator is an argument;
-- an id that does not parse is `none`. The trigger that copies averages into `products` is left out.
pub mod Votes
pub mod Listing
pub mod Moderation
pub mod Eligible
use stora_ecommerce.Prelude.{
  ℕ, ◌+◌, ◌-◌, ◌*◌, ⊤, Bool, true, false, not, ◌&&◌, ◌||◌, Option, none, some, List, [], ◌∷◌, ◌++◌,
  ◌==◌, ltb, take, drop, length, same_id, find_where, any_where, count_where, update_where,
  delete_where, if◌then◌else◌,
}
use stora_ecommerce.Schema.{
  Text, OrderStatus, OrderItem, OrderEntry, Product, ReviewStatus, pending, approved, hidden,
  Review, Vote, Db,
}
use stora_ecommerce.Effect.{
  Env, Err, Result, ok, err, M, pure, raise, lift, ◌>>=◌, ◌>>◌, raise_if, attempt, query, rows_seen,
  infra, validation, product_not_found, review_not_found, already_reviewed, not_purchased,
  invalid_review_status,
}

pub record CreateReviewRequest : Type 0 where
  pub rating : ℕ
  pub comment : Option Text

abbrev pub is_approved : ReviewStatus → Bool
is_approved pending = false
is_approved approved = true
is_approved hidden = false

abbrev pub is_pending : ReviewStatus → Bool
is_pending pending = true
is_pending approved = false
is_pending hidden = false

-- `o.status IN ('paid', 'processing', 'shipped', 'delivered')`
abbrev pub counts_as_bought : OrderStatus → Bool
counts_as_bought OrderStatus.pending_payment = false
counts_as_bought OrderStatus.paid = true
counts_as_bought OrderStatus.payment_failed = false
counts_as_bought OrderStatus.processing = true
counts_as_bought OrderStatus.shipped = true
counts_as_bought OrderStatus.delivered = true
counts_as_bought OrderStatus.cancelled = false
counts_as_bought OrderStatus.refunded = false

abbrev pub is_purchase : ℕ → ℕ → OrderEntry → Bool
is_purchase user product o =
    same_id o.row.user_id (some user)
    && (any_where (λ (it : OrderItem). same_id it.product_id (some product)) o.items
        && counts_as_bought o.row.status)

unfoldable pub has_purchased : ℕ → ℕ → M Bool
has_purchased user product =
    query (λ env t db. (ok (any_where (is_purchase user product) db.orders), db))

abbrev pub is_by : ℕ → ℕ → Review → Bool
is_by user product r = r.user_id == user && r.product_id == product

-- `INSERT INTO reviews`, under the unique and the foreign key.
abbrev pub insert_review : Option Product → Review → Db → Result Review × Db
insert_review product r db =
    if any_where (is_by r.user_id r.product_id) db.reviews
    then (err already_reviewed, db)
    else elim product [
      | none ↦ (err product_not_found, db)
      | some x ↦ (ok r, record db { reviews = db.reviews ++ r ∷ [] })
    ]

abbrev pub new_review : Env → ℕ → ℕ → ℕ → CreateReviewRequest → Review
new_review env t user product req = record {
  id = env.default_id t;
  user_id = user;
  product_id = product;
  rating = req.rating;
  comment = req.comment;
  status = approved;
  created_at = env.now t;
}

-- `Repository.Create`
unfoldable pub store_review : ℕ → ℕ → CreateReviewRequest → M Review
store_review user product req =
    query (λ env t db. insert_review (db.products product) (new_review env t user product req) db)

abbrev pub parsed : Err → Option ℕ → Result ℕ
parsed e none = err e
parsed e (some id) = ok id

unfoldable pub create :
    (CreateReviewRequest → Bool) → Option ℕ → Option ℕ → CreateReviewRequest → M Review
create valid user_id product_id req = do
  raise_if (not (valid req)) validation
  user ← lift (parsed infra user_id)
  product ← lift (parsed product_not_found product_id)
  purchased ← has_purchased user product
  raise_if (not purchased) not_purchased
  store_review user product req

abbrev pub or_review_not_found : Option Review → Result Review
or_review_not_found none = err review_not_found
or_review_not_found (some r) = ok r

unfoldable pub get_user_review : ℕ → ℕ → M Review
get_user_review user product =
    query (λ env t db. (or_review_not_found (find_where (is_by user product) db.reviews), db))

pub record Eligibility : Type 0 where
  pub can_review : Bool
  pub has_purchased : Bool
  pub already_reviewed : Bool
  pub existing_rating : Option ℕ
  pub existing_pending : Bool

abbrev pub is_review_not_found : Err → Bool
is_review_not_found review_not_found = true
is_review_not_found e = false

abbrev pub eligible_after : Bool → Result Review → M Eligibility
eligible_after purchased (ok r) = pure (record {
  can_review = purchased && not true;
  has_purchased = purchased;
  already_reviewed = true;
  existing_rating = some r.rating;
  existing_pending = is_pending r.status;
})
eligible_after purchased (err e) =
    if is_review_not_found e
    then pure (record {
      can_review = purchased && not false;
      has_purchased = purchased;
      already_reviewed = false;
      existing_rating = none;
      existing_pending = false;
    })
    else raise e

unfoldable pub eligibility : Option ℕ → Option ℕ → M Eligibility
eligibility user_id product_id = do
  user ← lift (parsed infra user_id)
  product ← lift (parsed product_not_found product_id)
  purchased ← has_purchased user product
  existing ← attempt (get_user_review user product)
  eligible_after purchased existing
