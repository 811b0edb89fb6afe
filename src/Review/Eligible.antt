-- ===== src/Review/Eligible.antt =====
-- What `Eligibility` tells and what `Create` does (internal/review/service.go).
use stora_ecommerce.Prelude.{
  ℕ, ◌+◌, ◌≡◌, refl, sym, ap, ◌∙◌, Bool, true, false, not, ◌&&◌, Option, none, some, is_none, List,
  [], ◌∷◌, ◌++◌, ◌==◌, arith, find_where, any_where, Bool-cases, inl, inr,
}
use stora_ecommerce.Schema.{Product, Review, Db}
use stora_ecommerce.Effect.{
  Env, World, Result, ok, err, ◌>>=◌, ◌>>◌, raise_if, attempt, query, not_purchased, validation,
}
use stora_ecommerce.Effect.Rely.{bind-ok}
use stora_ecommerce.Effect.Quiet.{Quiet}
use stora_ecommerce.Orders.Released.{Faultless}
use stora_ecommerce.Review.{
  is_approved, CreateReviewRequest, is_purchase, has_purchased, is_by, insert_review, new_review,
  store_review, create, or_review_not_found, get_user_review, Eligibility, eligible_after,
  eligibility,
}

abbrev pub may_review : Result Eligibility → Bool
may_review (ok e) = e.can_review
may_review (err x) = false

-- The review that is returned is a row of the table, of the user, of the product, and approved and
-- with the rating of the request.
abbrev pub is_stored : ℕ → ℕ → CreateReviewRequest → Result Review → Db → Bool
is_stored user product req (ok r) db =
    any_where
      (λ (x : Review).
        x.id == r.id && (is_by user product x && (x.rating == req.rating && is_approved x.status)))
      db.reviews
is_stored user product req (err x) db = false

any_where-last :
    (p : Review → Bool) (rows : List Review) (r : Review)
    → p r ≡ true
    → any_where p (rows ++ r ∷ []) ≡ true
any_where-last p [] r h = rw h refl
any_where-last p (x ∷ rows) r h = elim (Bool-cases (p x)) [
  | inl hit ↦ rw hit refl
  | inr miss ↦ rw miss (any_where-last p rows r h)
]

is_none-find_where :
    (p : Review → Bool) (rows : List Review) → is_none (find_where p rows) ≡ not (any_where p rows)
is_none-find_where p [] = refl
is_none-find_where p (r ∷ rows) = elim (Bool-cases (p r)) [
  | inl hit ↦ rw hit refl
  | inr miss ↦ rw miss (is_none-find_where p rows)
]

may_review-after :
    (purchased : Bool) (o : Option Review) (env : Env) (w : World)
    → may_review (eligible_after purchased (or_review_not_found o) env w).0
      ≡ (purchased && is_none o)
may_review-after purchased none env w = refl
may_review-after purchased (some r) env w = refl

module _ (env : Env) (quiet : Quiet env) (calm : Faultless env) where
  query_calm :
      {A : Type 0} (f : Env → ℕ → Db → Result A × Db) (w : World)
      → query f env w
        ≡ ((f env w.tick w.db).0, record w { db = (f env w.tick w.db).1; tick = w.tick + 1 })
  query_calm f w = rw (quiet.alone w.tick w.db, calm.fine w.tick) refl

  may_review_lem :
      (user product : ℕ) (w : World)
      → may_review (eligibility (some user) (some product) env w).0 ≡ (
          any_where (is_purchase user product) w.db.orders
          && not (any_where (is_by user product) w.db.reviews))
  unfolding eligibility has_purchased get_user_review
  may_review_lem user product w =
      let purchased = any_where (is_purchase user product) w.db.orders in
      let w1 : World = record w { tick = w.tick + 1 } in
      let found = find_where (is_by user product) w.db.reviews in
      ap (λ (x : Result Eligibility × World). may_review x.0)
        (bind-ok env (has_purchased user product)
            (λ purchased. attempt (get_user_review user product) >>= eligible_after purchased)
            purchased w w1
            (query_calm (λ env t db. (ok (any_where (is_purchase user product) db.orders), db)) w)
          ∙ bind-ok env (attempt (get_user_review user product)) (eligible_after purchased)
              (or_review_not_found found) w1 (record w1 { tick = w1.tick + 1 })
              (ap (λ (x : Result Review × World). (ok x.0, x.1))
                (query_calm
                  (λ env t db.
                    (or_review_not_found (find_where (is_by user product) db.reviews), db))
                  w1)))
      ∙ may_review-after purchased found env (record w1 { tick = w1.tick + 1 })
      ∙ ap (λ b. purchased && b) (is_none-find_where (is_by user product) w.db.reviews)

  insert_review-stored :
      (t user product : ℕ) (req : CreateReviewRequest) (x : Product) (db : Db)
      → let r = insert_review (some x) (new_review env t user product req) db in
        is_stored user product req r.0 r.1 ≡ not (any_where (is_by user product) db.reviews)
  insert_review-stored t user product req x db =
      elim (Bool-cases (any_where (is_by user product) db.reviews)) [
        | inl clash ↦ rw clash refl
        | inr free ↦ rw free (
            any_where-last
              (λ (x : Review).
                x.id == env.default_id t
                && (is_by user product x && (x.rating == req.rating && is_approved x.status)))
              db.reviews (new_review env t user product req) (ground arith))
      ]

  stored_lem :
      (user product : ℕ) (req : CreateReviewRequest) (x : Product) (w : World)
      → w.db.products product ≡ some x
      → let r = store_review user product req env w in
        is_stored user product req r.0 r.1.db ≡ not (any_where (is_by user product) w.db.reviews)
  unfolding store_review
  stored_lem user product req x w there =
      let r = new_review env w.tick user product req in
      ap (λ (x : Result Review × World). is_stored user product req x.0 x.1.db)
        (query_calm
          (λ env t db. insert_review (db.products product) (new_review env t user product req) db)
          w)
      ∙ ap (λ o. is_stored user product req (insert_review o r w.db).0 (insert_review o r w.db).1)
          there
      ∙ insert_review-stored w.tick user product req x w.db

  stored_review_lem :
      (valid : CreateReviewRequest → Bool) (user product : ℕ) (req : CreateReviewRequest)
      (x : Product) (w : World)
      → valid req ≡ true
      → w.db.products product ≡ some x
      → let r = create valid (some user) (some product) req env w in
        is_stored user product req r.0 r.1.db ≡ (
          any_where (is_purchase user product) w.db.orders
          && not (any_where (is_by user product) w.db.reviews))
  unfolding create has_purchased
  stored_review_lem valid user product req x w accepted there =
      let purchased = any_where (is_purchase user product) w.db.orders in
      let w1 : World = record w { tick = w.tick + 1 } in
      let rest = λ (b : Bool). raise_if (not b) not_purchased >> store_review user product req in
      ap
        (λ b.
          let r = (raise_if (not b) validation >> (has_purchased user product >>= rest)) env w in
          is_stored user product req r.0 r.1.db)
        accepted
      ∙ ap (λ (x : Result Review × World). is_stored user product req x.0 x.1.db)
          (bind-ok env (has_purchased user product) rest purchased w w1
            (query_calm (λ env t db. (ok (any_where (is_purchase user product) db.orders), db)) w))
      ∙ guarded purchased w1 there
    where
      guarded :
          (b : Bool) (w1 : World)
          → w1.db.products product ≡ some x
          → let r = (raise_if (not b) not_purchased >> store_review user product req) env w1 in
            is_stored user product req r.0 r.1.db
            ≡ (b && not (any_where (is_by user product) w1.db.reviews))
      guarded true w1 there = stored_lem user product req x w1 there
      guarded false w1 there = refl

-- While no other request is at work and nothing fails, `Eligibility` tells that a user may review a
-- product of the shop exactly when `Create`, asked in its place with a valid review, returns a
-- review and leaves it in the table, of this user and product, approved and with the rating of the
-- request: when the user has bought the product and not reviewed it yet.
pub eligibility-create :
    (env : Env) (quiet : Quiet env) (calm : Faultless env) (valid : CreateReviewRequest → Bool)
    (user product : ℕ) (req : CreateReviewRequest) (x : Product) (w : World)
    → valid req ≡ true
    → w.db.products product ≡ some x
    → (may_review (eligibility (some user) (some product) env w).0
        ≡ is_stored user product req
            (create valid (some user) (some product) req env w).0
            (create valid (some user) (some product) req env w).1.db)
      × (may_review (eligibility (some user) (some product) env w).0 ≡ (
          any_where (is_purchase user product) w.db.orders
          && not (any_where (is_by user product) w.db.reviews)))
eligibility-create env quiet calm valid user product req x w accepted there = (
  may_review_lem env quiet calm user product w
      ∙ sym (stored_review_lem env quiet calm valid user product req x w accepted there),
  may_review_lem env quiet calm user product w,
)
