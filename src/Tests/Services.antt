-- ===== src/Tests/Services.antt =====
-- The theorems on the cache, the limiter, events, addresses, reviews and recommendations.
use stora_ecommerce.Prelude.{
  ℕ, ◌+◌, ◌*◌, ◌-◌, ◌≡◌, ◌≤◌, ◌&&◌, ◌==◌, if◌then◌else◌, not, refl, Bool, true, none, some, List,
  [], ◌∷◌, ⊤, length, count_where, any_where, arith,
}
use stora_ecommerce.Effect.{World, M, ok, err, infra}
use stora_ecommerce.Cache.{Call, get_key, set_key, delete_key, tick, answers, new_memory}
use stora_ecommerce.Cache.Unswept.{spec_answers, answers-spec_answers}
use stora_ecommerce.RateLimit.{Limit, unit, admitted}
use stora_ecommerce.RateLimit.Bound.{admitted_bound}
use stora_ecommerce.Messaging.{
  acked, dispatch, succeeded_event, send_confirmation, handle, consume, backoffs,
}
use stora_ecommerce.Crypto.{decrypt_bytes, decrypt}
use stora_ecommerce.Orders.Model.{decrypt_order, decrypt_address}
use stora_ecommerce.Orders.Table.{find_order}
use stora_ecommerce.Orders.Repository.{query_row, query_items, query_address, get_by_id}
use stora_ecommerce.Orders.Service.{respond, load_by_id}
use stora_ecommerce.Messaging.Settled.{
  done, again, Settles, Mailed, dispatch-acked, dispatch-Settles, consume-Mailed,
}
use stora_ecommerce.Address.Requests.{set_default_address, handle_address, handle_address-IsTidy}
use stora_ecommerce.Address.Tidy.{IsTidy}
use stora_ecommerce.Review.{
  has_purchased, get_user_review, CreateReviewRequest, is_purchase, is_by, eligibility, create,
}
use stora_ecommerce.Review.Eligible.{may_review, is_stored, eligibility-create}
use stora_ecommerce.Recommend.{Scored, select}
use stora_ecommerce.Recommend.Diverse.{in_category, select_diverse}
use stora_ecommerce.Tests.{calm_env, shop, world}

-- A value that is read while it lives, swept, and read again.
abbrev calls : List (ℕ × Call)
calls =
    (0, set_key 1 (b'v' ∷ []) 5)
    ∷ (3, get_key 1)
    ∷ (6, tick)
    ∷ (7, get_key 1)
    ∷ (8, delete_key 1)
    ∷ []

answers-spec_answers_example : answers calls new_memory ≡ spec_answers calls (λ key. none)
answers-spec_answers_example = answers-spec_answers calls (omega arith)

-- The limit on sign-in by default: one request in five seconds, and eight at once.
abbrev auth_limit : Limit
auth_limit = record { rate = 1; per = 5; capacity = 8 }

admitted_bound_example :
    (admitted auth_limit (0 ∷ 0 ∷ 0 ∷ 0 ∷ 1000000000 ∷ []) none).0 * (5 * unit)
    ≤ 8 * 5 * unit + (1000000000 - 0) * 1
admitted_bound_example =
    admitted_bound auth_limit (omega arith) 0 (0 ∷ 0 ∷ 0 ∷ 1000000000 ∷ []) (omega arith)

-- It fails at the first call and succeeds later.
abbrev flaky : M ⊤
flaky env w = if w.tick == 0 then (err infra, w) else (ok tt, w)

abbrev later : World
later = record (world shop) { tick = 1 }

dispatch-acked_example : dispatch flaky backoffs calm_env (world shop) ≡ (ok acked, later)
dispatch-acked_example =
    dispatch-acked flaky calm_env 1 backoffs (world shop) later later
      (again infra (world shop) refl refl (done later)) (omega arith) refl

dispatch-Settles_example :
    Settles flaky calm_env backoffs (world shop) (dispatch flaky backoffs calm_env (world shop))
dispatch-Settles_example = dispatch-Settles flaky calm_env backoffs (world shop)

abbrev after_mail : World
after_mail = (consume (succeeded_event 2) calm_env (world shop)).1

mailed : consume (succeeded_event 2) calm_env (world shop) ≡ (ok acked, after_mail)
unfolding consume dispatch handle send_confirmation load_by_id get_by_id respond decrypt_address
    query_row query_items query_address decrypt_bytes decrypt find_order decrypt_order
mailed = refl

consume-Mailed_example : Mailed (succeeded_event 2) calm_env (world shop) after_mail
consume-Mailed_example = consume-Mailed (succeeded_event 2) calm_env (world shop) after_mail mailed

shop-IsTidy : IsTidy shop.saved_addresses
shop-IsTidy = record { unique = λ id. ground arith; one = λ user. ground arith }

handle_address-IsTidy_example :
    IsTidy
      (handle_address
        (λ req. true)
        (set_default_address 3 71)
        calm_env
        (world shop)).1.db.saved_addresses
handle_address-IsTidy_example =
    handle_address-IsTidy (λ req. true) (set_default_address 3 71) calm_env (world shop)
      (record { step = λ t db tidy. tidy }) shop-IsTidy

abbrev review_request : CreateReviewRequest
review_request = record { rating = 5; comment = none }

abbrev every_review : CreateReviewRequest → Bool
every_review req = true

eligibility-create_example :
    (may_review (eligibility (some 3) (some 7) calm_env (world shop)).0
      ≡ is_stored 3 7 review_request
          (create every_review (some 3) (some 7) review_request calm_env (world shop)).0
          (create every_review (some 3) (some 7) review_request calm_env (world shop)).1.db)
    × (may_review (eligibility (some 3) (some 7) calm_env (world shop)).0
        ≡ (any_where (is_purchase 3 7) shop.orders && not (any_where (is_by 3 7) shop.reviews)))
eligibility-create_example =
    eligibility-create calm_env (record { alone = λ t db. refl }) (record { fine = λ t. refl })
      every_review 3 7 review_request
      (record { name = b'p' ∷ []; price = 100; sale_price = none; stock_quantity = 5 }) (world shop)
      refl refl

-- A customer has bought product 7 and may review it.
may : may_review (eligibility (some 3) (some 7) calm_env (world shop)).0 ≡ true
unfolding eligibility has_purchased get_user_review
may = refl

abbrev scored : ℕ → ℕ → Scored
scored product score = record {
  product = product;
  category = some 1;
  avg_rating = 4;
  score = score;
}

abbrev candidates : List Scored
candidates = scored 1 10 ∷ scored 2 30 ∷ scored 3 20 ∷ []

select_diverse_example :
    (length (select 5 candidates) ≤ 5)
    × ((c : ℕ) → count_where (in_category c) (select 5 candidates) ≤ 2)
    × ((p : Scored → Bool) → count_where p (select 5 candidates) ≤ count_where p candidates)
select_diverse_example = select_diverse 5 candidates
