-- ===== src/Tests/Behaviour.antt =====
-- The other theorems, on the small shop.
use stora_ecommerce.Orders.Checkout.{normalise}
use stora_ecommerce.Orders.Checkout.Normal.{normalise_twice}
use stora_ecommerce.Tests.{checkout_request}
use stora_ecommerce.Prelude.{signed, pos, none, ◌≡◌, ◌≤◌, ltb, refl, true, some, [], ◌∷◌, arith}
use stora_ecommerce.Schema.{Db, pending_payment, paid, cancelled}
use stora_ecommerce.Effect.{Env, ok, err, succeeded_published, send, not_cancellable, with_tx}
use stora_ecommerce.Effect.Rely.{Ends}
use stora_ecommerce.Effect.Quiet.{Quiet}
use stora_ecommerce.Crypto.{encrypt, decrypt_bytes}
use stora_ecommerce.Crypto.RoundTrip.{SealsAndOpens, decrypt-encrypt}
use stora_ecommerce.Cart.Repository.{CartItemDetail}
use stora_ecommerce.Cart.Service.{to_response}
use stora_ecommerce.Cart.Repository.{quantity_in, add_item}
use stora_ecommerce.Cart.Service.{existing_quantity, transfer_line}
use stora_ecommerce.Cart.Totals.{to_response-total}
use stora_ecommerce.Orders.Table.{find_order, set_status}
use stora_ecommerce.Orders.Stock.{on_hand}
use stora_ecommerce.Orders.Service.{release, get_order, cancel}
use stora_ecommerce.Orders.Released.{Faultless, Fits, release_done, release_lost}
use stora_ecommerce.Orders.Ownership.{Denied, stranger-Denied}
use stora_ecommerce.Orders.Model.{ownership_ok}
use stora_ecommerce.Orders.Pricing.{Charged, lock_lines-Charged}
use stora_ecommerce.Orders.Checkout.{lock_lines}
use stora_ecommerce.Payments.Repository.{find_intent}
use stora_ecommerce.Payments.Service.{publish_with_retry, intent_succeeded, handle_webhook}
use stora_ecommerce.Payments.Publish.{publish_with_retry_lem}
use stora_ecommerce.Payments.Replay.{handle_webhook-replay}
use stora_ecommerce.App.{wired}
use stora_ecommerce.Effect.Rely.{Rely, IsStep}
use stora_ecommerce.Cart.Service.{add_to_cart}
use stora_ecommerce.Cart.Added.{SameLines, SameLines-IsStep, Within, add_to_cart-Within}
use stora_ecommerce.Schema.{PaymentStatus.succeeded}
use stora_ecommerce.Tests.{calm_env, shop, world, item, order}

calm-Quiet : Quiet calm_env
calm-Quiet = record { alone = λ t db. refl }

calm-Faultless : Faultless calm_env
calm-Faultless = record { fine = λ t. refl }

calm-SealsAndOpens : SealsAndOpens calm_env
calm-SealsAndOpens = record { nonce_length = λ t. refl; opens = λ nonce text. refl }

decrypt-encrypt_example :
    Ends
      (λ bytes _. decrypt_bytes calm_env bytes ≡ ok (b'a' ∷ b'b' ∷ []))
      (encrypt (b'a' ∷ b'b' ∷ []) calm_env (world shop)).0
      (encrypt (b'a' ∷ b'b' ∷ []) calm_env (world shop)).1.db
decrypt-encrypt_example =
    decrypt-encrypt calm_env calm-SealsAndOpens (b'a' ∷ b'b' ∷ []) (world shop)

abbrev line : CartItemDetail
line = record {
  id = 10;
  product_id = 7;
  product_name = [];
  product_price = 100;
  quantity = 1;
  stock = 5;
}

to_response-total_example : signed (to_response 9 (line ∷ line ∷ [])).total ≡ pos 200
to_response-total_example = to_response-total 9 (line ∷ line ∷ []) (omega arith)

shop-Fits : Fits (item 1 2 ∷ []) shop
shop-Fits q = ground arith

release_done_example :
    let (r, w') =
      with_tx
        (release 1 pending_payment cancelled not_cancellable (item 1 2 ∷ []))
        calm_env
        (world shop) in
    (r ≡ ok tt)
    × ((find_order 1 w'.db.orders ≡ some (set_status cancelled 1 (order 1 pending_payment 2)))
        × (on_hand (w'.db.products 7) ≡ 7))
unfolding find_order
release_done_example =
    release_done 7 1 pending_payment cancelled not_cancellable (item 1 2 ∷ [])
      (order 1 pending_payment 2) calm_env (world shop) calm-Faultless calm-Quiet refl refl
      shop-Fits refl

release_lost_example :
    let (r, w') =
      with_tx
        (release 2 pending_payment cancelled not_cancellable (item 2 1 ∷ []))
        calm_env
        (world shop) in
    (r ≡ err not_cancellable) × (w'.db ≡ shop)
unfolding find_order
release_lost_example =
    release_lost 2 pending_payment cancelled not_cancellable (item 2 1 ∷ []) (order 2 paid 1)
      calm_env (world shop) calm-Faultless calm-Quiet refl refl

lock_lines-Charged_example :
    Ends
      (Charged shop 0 (line ∷ []))
      (lock_lines 0 (line ∷ []) calm_env (world shop)).0
      (lock_lines 0 (line ∷ []) calm_env (world shop)).1.db
lock_lines-Charged_example = lock_lines-Charged 0 (line ∷ []) calm_env (world shop)

handle_webhook-replay_example :
    let (r, w') =
      handle_webhook true
        (some
          (intent_succeeded (some (record { id = 41; last_error_code = []; last_error_msg = [] }))))
        calm_env
        (world shop) in
    (w'.db ≡ shop) × (w'.outbox ≡ [])
unfolding find_intent
handle_webhook-replay_example =
    handle_webhook-replay true
      (intent_succeeded (some (record { id = 41; last_error_code = []; last_error_msg = [] })))
      calm_env (world shop) calm-Quiet refl

stranger-Denied_example :
    Denied (get_order wired (some 4) (some 5) 2) calm_env (world shop)
    × Denied (cancel wired (some 4) (some 5) 2) calm_env (world shop)
unfolding find_order ownership_ok
stranger-Denied_example =
    stranger-Denied wired (some 4) (some 5) 2 calm_env (world shop) calm-Quiet refl

-- The broker refuses the first two attempts.
abbrev flaky_env : Env
flaky_env = record calm_env { fault = λ t. ltb t 2 }

publish_with_retry_lem_example :
    ((publish_with_retry 3 (send (succeeded_published 1 40 700)) flaky_env (world shop)).0 ≡ ok tt)
    × (((publish_with_retry 3 (send (succeeded_published 1 40 700)) flaky_env (world shop)).1.outbox
          ≡ succeeded_published 1 40 700 ∷ [])
        × (((publish_with_retry 3 (send (succeeded_published 1 40 700)) flaky_env (world shop)).1.db
              ≡ shop)
            × ((publish_with_retry 3
                  (send (succeeded_published 1 40 700))
                  flaky_env
                  (world shop)).1.tick
                ≤ 4)))
publish_with_retry_lem_example =
    publish_with_retry_lem 3 (succeeded_published 1 40 700) flaky_env (world shop)

alone : (R : Db → Db → Type 0) → IsStep R → Rely R calm_env
alone R s = record { step = λ t db. s.stay db; whole = λ t. refl }

add_to_cart-Within_example :
    Ends
      (λ resp b. Within resp.id 7 b)
      (add_to_cart (some 3) none (some 7) 2 calm_env (world shop)).0
      (add_to_cart (some 3) none (some 7) 2 calm_env (world shop)).1.db
add_to_cart-Within_example =
    add_to_cart-Within (some 3) none 7 2 calm_env (world shop) (alone SameLines SameLines-IsStep)

normalise_twice_example : normalise (normalise checkout_request) ≡ normalise checkout_request
normalise_twice_example = normalise_twice checkout_request

-- A guest's line of nine units beside the one that the cart has, with five in stock.
abbrev guest_line : CartItemDetail
guest_line = record {
  id = 11;
  product_id = 7;
  product_name = [];
  product_price = 100;
  quantity = 9;
  stock = 5;
}

-- The transfer goes through.
transferred :
    (transfer_line 9 (record guest_line { quantity = 1 } ∷ []) guest_line calm_env (world shop)).0
    ≡ ok tt
unfolding existing_quantity add_item quantity_in
transferred = refl
