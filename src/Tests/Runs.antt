-- ===== src/Tests/Runs.antt =====
-- Whole requests on the small shop, evaluated.
use stora_ecommerce.Schema.{
  OrderStatus, PaymentStatus, paid, cancelled, refunded, PaymentStatus.succeeded,
}
use stora_ecommerce.Prelude.{ℕ, Option, none, []}
use stora_ecommerce.Schema.{Db}
use stora_ecommerce.Crypto.{decrypt_bytes, decrypt}
use stora_ecommerce.Orders.Table.{set_status, transition, tx_transition_status, transition_status}
use stora_ecommerce.Orders.Stock.{on_hand, increment, tx_increment_stock, restock}
use stora_ecommerce.Orders.Model.{ownership_ok, decrypt_address}
use stora_ecommerce.Orders.Repository.{
  query_row, query_items, query_address, get_by_id, items_for_restock, stale_pending_orders,
}
use stora_ecommerce.Orders.Service.{
  respond, load_owned, load_by_id, get_order, cancellable, refund_through, release, release_if,
  cancel, log_items, log_purchases, is_post_payment, mark_paid, release_stale, expire_one,
  expire_each, expire_stale_checkouts,
}
use stora_ecommerce.Payments.Service.{
  StripeEvent, intent_succeeded, publish_with_retry, get_intent, cancel_intent, refund,
  refund_payment, refund_order, apply_succeeded, on_intent_succeeded, handle_event, handle_webhook,
  reconcile, void_intent, void_each, cancel_order_intents,
}
use stora_ecommerce.Payments.Repository.{
  find_intent, update_intent, update_payment, latest, get_by_payment_intent_id, latest_for_order,
  update_succeeded, update_cancelled, mark_refunded, pending_intent_ids_for_order,
}
use stora_ecommerce.App.{Request, handle}
use stora_ecommerce.App
use stora_ecommerce.Strings.{trim_space, to_upper}
use stora_ecommerce.Prelude.{ℕ, ◌≡◌, refl, Option, none, some}
use stora_ecommerce.Effect.{World, Result, ok, err}
use stora_ecommerce.Crypto.{encrypt, decrypt_bytes, decrypt}
use stora_ecommerce.Cart.Repository.{
  find_cart, get_cart_by, get_or_create_by_user, details, get_items, without_cart,
}
use stora_ecommerce.Cart.Service.{total_from, to_response, build_response, resolve_cart, get_cart}
use stora_ecommerce.Delivery.{active_rate, rate_by_code}
use stora_ecommerce.Orders.Table.{find_order, update_order}
use stora_ecommerce.Orders.Stock.{decrement, tx_decrement_stock}
use stora_ecommerce.Orders.Model.{OrderResponse, decrypt_order, encrypt_address}
use stora_ecommerce.Orders.Checkout.{
  normalise, resolve_shipping, tx_lock_product_for_update, lock_line, lock_lines, numbered,
  tx_create_order, push_item, order_item, tx_create_order_item, place_item, place_items,
  set_address, tx_create_shipping_address, tx_delete_cart_items, new_row, place_rest, place_order,
  checkout_tx, checkout_normal, checkout,
}
use stora_ecommerce.App.{wired}
use stora_ecommerce.Tests.{calm_env, shop, world, checkout_request, accept_all, accept_address}

abbrev total_of : Result OrderResponse → Option ℕ
total_of (ok r) = some r.order.total_cents
total_of (err e) = none

abbrev sold : Result OrderResponse × World
sold = checkout accept_all accept_address wired (some 3) none checkout_request calm_env (world shop)

-- The checkout of the cart goes through: one unit at 100 with shipping at 500.
checkout_total : total_of sold.0 ≡ some 600
unfolding trim_space to_upper normalise resolve_shipping tx_lock_product_for_update lock_line
    lock_lines numbered tx_create_order push_item order_item tx_create_order_item place_item
    place_items set_address tx_create_shipping_address tx_delete_cart_items new_row place_rest
    place_order checkout_tx checkout_normal checkout wired find_order update_order decrement
    tx_decrement_stock decrypt_order encrypt_address active_rate rate_by_code total_from to_response
    build_response resolve_cart get_cart find_cart get_cart_by get_or_create_by_user details
    get_items without_cart encrypt decrypt_bytes decrypt
checkout_total = refl

-- Where an order is, how much is on hand, where its payment is.
abbrev status_of : ℕ → Db → Option OrderStatus
status_of id db = elim (find_order id db.orders) [ none ↦ none | some o ↦ some o.row.status ]

abbrev payment_of : ℕ → Db → Option PaymentStatus
payment_of intent db = elim (find_intent intent db.payments) [
  | none ↦ none
  | some x ↦ some x.status
]

abbrev succeeded_event : StripeEvent
succeeded_event =
    intent_succeeded (some (record { id = 40; last_error_code = []; last_error_msg = [] }))

abbrev after : Request → Db
after r = (handle accept_all accept_address r calm_env (world shop)).1.db

-- A pending order is cancelled and its two units are on hand again.
cancel_pending :
    (status_of 1 (after (App.cancel (some 3) none 1)) ≡ some cancelled)
    × (on_hand ((after (App.cancel (some 3) none 1)).products 7) ≡ 7)
unfolding handle find_order update_order set_status transition tx_transition_status
    transition_status increment tx_increment_stock restock ownership_ok decrypt_order
    decrypt_address query_row query_items query_address get_by_id items_for_restock
    stale_pending_orders respond load_owned load_by_id get_order cancellable refund_through release
    release_if cancel log_items log_purchases is_post_payment mark_paid release_stale expire_one
    expire_each expire_stale_checkouts publish_with_retry get_intent cancel_intent refund
    refund_payment refund_order apply_succeeded on_intent_succeeded handle_event handle_webhook
    reconcile void_intent void_each cancel_order_intents find_intent update_intent update_payment
    latest get_by_payment_intent_id latest_for_order update_succeeded update_cancelled mark_refunded
    pending_intent_ids_for_order decrypt_bytes decrypt wired
cancel_pending = (refl, refl)

-- A paid order is refunded, its payment too, and its unit is on hand again.
cancel_paid :
    (status_of 2 (after (App.cancel (some 3) none 2)) ≡ some refunded)
    × ((payment_of 41 (after (App.cancel (some 3) none 2)) ≡ some PaymentStatus.refunded)
        × (on_hand ((after (App.cancel (some 3) none 2)).products 7) ≡ 6))
unfolding handle find_order update_order set_status transition tx_transition_status
    transition_status increment tx_increment_stock restock ownership_ok decrypt_order
    decrypt_address query_row query_items query_address get_by_id items_for_restock
    stale_pending_orders respond load_owned load_by_id get_order cancellable refund_through release
    release_if cancel log_items log_purchases is_post_payment mark_paid release_stale expire_one
    expire_each expire_stale_checkouts publish_with_retry get_intent cancel_intent refund
    refund_payment refund_order apply_succeeded on_intent_succeeded handle_event handle_webhook
    reconcile void_intent void_each cancel_order_intents find_intent update_intent update_payment
    latest get_by_payment_intent_id latest_for_order update_succeeded update_cancelled mark_refunded
    pending_intent_ids_for_order decrypt_bytes decrypt wired
cancel_paid = (refl, (refl, refl))

-- The webhook of a success moves the order and its payment.
pay :
    (status_of 1 (after (App.webhook (some succeeded_event))) ≡ some paid)
    × (payment_of 40 (after (App.webhook (some succeeded_event))) ≡ some succeeded)
unfolding handle find_order update_order set_status transition tx_transition_status
    transition_status increment tx_increment_stock restock ownership_ok decrypt_order
    decrypt_address query_row query_items query_address get_by_id items_for_restock
    stale_pending_orders respond load_owned load_by_id get_order cancellable refund_through release
    release_if cancel log_items log_purchases is_post_payment mark_paid release_stale expire_one
    expire_each expire_stale_checkouts publish_with_retry get_intent cancel_intent refund
    refund_payment refund_order apply_succeeded on_intent_succeeded handle_event handle_webhook
    reconcile void_intent void_each cancel_order_intents find_intent update_intent update_payment
    latest get_by_payment_intent_id latest_for_order update_succeeded update_cancelled mark_refunded
    pending_intent_ids_for_order decrypt_bytes decrypt wired
pay = (refl, refl)

-- The reaper cancels the one pending order.
reap :
    (status_of 1 (after (App.reap 100 50)) ≡ some cancelled)
    × (status_of 2 (after (App.reap 100 50)) ≡ some paid)
unfolding handle find_order update_order set_status transition tx_transition_status
    transition_status increment tx_increment_stock restock ownership_ok decrypt_order
    decrypt_address query_row query_items query_address get_by_id items_for_restock
    stale_pending_orders respond load_owned load_by_id get_order cancellable refund_through release
    release_if cancel log_items log_purchases is_post_payment mark_paid release_stale expire_one
    expire_each expire_stale_checkouts publish_with_retry get_intent cancel_intent refund
    refund_payment refund_order apply_succeeded on_intent_succeeded handle_event handle_webhook
    reconcile void_intent void_each cancel_order_intents find_intent update_intent update_payment
    latest get_by_payment_intent_id latest_for_order update_succeeded update_cancelled mark_refunded
    pending_intent_ids_for_order decrypt_bytes decrypt wired
reap = (refl, refl)
