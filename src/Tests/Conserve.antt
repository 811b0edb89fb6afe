-- ===== src/Tests/Conserve.antt =====
-- The theorems on stock, on the small shop.
use stora_ecommerce.Prelude.{◌+◌, Option, ◌≡◌, ◌≤◌, refl, true, none, some, List, [], ◌∷◌}
use stora_ecommerce.Schema.{Db, cancelled, processing}
use stora_ecommerce.Effect.Rely.{Rely}
use stora_ecommerce.Effect.Silent.{Silent, Silent-pure, Triple-Silent}
use stora_ecommerce.Orders.Model.{ShippingAddress}
use stora_ecommerce.Orders.Table.{
  find_order, update_order, transition, transition_status, set_status,
}
use stora_ecommerce.Effect.{World, Result, ok, err}
use stora_ecommerce.Orders.Stock.{units, level, held}
use stora_ecommerce.Orders.Service.{cancel, expire_stale_checkouts}
use stora_ecommerce.Orders.Checkout.{checkout}
use stora_ecommerce.Orders.Conserve.Table.{Conserves, Conserves-IsStep, Linked}
use stora_ecommerce.Orders.Conserve.Cancel.{cancel-Conserves}
use stora_ecommerce.Orders.Conserve.Reaper.{expire_stale_checkouts-Conserves}
use stora_ecommerce.Orders.Conserve.Checkout.{checkout-Conserves}
use stora_ecommerce.Orders.Conserve.Resurrected.{admin_update_status-resurrects}
use stora_ecommerce.Orders.Admin.{admin_update_status, settable, advance}
use stora_ecommerce.Orders.Model.{OrderResponse, decrypt_order, decrypt_address}
use stora_ecommerce.Orders.Repository.{query_row, query_items, query_address, get_by_id}
use stora_ecommerce.Orders.Service.{respond, load_by_id}
use stora_ecommerce.Crypto.{decrypt_bytes, decrypt}
use stora_ecommerce.Payments.Service.{StripeEvent, intent_succeeded, intent_failed, handle_webhook}
use stora_ecommerce.Payments.Conserve.Events.{handle_webhook-Conserves}
use stora_ecommerce.App.{Request, wired, serve}
use stora_ecommerce.App
use stora_ecommerce.App.Conserve.{wired-DepsConserve, serve-Conserves, serve_never_oversells}
use stora_ecommerce.Tests.{
  calm_env, shop, new_shop, world, item, order, checkout_request, accept_all, accept_address,
}

calm-Rely : Rely (Conserves 7) calm_env
calm-Rely = record { step = λ t db. (Conserves-IsStep 7).stay db; whole = λ t. refl }

accept_address-Silent : (a : ShippingAddress) → Silent (accept_address a)
accept_address-Silent a = Silent-pure tt

shop-Linked : Linked shop
unfolding find_order
shop-Linked = ((item 1 2 ∷ [], refl), ((item 2 1 ∷ [], refl), tt))

abbrev requests : List Request
requests =
    App.add_to_cart (some 3) none (some 7) 1
    ∷ App.checkout (some 3) none checkout_request
    ∷ App.webhook (
        some (intent_failed (some (record { id = 40; last_error_code = []; last_error_msg = [] }))))
    ∷ App.cancel (some 3) none 2
    ∷ App.admin_update_status 1 (some cancelled)
    ∷ App.reap 100 50
    ∷ []

serve-Conserves_example :
    level 7 (serve accept_all accept_address requests calm_env (world shop)).1.db ≡ 8
serve-Conserves_example =
    serve-Conserves 7 accept_all accept_address accept_address-Silent requests calm_env (world shop)
      (tt, (tt, (tt, (tt, (refl, (tt, tt)))))) calm-Rely shop-Linked refl

serve_never_oversells_example :
    held 7 (serve accept_all accept_address requests calm_env (world new_shop)).1.db.orders ≤ 5
serve_never_oversells_example =
    serve_never_oversells 7 accept_all accept_address accept_address-Silent requests calm_env
      (world new_shop) (tt, (tt, (tt, (tt, (refl, (tt, tt)))))) calm-Rely tt refl refl

checkout-Conserves_example :
    Conserves 7 shop
      (checkout accept_all accept_address wired
        (some 3)
        none
        checkout_request
        calm_env
        (world shop)).1.db
checkout-Conserves_example =
    checkout-Conserves 7 accept_all accept_address (wired-DepsConserve 7)
      (λ a. Triple-Silent (Conserves-IsStep 7) (accept_address a) (accept_address-Silent a))
      (some 3) none checkout_request calm_env (world shop) calm-Rely shop-Linked

cancel-Conserves_example :
    Conserves 7 shop (cancel wired (some 3) none 2 calm_env (world shop)).1.db
cancel-Conserves_example =
    cancel-Conserves 7 (wired-DepsConserve 7) (some 3) none 2 calm_env (world shop) calm-Rely
      shop-Linked

expire_stale_checkouts-Conserves_example :
    Conserves 7 shop (expire_stale_checkouts wired 100 50 calm_env (world shop)).1.db
expire_stale_checkouts-Conserves_example =
    expire_stale_checkouts-Conserves 7 (wired-DepsConserve 7) 100 50 calm_env (world shop) calm-Rely
      shop-Linked

abbrev succeeded_event : Option StripeEvent
succeeded_event =
    some (intent_succeeded (some (record { id = 40; last_error_code = []; last_error_msg = [] })))

handle_webhook-Conserves_example :
    Conserves 7 shop (handle_webhook true succeeded_event calm_env (world shop)).1.db
handle_webhook-Conserves_example =
    handle_webhook-Conserves 7 true succeeded_event calm_env (world shop) calm-Rely shop-Linked

-- An order that was cancelled, with its two units back on hand.
abbrev cancelled_shop : Db
cancelled_shop = record shop { orders = order 1 cancelled 2 ∷ []; payments = [] }

abbrev edited : Result OrderResponse × World
edited = admin_update_status 1 (some processing) calm_env (world cancelled_shop)

abbrev response_of : Result OrderResponse → OrderResponse
response_of (ok resp) = resp
response_of (err e) = record {
  order = record {
    id = 0;
    order_number = [];
    user_id = none;
    guest_session_id = none;
    status = cancelled;
    email = [];
    phone = [];
    subtotal_cents = 0;
    shipping_cents = 0;
    total_cents = 0;
    shipping_method = [];
    created_at = 0;
    updated_at = 0;
  };
  items = [];
  address = record {
    recipient_name = [];
    line1 = [];
    line2 = [];
    city = [];
    region = [];
    postal_code = [];
    country = [];
  };
}

edit_done :
    admin_update_status 1 (some processing) calm_env (world cancelled_shop)
    ≡ (ok (response_of edited.0), edited.1)
unfolding admin_update_status settable get_by_id query_row query_items query_address find_order
    advance transition_status transition update_order load_by_id respond decrypt_order
    decrypt_address decrypt_bytes decrypt set_status
edit_done = refl

found_cancelled : find_order 1 cancelled_shop.orders ≡ some (order 1 cancelled 2)
unfolding find_order
found_cancelled = refl

admin_update_status-resurrects_example :
    level 7 edited.1.db ≡ level 7 cancelled_shop + units 7 (order 1 cancelled 2).items
unfolding settable
admin_update_status-resurrects_example =
    admin_update_status-resurrects 7 1 processing (order 1 cancelled 2) (response_of edited.0)
      calm_env (world cancelled_shop) edited.1 (record { alone = λ t db. refl }) found_cancelled
      refl refl refl refl edit_done
