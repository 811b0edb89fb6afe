-- ===== src/App.antt =====
-- The process that cmd/api/main.go builds: which services it injects into which, and the requests
-- that change orders, payments, carts and stock.
pub mod Conserve
use stora_ecommerce.Prelude.{ℕ, ⊤, Bool, true, false, Option, none, some, List, [], ◌∷◌}
use stora_ecommerce.Schema.{OrderStatus}
use stora_ecommerce.Effect.{M, pure, ◌>>=◌, ◌>>◌, attempt}
use stora_ecommerce.Orders.Model.{CheckoutRequest, ShippingAddress}
use stora_ecommerce.Orders.Service.{Deps}
use stora_ecommerce.Orders.Checkout as OrdersCheckout
use stora_ecommerce.Orders.Service as OrdersService
use stora_ecommerce.Orders.Admin as OrdersAdmin
use stora_ecommerce.Payments.Service.{
  StripeEvent, refund_order, reconcile, cancel_order_intents, handle_webhook,
}
use stora_ecommerce.Payments.Intent as PaymentsIntent
use stora_ecommerce.Cart.Service as CartService
use stora_ecommerce.Cart.Service.{Strategy}
use stora_ecommerce.Delivery.{rate_by_code}

-- The adapters that break the cycle between orders and payments, and the delivery service.
unfoldable pub wired : Deps
wired = record {
  refunder = some refund_order;
  reconciler = some (reconcile true);
  canceller = some cancel_order_intents;
  rater = some rate_by_code;
}

-- What a client, an administrator, Stripe or the reaper's ticker asks. An owner is a user, a guest
-- or both, as the session middleware left it.
pub data Request : Type 0 where
  checkout : Option ℕ → Option ℕ → CheckoutRequest → Request
  get_order : Option ℕ → Option ℕ → ℕ → Request
  cancel : Option ℕ → Option ℕ → ℕ → Request
  create_intent : Option ℕ → Option ℕ → ℕ → Request
  webhook : Option StripeEvent → Request
  admin_update_status : ℕ → Option OrderStatus → Request
  admin_refund : ℕ → Request
  reap : ℕ → ℕ → Request
  get_cart : Option ℕ → Option ℕ → Request
  add_to_cart : Option ℕ → Option ℕ → Option ℕ → ℕ → Request
  update_cart_item : Option ℕ → Option ℕ → Option ℕ → ℕ → Request
  remove_from_cart : Option ℕ → Option ℕ → Option ℕ → Request
  clear_cart : Option ℕ → Option ℕ → Request
  merge : ℕ → ℕ → Strategy → Request
  merge_status : ℕ → Option ℕ → Request

abbrev pub done : {A : Type 0} → M A → M ⊤
done m = m >> pure tt

module _ (valid : CheckoutRequest → Bool) (verify_address : ShippingAddress → M ⊤) where
  unfoldable pub handle : Request → M ⊤
  handle (checkout user guest req) =
      done (OrdersCheckout.checkout valid verify_address wired user guest req)
  handle (get_order user guest id) = done (OrdersService.get_order wired user guest id)
  handle (cancel user guest id) = done (OrdersService.cancel wired user guest id)
  handle (create_intent user guest id) = done (PaymentsIntent.create_intent wired user guest id)
  handle (webhook event) = handle_webhook true event
  handle (admin_update_status id status) = done (OrdersAdmin.admin_update_status id status)
  handle (admin_refund id) = done (OrdersAdmin.admin_refund wired id)
  handle (reap older_than limit) =
      done (OrdersService.expire_stale_checkouts wired older_than limit)
  handle (get_cart user guest) = done (CartService.get_cart user guest)
  handle (add_to_cart user guest product n) = done (CartService.add_to_cart user guest product n)
  handle (update_cart_item user guest product n) =
      done (CartService.update_cart_item user guest product n)
  handle (remove_from_cart user guest product) =
      done (CartService.remove_from_cart user guest product)
  handle (clear_cart user guest) = CartService.clear_cart user guest
  handle (merge user guest strategy) = done (CartService.merge user guest strategy)
  handle (merge_status user guest) = done (CartService.merge_status user guest)

  -- Requests one after another; a failed one changes nothing for the next.
  unfoldable pub serve : List Request → M ⊤
  serve [] = pure tt
  serve (r ∷ rs) = attempt (handle r) >> serve rs
