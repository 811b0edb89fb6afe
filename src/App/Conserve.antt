-- ===== src/App/Conserve.antt =====
-- Stock and the sequences of requests that the process serves.
use stora_ecommerce.Cart.Conserve.{merge_status-Conserves}
use stora_ecommerce.Prelude.{
  ℕ, ◌≤◌, ◌≡◌, ⊤, Bool, true, not, ◌||◌, All, Option, none, some, List, [], ◌∷◌, arith,
}
use mathlib.Core.Path.{subst}
use stora_ecommerce.Schema.{OrderStatus}
use stora_ecommerce.Schema.{pending_payment, cancelled}
use stora_ecommerce.Effect.{Env, World, M, pure, attempt, invalid_status, not_cancellable}
use stora_ecommerce.Effect.Rely.{Rely, Triple, Triple-bind, Triple-raise_if}
use stora_ecommerce.Effect.Silent.{Silent, Triple-Silent}
use stora_ecommerce.Orders.Stock.{held, level, on_hand, IsListed}
use stora_ecommerce.Orders.Model.{CheckoutRequest, ShippingAddress}
use stora_ecommerce.Orders.Table.{status_eq}
use stora_ecommerce.Orders.Repository.{get_by_id}
use stora_ecommerce.Orders.Admin.{settable, set_from, cancel_unpaid, admin_update_status}
use stora_ecommerce.Orders.Conserve.Table.{Conserves, Conserves-IsStep, Known, Linked, Runs}
use stora_ecommerce.Orders.Conserve.Reads.{get_by_id-Known}
use stora_ecommerce.Orders.Conserve.Loads.{
  DepsConserve, Runs-bind, Runs-pure, Runs-attempt, get_order-Runs,
}
use stora_ecommerce.Orders.Conserve.Cancel.{cancel-Runs, admin_refund-Conserves}
use stora_ecommerce.Orders.Conserve.Admin.{cancel_unpaid-Conserves}
use stora_ecommerce.Orders.Conserve.Reaper.{expire_stale_checkouts-Runs}
use stora_ecommerce.Orders.Conserve.Checkout.{checkout-Runs}
use stora_ecommerce.Cart.Conserve.{
  add_to_cart-Conserves, update_cart_item-Conserves, remove_from_cart-Conserves,
  clear_cart-Conserves, merge-Conserves,
}
use stora_ecommerce.Cart.Conserve.Statements.{raises, get_cart-Conserves}
use stora_ecommerce.Payments.Conserve.Settle.{refund_order-Conserves}
use stora_ecommerce.Payments.Conserve.Events.{handle_webhook-Runs, reconcile-Conserves}
use stora_ecommerce.Payments.Conserve.Void.{cancel_order_intents-Conserves}
use stora_ecommerce.Payments.Conserve.Intents.{create_intent-Conserves}
use stora_ecommerce.Delivery.{rate_by_code-Conserves}
use stora_ecommerce.App.{Request, wired, done, handle, serve}
use stora_ecommerce.App

pub wired-DepsConserve : (p : ℕ) → DepsConserve p wired
unfolding wired
wired-DepsConserve p = record {
  refunder = λ f e id. subst (λ o. RunsOption o id) e (refund_order-Conserves p id);
  reconciler = λ f e id. subst (λ o. RunsOption o id) e (reconcile-Conserves p true id);
  canceller = λ f e id. subst (λ o. RunsOption o id) e (cancel_order_intents-Conserves p id);
  rater = λ f e code. subst (λ o. RunsOption o code) e (rate_by_code-Conserves p code);
}
  where
    RunsOption : {X A : Type 0} → Option (X → M A) → X → Type 0
    RunsOption none x = ⊤
    RunsOption (some f) x = Runs p (f x)

-- The edits that leave the stock of an order where it is: a cancellation, or what is refused.
abbrev pub keeps_stock : OrderStatus → Bool
keeps_stock to = status_eq to cancelled || not (settable to)

abbrev pub KeepsStock : Request → Type 0
KeepsStock (App.admin_update_status id (some to)) = keeps_stock to ≡ true
KeepsStock _ = ⊤

module _ (p : ℕ) where
  done-Runs : {A : Type 0} (m : M A) → Runs p m → Runs p (done m)
  done-Runs m h = Runs-bind p m (λ _. pure tt) h (λ _. Runs-pure p tt)

  set_from-Known :
      (id : ℕ) (from to : OrderStatus)
      → status_eq to cancelled ≡ true
      → Triple (Conserves p) (Known id) (set_from id from to) (λ _. Linked)
  set_from-Known id from to h = rw h (
      Triple-raise_if (Conserves-IsStep p) (λ _. Linked) (not (status_eq from pending_payment))
        not_cancellable (cancel_unpaid id) (λ _. cancel_unpaid-Conserves p id))

  admin_update_status-Conserves :
      (id : ℕ) (to : OrderStatus)
      → keeps_stock to ≡ true
      → Runs p (admin_update_status id (some to))
  unfolding admin_update_status
  admin_update_status-Conserves id to h =
      Triple-raise_if (Conserves-IsStep p) (λ _. Linked) (not (settable to)) invalid_status _
        λ set.
          Triple-bind (Conserves-IsStep p) (λ l. Known id) (get_by_id id)
            (λ l. set_from id l.row.status to) (get_by_id-Known p id)
            (λ l. set_from-Known id l.row.status to (ground (arith, h, set)))

  refused_status-Runs : (id : ℕ) → Runs p (admin_update_status id none)
  unfolding admin_update_status
  refused_status-Runs id = raises p invalid_status

  module _ (valid : CheckoutRequest → Bool) (verify_address : ShippingAddress → M ⊤)
      (verifies : (a : ShippingAddress) → Silent (verify_address a)) where
    handle-Runs : (r : Request) → KeepsStock r → Runs p (handle valid verify_address r)
    unfolding handle
    handle-Runs (App.checkout user guest req) k = done-Runs _ (
        checkout-Runs p valid verify_address (wired-DepsConserve p)
          (λ a. Triple-Silent (Conserves-IsStep p) (verify_address a) (verifies a)) user guest req)
    handle-Runs (App.get_order user guest id) k =
        done-Runs _ (get_order-Runs p (wired-DepsConserve p) user guest id)
    handle-Runs (App.cancel user guest id) k =
        done-Runs _ (cancel-Runs p (wired-DepsConserve p) user guest id)
    handle-Runs (App.create_intent user guest id) k =
        done-Runs _ (create_intent-Conserves p (wired-DepsConserve p) user guest id)
    handle-Runs (App.webhook event) k = handle_webhook-Runs p true event
    handle-Runs (App.admin_update_status id (some to)) k =
        done-Runs _ (admin_update_status-Conserves id to k)
    handle-Runs (App.admin_update_status id none) k =
        done-Runs (admin_update_status id none) (refused_status-Runs id)
    handle-Runs (App.admin_refund id) k =
        done-Runs _ (admin_refund-Conserves p (wired-DepsConserve p) id)
    handle-Runs (App.reap older_than limit) k =
        done-Runs _ (expire_stale_checkouts-Runs p (wired-DepsConserve p) older_than limit)
    handle-Runs (App.get_cart user guest) k = done-Runs _ (get_cart-Conserves p user guest)
    handle-Runs (App.add_to_cart user guest product n) k =
        done-Runs _ (add_to_cart-Conserves p user guest product n)
    handle-Runs (App.update_cart_item user guest product n) k =
        done-Runs _ (update_cart_item-Conserves p user guest product n)
    handle-Runs (App.remove_from_cart user guest product) k =
        done-Runs _ (remove_from_cart-Conserves p user guest product)
    handle-Runs (App.clear_cart user guest) k = clear_cart-Conserves p user guest
    handle-Runs (App.merge user guest strategy) k =
        done-Runs _ (merge-Conserves p user guest strategy)
    handle-Runs (App.merge_status user guest) k = done-Runs _ (merge_status-Conserves p user guest)

    serve-Runs : (rs : List Request) → All KeepsStock rs → Runs p (serve valid verify_address rs)
    unfolding serve
    serve-Runs [] k = Runs-pure p tt
    serve-Runs (r ∷ rs) k =
        Runs-bind p (attempt (handle valid verify_address r)) (λ _. serve valid verify_address rs)
          (Runs-attempt p (handle valid verify_address r) (handle-Runs r k.0))
          (λ _. serve-Runs rs k.1)

    -- However many requests the process serves (checkout, reads, cancellation, intents, webhooks,
    -- cancelling and refused status edits, refunds, the reaper, the cart), whatever concurrent
    -- requests that conserve stock commit in between, whatever statement, commit, broker or Stripe
    -- call fails and whatever Stripe answers: if the geocoder changes no table, no result set breaks
    -- off, every payment has its order and no forward status edit by an administrator is among the
    -- requests, then for a listed product the units on hand and the units of live orders add up to
    -- what they were.
    pub serve-Conserves :
        (rs : List Request) (env : Env) (w : World)
        → All KeepsStock rs
        → Rely (Conserves p) env
        → Linked w.db
        → IsListed p w.db
        → level p (serve valid verify_address rs env w).1.db ≡ level p w.db
    serve-Conserves rs env w k rely linked listed =
        ((serve-Runs rs k).run env w rely linked).0.same_level listed

    -- Under the conditions of `serve-Conserves`, from tables in which live orders hold no unit of a
    -- product, the live orders of any later moment never hold more units of it than were on hand.
    pub serve_never_oversells :
        (rs : List Request) (env : Env) (w : World)
        → All KeepsStock rs
        → Rely (Conserves p) env
        → Linked w.db
        → IsListed p w.db
        → held p w.db.orders ≡ 0
        → held p (serve valid verify_address rs env w).1.db.orders ≤ on_hand (w.db.products p)
    serve_never_oversells rs env w k rely linked listed empty =
        omega (arith, serve-Conserves rs env w k rely linked listed, empty)
