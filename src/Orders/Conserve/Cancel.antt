-- ===== src/Orders/Conserve/Cancel.antt =====
-- Cancellation and refunds by an admin (`Cancel`, `AdminRefund`) as steps on the stock.
use stora_ecommerce.Effect.{Env, World}
use stora_ecommerce.Effect.Rely.{Rely}
use stora_ecommerce.Prelude.{ℕ, ◌≡◌, refl, Bool, true, false, not, Option, arith}
use stora_ecommerce.Schema.{OrderStatus}
use stora_ecommerce.Schema.{paid, refunded}
use stora_ecommerce.Effect.{not_cancellable, not_refundable, orders_forbidden}
use stora_ecommerce.Effect.Rely.{Triple, Triple-bind, Triple-pure, Triple-raise_if}
use stora_ecommerce.Orders.Table.{status_eq}
use stora_ecommerce.Orders.Stock.{holds_stock}
use stora_ecommerce.Orders.Model.{ownership_ok}
use stora_ecommerce.Orders.Repository.{get_by_id}
use stora_ecommerce.Orders.Service.{
  Deps, load_by_id, get_order, cancellable, refund_through, refund_if, cancel, release,
  terminal_status,
}
use stora_ecommerce.Orders.Admin.{refundable, admin_refund}
use stora_ecommerce.Orders.Conserve.Table.{Known, Linked, Runs, Conserves, Conserves-IsStep}
use stora_ecommerce.Orders.Conserve.Release.{release-Body}
use stora_ecommerce.Orders.Conserve.Reads.{get_by_id-Known, restock_then}
use stora_ecommerce.Orders.Conserve.Loads.{
  DepsConserve, get_order-Runs, refund_through-Known, Runs-load_by_id,
}

holds_of_cancellable : (s : OrderStatus) → not (cancellable s) ≡ false → holds_stock s ≡ true
unfolding cancellable
holds_of_cancellable s h = ground arith

holds_of_refundable : (s : OrderStatus) → not (refundable s) ≡ false → holds_stock s ≡ true
unfolding refundable
holds_of_refundable s h = ground arith

terminal_status-holds : (was_paid : Bool) → holds_stock (terminal_status was_paid) ≡ false
terminal_status-holds true = refl
terminal_status-holds false = refl

module _ (p : ℕ) {deps : Deps} (injected : DepsConserve p deps) where
  refund_if-Known :
      (b : Bool) (id : ℕ)
      → Triple (Conserves p) (Known id) (refund_if b deps.refunder id) (λ _. Known id)
  refund_if-Known true id = refund_through-Known p injected deps.refunder id refl
  refund_if-Known false id = Triple-pure (Conserves-IsStep p) (λ _. Known id) tt (λ db h. h)

  pub cancel-Runs : (user guest : Option ℕ) (id : ℕ) → Runs p (cancel deps user guest id)
  unfolding cancel
  cancel-Runs user guest id =
      let s = Conserves-IsStep p in
      Triple-bind s (λ l. Known id) (get_by_id id) _ (get_by_id-Known p id)
        λ l.
          Triple-raise_if s (λ _. Linked) (not (ownership_ok l.row user guest)) orders_forbidden _
            λ own.
              Triple-raise_if s (λ _. Linked) (not (cancellable l.row.status)) not_cancellable _
                λ c.
                  Triple-bind s (λ _. Known id)
                    (refund_if (status_eq l.row.status paid) deps.refunder id) _
                    (refund_if-Known (status_eq l.row.status paid) id)
                    λ _.
                      restock_then p id
                        (release id l.row.status (terminal_status (status_eq l.row.status paid))
                          not_cancellable)
                        (λ _. get_order deps user guest id)
                        (λ items.
                          release-Body p id l.row.status
                            (terminal_status (status_eq l.row.status paid)) not_cancellable items
                            (holds_of_cancellable l.row.status c)
                            (terminal_status-holds (status_eq l.row.status paid)))
                        (λ _. get_order-Runs p injected user guest id)

  -- Cancelling an order conserves the stock of every product, paid or not, whoever asks and whatever
  -- call fails, among concurrent requests that conserve it, with no result set broken off and every
  -- payment with its order, if the injected services conserve it.
  pub cancel-Conserves :
      (user guest : Option ℕ) (id : ℕ) (env : Env) (w : World)
      → Rely (Conserves p) env
      → Linked w.db
      → Conserves p w.db (cancel deps user guest id env w).1.db
  cancel-Conserves user guest id env w rely linked =
      ((cancel-Runs user guest id).run env w rely linked).0

  -- So does a refund by an admin.
  pub admin_refund-Conserves : (id : ℕ) → Runs p (admin_refund deps id)
  unfolding admin_refund
  admin_refund-Conserves id =
      let s = Conserves-IsStep p in
      Triple-bind s (λ l. Known id) (get_by_id id) _ (get_by_id-Known p id)
        λ l.
          Triple-raise_if s (λ _. Linked) (not (refundable l.row.status)) not_refundable _
            λ r.
              Triple-bind s (λ _. Known id) (refund_through deps.refunder id) _
                (refund_through-Known p injected deps.refunder id refl)
                λ _.
                  restock_then p id (release id l.row.status refunded not_refundable)
                    (λ _. load_by_id id)
                    (λ items.
                      release-Body p id l.row.status refunded not_refundable items
                        (holds_of_refundable l.row.status r) refl)
                    (λ _. Runs-load_by_id p id)
