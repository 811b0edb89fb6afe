-- ===== src/Payments/Conserve/Intents.antt =====
-- `CreateIntent` as a step on the stock and on the payments.
use stora_ecommerce.Prelude.{
  ℕ, ◌≡◌, refl, ap, Bool, true, false, not, All-append, Option, none, some, [], ◌∷◌, ◌++◌,
  if◌then◌else◌,
}
use stora_ecommerce.Schema.{Text, Payment, OrderEntry, Db, PaymentStatus.pending, pending_payment}
use stora_ecommerce.Effect.{
  Result, ok, err, pure, attempt, here, request, intent_requested, invalid_order_status,
}
use stora_ecommerce.Effect.Rely.{Ends, Triple-query, Triple-request, Triple-weaken}
use stora_ecommerce.Effect.Silent.{Triple-Silent}
use stora_ecommerce.Orders.Table.{find_order, status_eq}
use stora_ecommerce.Orders.Model.{Order, OrderResponse}
use stora_ecommerce.Orders.Service.{Deps, get_order}
use stora_ecommerce.Orders.Conserve.Table.{
  Conserves, Conserves-IsStep, Exists, items_in, Known, Linked, Linked-Stable, Runs,
}
use stora_ecommerce.Orders.Conserve.Loads.{
  DepsConserve, Runs-bind, Runs-pure, Runs-attempt, get_order-Runs,
}
use stora_ecommerce.Cart.Conserve.Statements.{guarded, raises}
use stora_ecommerce.Payments.Repository.{
  find_intent, payment_status_eq, insert_payment, new_payment, latest_for_order, create,
}
use stora_ecommerce.Payments.Service.{get_intent, new_intent}
use stora_ecommerce.Payments.Intent.{
  IntentResponse, translate, translated, if_reusable, ask_intent, reuse_latest, make_intent,
  reuse_or_make, create_intent, usd,
}
use stora_ecommerce.Payments.Conserve.Rows.{latest_for_order-Known}
use stora_ecommerce.Payments.Conserve.Void.{Runs-get_intent}

insert_payment-Conserves :
    (p : ℕ) (o : Option OrderEntry) (dup : Option Payment) (x : Payment) (db : Db)
    → find_order x.order_id db.orders ≡ o
    → Linked db
    → let (r, b) = insert_payment o dup x db in Conserves p db b × Ends (λ _. Linked) r b
insert_payment-Conserves p (some o) none x db found linked =
    let more : Linked (record db { payments = db.payments ++ x ∷ [] }) =
      All-append (λ y. Exists y.order_id db) db.payments (x ∷ []) linked
        ((o.items, ap items_in found), tt) in
    (
      record { listed = λ l. l; same_level = λ l. refl; kept = λ id xs k. k; linked = λ _. more },
      more,
    )
insert_payment-Conserves p (some o) (some y) x db found linked = ((Conserves-IsStep p).stay db, tt)
insert_payment-Conserves p none none x db found linked = ((Conserves-IsStep p).stay db, tt)
insert_payment-Conserves p none (some y) x db found linked = ((Conserves-IsStep p).stay db, tt)

module _ (p : ℕ) where
  create-Runs :
      (order_id intent amount_cents : ℕ) (currency : Text)
      → Runs p (create order_id intent amount_cents currency)
  unfolding create
  create-Runs order_id intent amount_cents currency =
      Triple-query (Conserves-IsStep p) (λ _. Linked)
        (λ env t db.
          insert_payment (find_order order_id db.orders) (find_intent intent db.payments)
            (new_payment env t order_id intent amount_cents currency) db)
        (Linked-Stable p)
        (λ env t db rely h.
          insert_payment-Conserves p (find_order order_id db.orders)
            (find_intent intent db.payments)
            (new_payment env t order_id intent amount_cents currency) db refl h)

  new_intent-Runs : (order_id amount_cents : ℕ) → Runs p (new_intent order_id amount_cents)
  unfolding new_intent
  new_intent-Runs order_id amount_cents =
      Runs-bind p
        (here
          (λ env t. record { id = env.new_intent_id t; client_secret = env.new_client_secret t }))
        _ (Triple-Silent (Conserves-IsStep p) _ (record { same = λ env w. refl }))
        λ made.
          Runs-bind p (request (intent_requested order_id amount_cents)) (λ _. pure made)
            (Triple-request (Conserves-IsStep p) (intent_requested order_id amount_cents)
              (Linked-Stable p))
            (λ _. Runs-pure p made)

  make_intent-Runs : (order : Order) → Runs p (make_intent order)
  unfolding make_intent
  make_intent-Runs order =
      Runs-bind p (new_intent order.id order.total_cents) _
        (new_intent-Runs order.id order.total_cents)
        λ made.
          Runs-bind p (create order.id made.id order.total_cents usd) _
            (create-Runs order.id made.id order.total_cents usd)
            λ _.
              Runs-pure p
                (record { client_secret = made.client_secret; payment_intent_id = made.id })

  translated-Runs : (r : Result OrderResponse) → Runs p (translated r)
  translated-Runs (ok order) = Runs-pure p order
  translated-Runs (err e) = raises p (translate e)

  ask_intent-Runs : (intent : ℕ) → Runs p (ask_intent intent)
  ask_intent-Runs intent =
      Runs-bind p (attempt (get_intent intent)) (λ st. pure (if_reusable intent st))
        (Runs-attempt p (get_intent intent) (Runs-get_intent p intent))
        (λ st. Runs-pure p (if_reusable intent st))

  reuse_latest-Runs : (r : Result Payment) → Runs p (reuse_latest r)
  reuse_latest-Runs (err e) = Runs-pure p none
  reuse_latest-Runs (ok existing) = go (payment_status_eq existing.status pending)
    where
      go :
          (b : Bool)
          → Runs p (if b then ask_intent existing.stripe_payment_intent_id else pure none)
      go true = ask_intent-Runs existing.stripe_payment_intent_id
      go false = Runs-pure p none

  reuse_or_make-Runs : (order : Order) (o : Option IntentResponse) → Runs p (reuse_or_make order o)
  reuse_or_make-Runs order (some reused) = Runs-pure p reused
  reuse_or_make-Runs order none = make_intent-Runs order

  latest_for_order-Runs : (order_id : ℕ) → Runs p (latest_for_order order_id)
  latest_for_order-Runs order_id =
      Triple-weaken (Conserves-IsStep p) (λ x. Known x.order_id) (λ _. Linked)
        (latest_for_order order_id) (latest_for_order-Known p order_id) (λ x db k. k.1.1)

  pub create_intent-Conserves :
      {deps : Deps} (injected : DepsConserve p deps) (user guest : Option ℕ) (order_id : ℕ)
      → Runs p (create_intent deps user guest order_id)
  unfolding create_intent
  create_intent-Conserves {deps} injected user guest order_id =
      Runs-bind p (attempt (get_order deps user guest order_id)) _
        (Runs-attempt p (get_order deps user guest order_id)
          (get_order-Runs p injected user guest order_id))
        λ found. Runs-bind p (translated found) _ (translated-Runs found) λ resp.
          guarded p (not (status_eq resp.order.status pending_payment)) invalid_order_status _ (
            Runs-bind p (attempt (latest_for_order resp.order.id)) _
              (Runs-attempt p (latest_for_order resp.order.id)
                (latest_for_order-Runs resp.order.id))
              λ latest.
                Runs-bind p (reuse_latest latest) (reuse_or_make resp.order)
                  (reuse_latest-Runs latest) (reuse_or_make-Runs resp.order))
