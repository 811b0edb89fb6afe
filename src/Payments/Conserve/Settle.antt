-- ===== src/Payments/Conserve/Settle.antt =====
-- The side effects of a settled payment (`applySucceeded`, `applyFailed`) as steps on the stock.
use stora_ecommerce.Prelude.{ℕ, zero, suc, refl, ⊤, Bool, true, false, not}
use stora_ecommerce.Schema.{Text, Payment, PaymentStatus.succeeded, PaymentStatus.refunded}
use stora_ecommerce.Effect.{
  Result, ok, err, M, pure, attempt, send, here, request, succeeded_published, failed_published,
  refund_requested, cannot_refund,
}
use stora_ecommerce.Effect.Rely.{
  Triple, Triple-bind, Triple-pre, Triple-weaken, Triple-frame, Triple-request, Triple-if,
  Triple-raise_if,
}
use stora_ecommerce.Effect.Silent.{
  Silent, Silent-pure, Silent-bind, Silent-attempt, Silent-send, Triple-Silent,
}
use stora_ecommerce.Orders.Service.{mark_paid, mark_payment_failed}
use stora_ecommerce.Orders.Conserve.Table.{
  Conserves, Conserves-IsStep, Known, Linked, Linked-Stable, Runs,
}
use stora_ecommerce.Orders.Conserve.Reads.{Known-Stable}
use stora_ecommerce.Orders.Conserve.Loads.{Runs-bind, Runs-pure, Runs-attempt, Triple-any}
use stora_ecommerce.Orders.Conserve.Marks.{mark_paid-Conserves, mark_payment_failed-Conserves}
use stora_ecommerce.Payments.Repository.{
  payment_status_eq, latest_for_order, update_succeeded, update_failed,
}
use stora_ecommerce.Payments.Service.{
  publish_with_retry, again_if, backoffs, refund, refund_payment, refund_order, settle,
  apply_succeeded, apply_failed,
}
use stora_ecommerce.Payments.Conserve.Rows.{
  latest_for_order-Known, update_succeeded-Known, update_failed-Known, mark_refunded-Runs,
}

Silent-again_if : (r : Result ⊤) (rest : M ⊤) → Silent rest → Silent (again_if r rest)
Silent-again_if (ok a) rest h = Silent-pure tt
Silent-again_if (err e) rest h = h

pub Silent-publish_with_retry :
    (n : ℕ) (publish : M ⊤) → Silent publish → Silent (publish_with_retry n publish)
unfolding publish_with_retry
Silent-publish_with_retry zero publish h =
    Silent-bind (attempt publish) (λ _. pure tt) (Silent-attempt publish h) (λ _. Silent-pure tt)
Silent-publish_with_retry (suc n) publish h =
    Silent-bind (attempt publish) (λ r. again_if r (publish_with_retry n publish))
      (Silent-attempt publish h)
      (λ r.
        Silent-again_if r (publish_with_retry n publish) (Silent-publish_with_retry n publish h))

module _ (p : ℕ) where
  refund-Runs : (intent key : ℕ) → Runs p (refund intent key)
  unfolding refund
  refund-Runs intent key =
      Runs-bind p (here (λ env t. env.refund_id t)) _
        (Triple-Silent (Conserves-IsStep p) _ (record { same = λ env w. refl }))
        λ id.
          Runs-bind p (request (refund_requested intent key)) (λ _. pure id)
            (Triple-request (Conserves-IsStep p) (refund_requested intent key) (Linked-Stable p))
            (λ _. Runs-pure p id)

  refund_payment-Runs : (payment : Payment) → Runs p (refund_payment payment)
  unfolding refund_payment
  refund_payment-Runs payment =
      Triple-raise_if (Conserves-IsStep p) (λ _. Linked)
        (not (payment_status_eq payment.status succeeded)) cannot_refund _
        λ c.
          Runs-bind p (refund payment.stripe_payment_intent_id payment.id) _
            (refund-Runs payment.stripe_payment_intent_id payment.id)
            λ r. mark_refunded-Runs p payment.id r

  pub latest_for_order-Runs : (order_id : ℕ) → Runs p (latest_for_order order_id)
  latest_for_order-Runs order_id =
      Triple-weaken (Conserves-IsStep p) (λ x. Known x.order_id) (λ _. Linked)
        (latest_for_order order_id) (latest_for_order-Known p order_id) (λ x db h. h.1.1)

  -- Refunding moves no stock.
  pub refund_order-Conserves : (order_id : ℕ) → Runs p (refund_order order_id)
  unfolding refund_order
  refund_order-Conserves order_id =
      Runs-bind p (latest_for_order order_id) _ (latest_for_order-Runs order_id) λ payment.
        Triple-if (Conserves-IsStep p) (λ _. Linked) (payment_status_eq payment.status refunded)
          (pure tt) (refund_payment payment) (λ _. Runs-pure p tt)
          (λ _. refund_payment-Runs payment)

  Runs-publish : (n : ℕ) (publish : M ⊤) → Silent publish → Runs p (publish_with_retry n publish)
  Runs-publish n publish h =
      Triple-Silent (Conserves-IsStep p) (publish_with_retry n publish)
        (Silent-publish_with_retry n publish h)

  settle-Conserves :
      (x : Payment) (live : Bool)
      → Triple (Conserves p) (Known x.order_id) (settle x live) (λ _. Linked)
  settle-Conserves x false =
      Triple-bind (Conserves-IsStep p) (λ _. Known x.order_id)
        (update_succeeded x.stripe_payment_intent_id) _
        (update_succeeded-Known p x.order_id x.stripe_payment_intent_id)
        λ _. Triple-any p x.order_id _ (
          Runs-bind p (attempt (refund_order x.order_id)) (λ _. pure tt)
            (Runs-attempt p (refund_order x.order_id) (refund_order-Conserves x.order_id))
            (λ _. Runs-pure p tt))
  settle-Conserves x true =
      Triple-bind (Conserves-IsStep p) (λ _. Known x.order_id)
        (update_succeeded x.stripe_payment_intent_id) _
        (update_succeeded-Known p x.order_id x.stripe_payment_intent_id)
        λ _. Triple-any p x.order_id _ (
          Runs-publish backoffs
            (send (succeeded_published x.order_id x.stripe_payment_intent_id x.amount_cents))
            (Silent-send
              (succeeded_published x.order_id x.stripe_payment_intent_id x.amount_cents)))

  pub apply_succeeded-Conserves :
      (activity : Bool) (x : Payment)
      → Triple (Conserves p) (Known x.order_id) (apply_succeeded activity x) (λ _. Linked)
  unfolding apply_succeeded
  apply_succeeded-Conserves activity x =
      let s = Conserves-IsStep p in
      Triple-bind s (λ _ db. Known x.order_id db × Linked db) (mark_paid activity x.order_id)
        (settle x)
        (Triple-frame s (λ _. Linked) (mark_paid activity x.order_id) (Known-Stable p x.order_id)
          (Triple-any p x.order_id (mark_paid activity x.order_id)
            (mark_paid-Conserves p activity x.order_id)))
        (λ live.
          Triple-pre s (Known x.order_id) (λ _. Linked) (settle x live) (λ db h. h.0)
            (settle-Conserves x live))

  pub apply_failed-Conserves :
      (x : Payment) (code message : Text)
      → Triple (Conserves p) (Known x.order_id) (apply_failed x code message) (λ _. Linked)
  unfolding apply_failed
  apply_failed-Conserves x code message =
      let s = Conserves-IsStep p in
      Triple-bind s (λ _. Known x.order_id) (update_failed x.stripe_payment_intent_id code message)
        _ (update_failed-Known p x.order_id x.stripe_payment_intent_id code message)
        λ _.
          Triple-bind s (λ _. Linked) (mark_payment_failed x.order_id) _
            (mark_payment_failed-Conserves p x.order_id)
            λ _.
              Runs-publish backoffs
                (send (
                  failed_published x.order_id x.stripe_payment_intent_id x.amount_cents code
                    message))
                (Silent-send (
                  failed_published x.order_id x.stripe_payment_intent_id x.amount_cents code
                    message))
