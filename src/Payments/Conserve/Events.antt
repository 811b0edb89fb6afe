-- ===== src/Payments/Conserve/Events.antt =====
-- Webhooks and reconciliation as steps on the stock.
use stora_ecommerce.Effect.{Env, World}
use stora_ecommerce.Effect.Rely.{Rely}
use stora_ecommerce.Prelude.{
  ℕ, ⊤, Bool, true, false, Option, none, some, ◌&&◌, is_empty, if◌then◌else◌,
}
use stora_ecommerce.Schema.{
  Payment, PaymentStatus, Db, PaymentStatus.pending, PaymentStatus.succeeded, PaymentStatus.failed,
}
use stora_ecommerce.Effect.{
  Err, Result, ok, err, M, pure, raise, ◌>>=◌, attempt, IntentState, IntentStatus,
  signature_mismatch, unmarshal,
}
use stora_ecommerce.Effect.Rely.{
  Ends, Triple, Triple-bind, Triple-raise, Triple-pre, Triple-attempt, Triple-read, Triple-if,
}
use stora_ecommerce.Orders.Conserve.Table.{
  Conserves, Conserves-IsStep, Known, Linked, Linked-Stable, Runs,
}
use stora_ecommerce.Orders.Conserve.Reads.{Known-Stable}
use stora_ecommerce.Orders.Conserve.Loads.{Runs-bind, Runs-pure, Triple-any}
use stora_ecommerce.Payments.Repository.{
  payment_status_eq, get_by_payment_intent_id, latest_for_order,
}
use stora_ecommerce.Payments.Service.{
  get_intent, apply_succeeded, apply_failed, PaymentIntent, StripeEvent, intent_succeeded,
  intent_failed, other_event, payload, is_payment_not_found, known_payment, succeed_unless_done,
  on_intent_succeeded, fail_unless_done, on_intent_failed, handle_event, handle_webhook,
  apply_intent, reconcile_payment, reconcile_found, reconcile,
}
use stora_ecommerce.Payments.Conserve.Rows.{get_by_payment_intent_id-Known, latest_for_order-Known}
use stora_ecommerce.Payments.Conserve.Settle.{apply_succeeded-Conserves, apply_failed-Conserves}

-- What a lookup of a payment gave.
abbrev Found : Result Payment → Db → Type 0
Found r db = Linked db × Ends (λ x. Known x.order_id) r db

module _ (p : ℕ) where
  Runs-raise : {A : Type 0} (e : Err) → Runs p (raise {A = A} e)
  Runs-raise e = Triple-raise (Conserves-IsStep p) (λ _. Linked) e

  -- A payment that was looked up, and what is done with it.
  result_then :
      (k : Payment → M ⊤) (r : Result Payment)
      → ((x : Payment) → Triple (Conserves p) (Known x.order_id) (k x) (λ _. Linked))
      → Triple (Conserves p) (Found r) (known_payment r k) (λ _. Linked)
  result_then k (ok x) h =
      Triple-pre (Conserves-IsStep p) (Known x.order_id) (λ _. Linked) (k x) (λ db f. f.1) (h x)
  result_then k (err e) h =
      Triple-pre (Conserves-IsStep p) Linked (λ _. Linked) (known_payment (err e) k) (λ db f. f.0)
        (go (is_payment_not_found e))
    where
      go : (b : Bool) → Runs {A = ⊤} p (if b then pure tt else raise e)
      go true = Runs-pure p tt
      go false = Runs-raise e

  lookup_then :
      (m : M Payment) (k : Payment → M ⊤)
      → Triple (Conserves p) Linked m (λ x. Known x.order_id)
      → ((x : Payment) → Triple (Conserves p) (Known x.order_id) (k x) (λ _. Linked))
      → Runs p (attempt m >>= λ r. known_payment r k)
  lookup_then m k look h =
      Triple-bind (Conserves-IsStep p) Found (attempt m) (λ r. known_payment r k)
        (Triple-attempt (Conserves-IsStep p) (λ x. Known x.order_id) m (Linked-Stable p) look)
        (λ r. result_then k r h)

  succeed_unless_done-Conserves :
      (activity : Bool) (x : Payment)
      → Triple (Conserves p) (Known x.order_id) (succeed_unless_done activity x) (λ _. Linked)
  succeed_unless_done-Conserves activity x =
      Triple-if (Conserves-IsStep p) (λ _. Linked) (payment_status_eq x.status succeeded) (pure tt)
        (apply_succeeded activity x) (λ _. Triple-any p x.order_id (pure tt) (Runs-pure p tt))
        (λ _. apply_succeeded-Conserves p activity x)

  fail_unless_done-Conserves :
      (pi : PaymentIntent) (x : Payment)
      → Triple (Conserves p) (Known x.order_id) (fail_unless_done pi x) (λ _. Linked)
  fail_unless_done-Conserves pi x =
      Triple-if (Conserves-IsStep p) (λ _. Linked) (payment_status_eq x.status failed) (pure tt)
        (apply_failed x pi.last_error_code pi.last_error_msg)
        (λ _. Triple-any p x.order_id (pure tt) (Runs-pure p tt))
        (λ _. apply_failed-Conserves p x pi.last_error_code pi.last_error_msg)

  Runs-payload : (raw : Option PaymentIntent) → Runs p (payload raw)
  Runs-payload none = Runs-raise unmarshal
  Runs-payload (some pi) = Runs-pure p pi

  handle_event-Conserves :
      (activity : Bool) (event : StripeEvent) → Runs p (handle_event activity event)
  unfolding handle_event on_intent_succeeded on_intent_failed
  handle_event-Conserves activity (intent_succeeded raw) =
      Runs-bind p (payload raw) _ (Runs-payload raw) λ pi.
        lookup_then (get_by_payment_intent_id pi.id) (succeed_unless_done activity)
          (get_by_payment_intent_id-Known p pi.id) (succeed_unless_done-Conserves activity)
  handle_event-Conserves activity (intent_failed raw) =
      Runs-bind p (payload raw) _ (Runs-payload raw) λ pi.
        lookup_then (get_by_payment_intent_id pi.id) (fail_unless_done pi)
          (get_by_payment_intent_id-Known p pi.id) (fail_unless_done-Conserves pi)
  handle_event-Conserves activity other_event = Runs-pure p tt

  pub handle_webhook-Runs :
      (activity : Bool) (event : Option StripeEvent) → Runs p (handle_webhook activity event)
  unfolding handle_webhook
  handle_webhook-Runs activity none = Runs-raise signature_mismatch
  handle_webhook-Runs activity (some event) = handle_event-Conserves activity event

  -- Every webhook conserves the stock of every product, genuine or forged, of a known intent or not,
  -- replayed or late, whatever call fails, among concurrent requests that conserve it, with no result
  -- set broken off and every payment with its order.
  pub handle_webhook-Conserves :
      (activity : Bool) (event : Option StripeEvent) (env : Env) (w : World)
      → Rely (Conserves p) env
      → Linked w.db
      → Conserves p w.db (handle_webhook activity event env w).1.db
  handle_webhook-Conserves activity event env w rely linked =
      ((handle_webhook-Runs activity event).run env w rely linked).0

  apply_intent-Conserves :
      (activity : Bool) (x : Payment) (intent : IntentStatus) (state : IntentState)
      → Triple (Conserves p) (Known x.order_id) (apply_intent activity x intent state) (λ _. Linked)
  apply_intent-Conserves activity x intent IntentState.succeeded =
      apply_succeeded-Conserves p activity x
  apply_intent-Conserves activity x intent IntentState.canceled =
      apply_failed-Conserves p x intent.last_error_code intent.last_error_msg
  apply_intent-Conserves activity x intent IntentState.requires_payment_method =
      Triple-if (Conserves-IsStep p) (λ _. Linked)
        (is_empty intent.last_error_code && is_empty intent.last_error_msg) (pure tt)
        (apply_failed x intent.last_error_code intent.last_error_msg)
        (λ _. Triple-any p x.order_id (pure tt) (Runs-pure p tt))
        (λ _. apply_failed-Conserves p x intent.last_error_code intent.last_error_msg)
  apply_intent-Conserves activity x intent _ = Triple-any p x.order_id (pure tt) (Runs-pure p tt)

  get_intent-Known :
      (id intent : ℕ) → Triple (Conserves p) (Known id) (get_intent intent) (λ _. Known id)
  unfolding get_intent
  get_intent-Known id intent =
      Triple-read (Conserves-IsStep p) (λ _. Known id) (λ env t db. ok (env.intent t intent))
        (Known-Stable p id) (λ env t db rely h. h)

  reconcile_payment-Conserves :
      (activity : Bool) (x : Payment) (status : PaymentStatus)
      → Triple (Conserves p) (Known x.order_id) (reconcile_payment activity x status) (λ _. Linked)
  reconcile_payment-Conserves activity x pending =
      Triple-bind (Conserves-IsStep p) (λ _. Known x.order_id)
        (get_intent x.stripe_payment_intent_id) _
        (get_intent-Known x.order_id x.stripe_payment_intent_id)
        (λ intent. apply_intent-Conserves activity x intent intent.state)
  reconcile_payment-Conserves activity x _ = Triple-any p x.order_id (pure tt) (Runs-pure p tt)

  reconcile_found-Conserves :
      (activity : Bool) (r : Result Payment)
      → Triple (Conserves p) (Found r) (reconcile_found activity r) (λ _. Linked)
  reconcile_found-Conserves activity (ok x) =
      result_then (λ x. reconcile_payment activity x x.status) (ok x)
        (λ x. reconcile_payment-Conserves activity x x.status)
  reconcile_found-Conserves activity (err e) =
      result_then (λ x. reconcile_payment activity x x.status) (err e)
        (λ x. reconcile_payment-Conserves activity x x.status)

  pub reconcile-Conserves : (activity : Bool) (order_id : ℕ) → Runs p (reconcile activity order_id)
  unfolding reconcile
  reconcile-Conserves activity order_id =
      Triple-bind (Conserves-IsStep p) Found (attempt (latest_for_order order_id))
        (reconcile_found activity)
        (Triple-attempt (Conserves-IsStep p) (λ x. Known x.order_id) (latest_for_order order_id)
          (Linked-Stable p) (latest_for_order-Known p order_id))
        (reconcile_found-Conserves activity)
