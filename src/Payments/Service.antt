-- ===== src/Payments/Service.antt =====
-- The payments service (internal/payments/service.go). Stripe answers through `Env`; what is sent
-- to Stripe and to the broker is recorded in the outbox.
use stora_ecommerce.Prelude.{
  ℕ, zero, suc, ⊤, Bool, true, false, not, Option, none, some, List, [], ◌∷◌, ◌&&◌, is_empty,
  if◌then◌else◌,
}
use stora_ecommerce.Schema.{
  Text, Payment, PaymentStatus, PaymentStatus.pending, PaymentStatus.succeeded,
  PaymentStatus.failed, PaymentStatus.refunded,
}
use stora_ecommerce.Effect.{
  Err, Result, ok, err, M, pure, raise, ◌>>=◌, ◌>>◌, raise_if, attempt, query, send, here, request,
  IntentState, IntentStatus, succeeded_published, failed_published, refund_requested,
  intent_requested, cancel_requested, intent_not_cancellable, payment_not_found, payment_in_flight,
  cannot_refund, signature_mismatch, unmarshal,
}
use stora_ecommerce.Orders.Service.{mark_paid, mark_payment_failed}
use stora_ecommerce.Payments.Repository.{
  payment_status_eq, get_by_payment_intent_id, latest_for_order, update_succeeded, update_failed,
  update_cancelled, mark_refunded, pending_intent_ids_for_order,
}

-- `publishWithRetry`: the first attempt and one after each backoff; a final failure is only logged.
abbrev pub again_if : Result ⊤ → M ⊤ → M ⊤
again_if (ok _) rest = pure tt
again_if (err e) rest = rest

unfoldable pub publish_with_retry : ℕ → M ⊤ → M ⊤
publish_with_retry zero publish = attempt publish >> pure tt
publish_with_retry (suc backoffs) publish = do
  r ← attempt publish
  again_if r (publish_with_retry backoffs publish)

-- `len(publishRetryBackoffs)`
abbrev pub backoffs : ℕ
backoffs = 3

-- `GetIntent`
unfoldable pub get_intent : ℕ → M IntentStatus
get_intent intent = query (λ env t db. (ok (env.intent t intent), db))

-- `NewIntent`: the id and the client secret.
pub record NewIntent : Type 0 where
  pub id : ℕ
  pub client_secret : Text

unfoldable pub new_intent : ℕ → ℕ → M NewIntent
new_intent order_id amount_cents = do
  made ←
      here (λ env t. record { id = env.new_intent_id t; client_secret = env.new_client_secret t })
  request (intent_requested order_id amount_cents)
  pure made

-- `CancelIntent`
unfoldable pub cancel_intent : ℕ → M ⊤
cancel_intent intent = do
  refused ← here (λ env t. env.cancel_refused t)
  request (cancel_requested intent)
  raise_if refused intent_not_cancellable

-- `Refund`, under the payment's id as the idempotency key.
unfoldable pub refund : ℕ → ℕ → M ℕ
refund intent key = do
  id ← here (λ env t. env.refund_id t)
  request (refund_requested intent key)
  pure id

unfoldable pub refund_payment : Payment → M ⊤
refund_payment payment = do
  raise_if (not (payment_status_eq payment.status succeeded)) cannot_refund
  refund_id ← refund payment.stripe_payment_intent_id payment.id
  mark_refunded payment.id refund_id

unfoldable pub refund_order : ℕ → M ⊤
refund_order order_id = do
  payment ← latest_for_order order_id
  if payment_status_eq payment.status refunded then pure tt else refund_payment payment

abbrev pub settle : Payment → Bool → M ⊤
settle existing false = do
  update_succeeded existing.stripe_payment_intent_id
  attempt (refund_order existing.order_id)
  pure tt
settle existing true = do
  update_succeeded existing.stripe_payment_intent_id
  publish_with_retry backoffs (
      send (
        succeeded_published existing.order_id existing.stripe_payment_intent_id
          existing.amount_cents))

-- The order first, the payment row last.
unfoldable pub apply_succeeded : Bool → Payment → M ⊤
apply_succeeded activity existing = do
  live ← mark_paid activity existing.order_id
  settle existing live

-- The payment row first, then the order.
unfoldable pub apply_failed : Payment → Text → Text → M ⊤
apply_failed existing code message = do
  update_failed existing.stripe_payment_intent_id code message
  mark_payment_failed existing.order_id
  publish_with_retry backoffs (
      send (
        failed_published existing.order_id existing.stripe_payment_intent_id existing.amount_cents
          code message))

-- The fields of a Stripe PaymentIntent that a webhook reads.
pub record PaymentIntent : Type 0 where
  pub id : ℕ
  pub last_error_code : Text
  pub last_error_msg : Text

-- A webhook event; the payload is `none` where it cannot be unmarshalled.
pub data StripeEvent : Type 0 where
  intent_succeeded : Option PaymentIntent → StripeEvent
  intent_failed : Option PaymentIntent → StripeEvent
  other_event : StripeEvent

abbrev pub payload : Option PaymentIntent → M PaymentIntent
payload none = raise unmarshal
payload (some pi) = pure pi

abbrev pub is_payment_not_found : Err → Bool
is_payment_not_found payment_not_found = true
is_payment_not_found _ = false

-- An unknown intent is acknowledged.
abbrev pub known_payment : Result Payment → (Payment → M ⊤) → M ⊤
known_payment (ok existing) k = k existing
known_payment (err e) k = if is_payment_not_found e then pure tt else raise e

abbrev pub succeed_unless_done : Bool → Payment → M ⊤
succeed_unless_done activity existing =
    if payment_status_eq existing.status succeeded
    then pure tt
    else apply_succeeded activity existing

unfoldable pub on_intent_succeeded : Bool → Option PaymentIntent → M ⊤
on_intent_succeeded activity raw = do
  pi ← payload raw
  found ← attempt (get_by_payment_intent_id pi.id)
  known_payment found (succeed_unless_done activity)

abbrev pub fail_unless_done : PaymentIntent → Payment → M ⊤
fail_unless_done pi existing =
    if payment_status_eq existing.status failed
    then pure tt
    else apply_failed existing pi.last_error_code pi.last_error_msg

unfoldable pub on_intent_failed : Option PaymentIntent → M ⊤
on_intent_failed raw = do
  pi ← payload raw
  found ← attempt (get_by_payment_intent_id pi.id)
  known_payment found (fail_unless_done pi)

unfoldable pub handle_event : Bool → StripeEvent → M ⊤
handle_event activity (intent_succeeded raw) = on_intent_succeeded activity raw
handle_event activity (intent_failed raw) = on_intent_failed raw
handle_event activity other_event = pure tt

-- `HandleWebhook`; `none` is a payload whose signature does not verify.
unfoldable pub handle_webhook : Bool → Option StripeEvent → M ⊤
handle_webhook activity none = raise signature_mismatch
handle_webhook activity (some event) = handle_event activity event

abbrev pub apply_intent : Bool → Payment → IntentStatus → IntentState → M ⊤
apply_intent activity payment intent IntentState.succeeded = apply_succeeded activity payment
apply_intent activity payment intent IntentState.canceled =
    apply_failed payment intent.last_error_code intent.last_error_msg
apply_intent activity payment intent IntentState.requires_payment_method =
    if is_empty intent.last_error_code && is_empty intent.last_error_msg
    then pure tt
    else apply_failed payment intent.last_error_code intent.last_error_msg
apply_intent activity payment intent _ = pure tt

abbrev pub reconcile_pending : Bool → Payment → M ⊤
reconcile_pending activity payment = do
  intent ← get_intent payment.stripe_payment_intent_id
  apply_intent activity payment intent intent.state

abbrev pub reconcile_payment : Bool → Payment → PaymentStatus → M ⊤
reconcile_payment activity payment pending = reconcile_pending activity payment
reconcile_payment activity payment _ = pure tt

abbrev pub reconcile_found : Bool → Result Payment → M ⊤
reconcile_found activity (ok payment) = reconcile_payment activity payment payment.status
reconcile_found activity (err e) = if is_payment_not_found e then pure tt else raise e

unfoldable pub reconcile : Bool → ℕ → M ⊤
reconcile activity order_id = do
  found ← attempt (latest_for_order order_id)
  reconcile_found activity found

abbrev pub is_not_cancellable : Err → Bool
is_not_cancellable intent_not_cancellable = true
is_not_cancellable _ = false

-- Whether the customer has paid or is paying.
abbrev pub in_flight : IntentState → Bool
in_flight IntentState.succeeded = true
in_flight IntentState.processing = true
in_flight _ = false

abbrev pub check_void : ℕ → Result ⊤ → M ⊤
check_void intent (ok _) = pure tt
check_void intent (err e) =
    if is_not_cancellable e
    then (get_intent intent >>= λ st. raise_if (in_flight st.state) payment_in_flight)
    else raise e

unfoldable pub void_intent : ℕ → M ⊤
void_intent intent = do
  r ← attempt (cancel_intent intent)
  check_void intent r
  update_cancelled intent

unfoldable pub void_each : List ℕ → M ⊤
void_each [] = pure tt
void_each (intent ∷ intents) = void_intent intent >> void_each intents

unfoldable pub cancel_order_intents : ℕ → M ⊤
cancel_order_intents order_id = do
  intents ← pending_intent_ids_for_order order_id
  void_each intents
