-- ===== src/Payments/Intent.antt =====
-- `CreateIntent` (internal/payments/service.go): a pending payment's intent is used again where
-- Stripe still lets it be confirmed, and else a new one is made.
use stora_ecommerce.Prelude.{
  ℕ, Bool, true, false, not, ◌&&◌, Option, none, some, [], ◌∷◌, is_empty, if◌then◌else◌,
}
use stora_ecommerce.Schema.{Text, Payment, PaymentStatus.pending, pending_payment}
use stora_ecommerce.Effect.{
  Err, Result, ok, err, M, pure, raise, ◌>>=◌, ◌>>◌, raise_if, attempt, IntentState, IntentStatus,
  orders_forbidden, payments_forbidden, invalid_order_status,
}
use stora_ecommerce.Orders.Table.{status_eq}
use stora_ecommerce.Orders.Model.{Order, OrderResponse}
use stora_ecommerce.Orders.Service.{Deps, get_order}
use stora_ecommerce.Payments.Repository.{payment_status_eq, latest_for_order, create}
use stora_ecommerce.Payments.Service.{get_intent, new_intent}

-- `CreateIntentResponse`, less the publishable key.
pub record IntentResponse : Type 0 where
  pub client_secret : Text
  pub payment_intent_id : ℕ

-- `isReusableIntentStatus`
unfoldable pub is_reusable_intent_status : IntentState → Bool
is_reusable_intent_status IntentState.requires_payment_method = true
is_reusable_intent_status IntentState.requires_confirmation = true
is_reusable_intent_status IntentState.requires_action = true
is_reusable_intent_status IntentState.processing = true
is_reusable_intent_status _ = false

abbrev pub translate : Err → Err
translate orders_forbidden = payments_forbidden
translate e = e

abbrev pub translated : Result OrderResponse → M OrderResponse
translated (ok order) = pure order
translated (err e) = raise (translate e)

abbrev pub if_reusable : ℕ → Result IntentStatus → Option IntentResponse
if_reusable intent (err e) = none
if_reusable intent (ok st) =
    if not (is_empty st.client_secret) && is_reusable_intent_status st.state
    then some (record { client_secret = st.client_secret; payment_intent_id = intent })
    else none

abbrev pub ask_intent : ℕ → M (Option IntentResponse)
ask_intent intent = do st ← attempt (get_intent intent); pure (if_reusable intent st)

abbrev pub reuse_latest : Result Payment → M (Option IntentResponse)
reuse_latest (err e) = pure none
reuse_latest (ok existing) =
    if payment_status_eq existing.status pending
    then ask_intent existing.stripe_payment_intent_id
    else pure none

abbrev pub usd : Text
usd = b'u' ∷ b's' ∷ b'd' ∷ []

unfoldable pub make_intent : Order → M IntentResponse
make_intent order = do
  made ← new_intent order.id order.total_cents
  create order.id made.id order.total_cents usd
  pure (record { client_secret = made.client_secret; payment_intent_id = made.id })

abbrev pub reuse_or_make : Order → Option IntentResponse → M IntentResponse
reuse_or_make order (some reused) = pure reused
reuse_or_make order none = make_intent order

unfoldable pub create_intent : Deps → Option ℕ → Option ℕ → ℕ → M IntentResponse
create_intent deps user guest order_id = do
  found ← attempt (get_order deps user guest order_id)
  resp ← translated found
  raise_if (not (status_eq resp.order.status pending_payment)) invalid_order_status
  latest ← attempt (latest_for_order resp.order.id)
  reused ← reuse_latest latest
  reuse_or_make resp.order reused
