-- ===== src/Messaging.antt =====
-- Consuming payment events (internal/messaging/consumer.go, internal/notifications/email_consumer.go).
-- The wording of the mails and the tracing are left out; what JSON decoding yields is the event.
pub mod Settled
use stora_ecommerce.Prelude.{ℕ, ◌+◌, ⊤, Bool, true, false, List, [], ◌∷◌, if◌then◌else◌}
use stora_ecommerce.Schema.{Text}
use stora_ecommerce.Effect.{
  Env, Result, ok, err, M, Mail, payment_received, payment_failed_mail, mail_sent, pure, raise,
  ◌>>=◌, attempt, send, unmarshal, unknown_routing_key,
}
use stora_ecommerce.Orders.Model.{OrderResponse}
use stora_ecommerce.Orders.Service.{load_by_id}

-- What becomes of a delivery: acknowledged, returned to the queue, or passed to the dead letters.
pub data Settlement : Type 0 where
  acked requeued dead_lettered : Settlement

-- Waiting for `time.After` or the end of the context.
unfoldable pub stopped_while_waiting : M Bool
stopped_while_waiting env w = (ok (env.stopped w.tick), record w { tick = w.tick + 1 })

-- What follows the last attempt, and an attempt before it.
abbrev pub settle_last : Result ⊤ → M Settlement
settle_last (ok x) = pure acked
settle_last (err e) = pure dead_lettered

abbrev pub unless_stopped : M Settlement → Bool → M Settlement
unless_stopped rest true = pure requeued
unless_stopped rest false = rest

abbrev pub settle : M Settlement → Result ⊤ → M Settlement
settle rest (ok x) = pure acked
settle rest (err e) = stopped_while_waiting >>= unless_stopped rest

-- `dispatch`: one attempt more than there are backoffs. That a settlement does not reach the broker
-- is only logged.
unfoldable pub dispatch : M ⊤ → List ℕ → M Settlement
dispatch handler [] = attempt handler >>= settle_last
dispatch handler (backoff ∷ backoffs) = attempt handler >>= settle (dispatch handler backoffs)

-- `NewConsumer`, in milliseconds.
abbrev pub backoffs : List ℕ
backoffs = 200 ∷ 1000 ∷ 5000 ∷ []

-- The routing key and the decoded body.
pub data Event : Type 0 where
  succeeded_event : ℕ → Event
  failed_event : ℕ → Text → Text → Event
  undecodable unknown_key : Event

unfoldable pub send_confirmation : ℕ → M ⊤
send_confirmation id = do
  o ← load_by_id id
  send (mail_sent o.order.email (payment_received o.order.order_number))

unfoldable pub send_failure : ℕ → Text → Text → M ⊤
send_failure id code message = do
  o ← load_by_id id
  send (mail_sent o.order.email (payment_failed_mail o.order.order_number code message))

-- `EmailConsumer.Handle`
unfoldable pub handle : Event → M ⊤
handle (succeeded_event id) = send_confirmation id
handle (failed_event id code message) = send_failure id code message
handle undecodable = raise unmarshal
handle unknown_key = raise unknown_routing_key

unfoldable pub consume : Event → M Settlement
consume event = dispatch (handle event) backoffs
