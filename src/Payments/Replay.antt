-- ===== src/Payments/Replay.antt =====
-- Webhooks that Stripe sends again (`onIntentSucceeded`, `onIntentFailed`).
use stora_ecommerce.Prelude.{
  ℕ, ⊤, ◌≡◌, refl, Bool, true, false, Option, none, some, List, if◌then◌else◌,
}
use stora_ecommerce.Schema.{
  Payment, PaymentStatus, Db, PaymentStatus.succeeded, PaymentStatus.failed,
}
use stora_ecommerce.Effect.{
  Env, World, Result, ok, err, M, Message, pure, raise, ◌>>=◌, attempt, unmarshal,
}
use stora_ecommerce.Effect.Rely.{Ends}
use stora_ecommerce.Effect.Quiet.{
  Quiet, Still, Still-pure, Still-raise, Still-bind, Still-attempt, Still-read,
}
use stora_ecommerce.Payments.Repository.{
  find_intent, or_payment_not_found, get_by_payment_intent_id,
}
use stora_ecommerce.Payments.Service.{
  PaymentIntent, StripeEvent, intent_succeeded, intent_failed, other_event, payload,
  is_payment_not_found, known_payment, succeed_unless_done, fail_unless_done, on_intent_succeeded,
  on_intent_failed, handle_event, handle_webhook,
}

-- A payload that names no payment, or one that has this status already.
abbrev SettledAs : PaymentStatus → Option Payment → Type 0
SettledAs status none = ⊤
SettledAs status (some x) = x.status ≡ status

abbrev Repeated : PaymentStatus → Option PaymentIntent → Db → Type 0
Repeated status none db = ⊤
Repeated status (some pi) db = SettledAs status (find_intent pi.id db.payments)

-- An event with nothing left to do: its payload cannot be read, its intent is unknown, its payment
-- has the outcome that it reports, or it is of another kind.
abbrev pub IsRepeated : StripeEvent → Db → Type 0
IsRepeated (intent_succeeded raw) db = Repeated succeeded raw db
IsRepeated (intent_failed raw) db = Repeated failed raw db
IsRepeated other_event db = ⊤

module _ (env : Env) (quiet : Quiet env) (db : Db) (out : List Message) where
  Still-payload :
      (raw : Option PaymentIntent) → Still env db out (λ pi. raw ≡ some pi) (payload raw)
  Still-payload none = Still-raise env quiet db out (λ pi. none ≡ some pi) unmarshal
  Still-payload (some pi) = Still-pure env quiet db out (λ q. some pi ≡ some q) pi refl

  settled_lookup :
      (status : PaymentStatus) (intent : ℕ)
      → SettledAs status (find_intent intent db.payments)
      → Still env db out (λ x. x.status ≡ status) (get_by_payment_intent_id intent)
  unfolding get_by_payment_intent_id
  settled_lookup status intent h =
      Still-read env quiet db out (λ x. x.status ≡ status)
        (λ env t db. or_payment_not_found (find_intent intent db.payments))
        (λ t. go (find_intent intent db.payments) h)
    where
      go :
          (o : Option Payment)
          → SettledAs status o
          → Ends (λ x _. x.status ≡ status) (or_payment_not_found o) db
      go none h = tt
      go (some x) h = h

  settled_payment :
      (status : PaymentStatus) (k : Payment → M ⊤) (r : Result Payment)
      → ((x : Payment) → x.status ≡ status → Still env db out (λ _. ⊤) (k x))
      → Ends (λ x _. x.status ≡ status) r db
      → Still env db out (λ _. ⊤) (known_payment r k)
  settled_payment status k (ok x) h q = h x q
  settled_payment status k (err e) h q = go (is_payment_not_found e)
    where
      go : (b : Bool) → Still env db out (λ (_ : ⊤). ⊤) (if b then pure tt else raise e)
      go true = Still-pure env quiet db out (λ _. ⊤) tt tt
      go false = Still-raise env quiet db out (λ _. ⊤) e

  done_already :
      (status : PaymentStatus) (raw : Option PaymentIntent) (k : PaymentIntent → Payment → M ⊤)
      → Repeated status raw db
      → ((pi : PaymentIntent) (x : Payment)
          → x.status ≡ status
          → Still env db out (λ _. ⊤) (k pi x))
      → Still env db out
          (λ _. ⊤)
          (payload raw >>= λ pi.
            attempt (get_by_payment_intent_id pi.id) >>= λ found. known_payment found (k pi))
  done_already status raw k settled h =
      Still-bind env quiet db out (λ pi. raw ≡ some pi) (payload raw) _ (Still-payload raw)
        λ pi is_pi.
          Still-bind env quiet db out (λ r. Ends (λ x _. x.status ≡ status) r db)
            (attempt (get_by_payment_intent_id pi.id)) (λ found. known_payment found (k pi))
            (Still-attempt env quiet db out (λ x. x.status ≡ status)
              (get_by_payment_intent_id pi.id) (settled_lookup status pi.id (rw is_pi at settled)))
            (λ r q. settled_payment status (k pi) r (h pi) q)

  handle_event-Still :
      (activity : Bool) (event : StripeEvent)
      → IsRepeated event db
      → Still env db out (λ _. ⊤) (handle_event activity event)
  unfolding handle_event on_intent_succeeded on_intent_failed
  handle_event-Still activity (intent_succeeded raw) h =
      done_already succeeded raw (λ pi. succeed_unless_done activity) h
        (λ pi x same. rw same (Still-pure env quiet db out (λ _. ⊤) tt tt))
  handle_event-Still activity (intent_failed raw) h =
      done_already failed raw fail_unless_done h
        (λ pi x same. rw same (Still-pure env quiet db out (λ _. ⊤) tt tt))
  handle_event-Still activity other_event h = Still-pure env quiet db out (λ _. ⊤) tt tt

-- While no other request commits anything, an event with nothing left to do changes no table and
-- sends no message, whatever call fails on the way.
pub handle_webhook-replay :
    (activity : Bool) (event : StripeEvent) (env : Env) (w : World)
    → Quiet env
    → IsRepeated event w.db
    → ((handle_webhook activity (some event) env w).1.db ≡ w.db)
      × ((handle_webhook activity (some event) env w).1.outbox ≡ w.outbox)
unfolding handle_webhook
handle_webhook-replay activity event env w quiet h =
    let (same, (silent, q)) =
      (handle_event-Still env quiet w.db w.outbox activity event h).run w refl refl in
    (same, silent)
