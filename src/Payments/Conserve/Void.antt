-- ===== src/Payments/Conserve/Void.antt =====
-- `CancelOrderIntents` as a step on the stock.
use stora_ecommerce.Prelude.{
  ℕ, refl, ⊤, Bool, true, false, Option, none, some, List, [], ◌∷◌, map, if◌then◌else◌,
}
use stora_ecommerce.Schema.{Db}
use stora_ecommerce.Effect.{
  Err, Result, ok, err, raise, ◌>>=◌, raise_if, attempt, here, request, cancel_requested,
  intent_not_cancellable, payment_in_flight, rows_checked,
}
use stora_ecommerce.Effect.Rely.{Ends, Triple-raise, Triple-read, Triple-request}
use stora_ecommerce.Effect.Silent.{Silent-raise_if, Triple-Silent}
use stora_ecommerce.Orders.Conserve.Table.{Conserves-IsStep, Linked, Linked-Stable, Runs}
use stora_ecommerce.Orders.Conserve.Loads.{Runs-bind, Runs-pure, Runs-attempt}
use stora_ecommerce.Payments.Repository.{
  update_cancelled, pending_intent_ids_for_order, pending_rows,
}
use stora_ecommerce.Payments.Service.{
  get_intent, cancel_intent, is_not_cancellable, in_flight, check_void, void_intent, void_each,
  cancel_order_intents,
}
use stora_ecommerce.Payments.Conserve.Rows.{update_cancelled-Runs}

module _ (p : ℕ) where
  Runs-raise_if : (b : Bool) (e : Err) → Runs p (raise_if b e)
  Runs-raise_if b e = Triple-Silent (Conserves-IsStep p) (raise_if b e) (Silent-raise_if b e)

  pub Runs-get_intent : (intent : ℕ) → Runs p (get_intent intent)
  unfolding get_intent
  Runs-get_intent intent =
      Triple-read (Conserves-IsStep p) (λ _. Linked) (λ env t db. ok (env.intent t intent))
        (Linked-Stable p) (λ env t db rely h. h)

  Runs-cancel_intent : (intent : ℕ) → Runs p (cancel_intent intent)
  unfolding cancel_intent
  Runs-cancel_intent intent =
      Runs-bind p (here (λ env t. env.cancel_refused t)) _
        (Triple-Silent (Conserves-IsStep p) _ (record { same = λ env w. refl }))
        λ refused.
          Runs-bind p (request (cancel_requested intent))
            (λ _. raise_if refused intent_not_cancellable)
            (Triple-request (Conserves-IsStep p) (cancel_requested intent) (Linked-Stable p))
            (λ _. Runs-raise_if refused intent_not_cancellable)

  Runs-check_void : (intent : ℕ) (r : Result ⊤) → Runs p (check_void intent r)
  Runs-check_void intent (ok _) = Runs-pure p tt
  Runs-check_void intent (err e) = go (is_not_cancellable e)
    where
      go :
          (b : Bool)
          → Runs {A = ⊤} p (
              if b
              then (get_intent intent >>= λ st. raise_if (in_flight st.state) payment_in_flight)
              else raise e)
      go true =
          Runs-bind p (get_intent intent) _ (Runs-get_intent intent)
            (λ st. Runs-raise_if (in_flight st.state) payment_in_flight)
      go false = Triple-raise (Conserves-IsStep p) (λ _. Linked) e

  Runs-void_intent : (intent : ℕ) → Runs p (void_intent intent)
  unfolding void_intent
  Runs-void_intent intent =
      Runs-bind p (attempt (cancel_intent intent)) _
        (Runs-attempt p (cancel_intent intent) (Runs-cancel_intent intent))
        λ r.
          Runs-bind p (check_void intent r) (λ _. update_cancelled intent)
            (Runs-check_void intent r) (λ _. update_cancelled-Runs p intent)

  Runs-void_each : (intents : List ℕ) → Runs p (void_each intents)
  unfolding void_each
  Runs-void_each [] = Runs-pure p tt
  Runs-void_each (intent ∷ intents) =
      Runs-bind p (void_intent intent) (λ _. void_each intents) (Runs-void_intent intent)
        (λ _. Runs-void_each intents)

  pub cancel_order_intents-Conserves : (order_id : ℕ) → Runs p (cancel_order_intents order_id)
  unfolding cancel_order_intents pending_intent_ids_for_order
  cancel_order_intents-Conserves order_id =
      Runs-bind p (pending_intent_ids_for_order order_id) void_each
        (Triple-read (Conserves-IsStep p) (λ _. Linked)
          (λ env t db.
            rows_checked (env.cut t)
              (map (λ x. x.stripe_payment_intent_id) (pending_rows order_id db.payments)))
          (Linked-Stable p)
          (λ env t db rely h.
            go db h (env.cut t)
              (map (λ x. x.stripe_payment_intent_id) (pending_rows order_id db.payments))))
        Runs-void_each
    where
      go :
          (db : Db) (h : Linked db) (c : Option ℕ) (xs : List ℕ)
          → Ends (λ _. Linked) (rows_checked c xs) db
      go db h none xs = h
      go db h (some n) xs = tt
