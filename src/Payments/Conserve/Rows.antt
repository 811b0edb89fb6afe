-- ===== src/Payments/Conserve/Rows.antt =====
-- The statements on `payments` (internal/payments/repository.go) as steps on the stock.
use stora_ecommerce.Prelude.{
  ℕ, ◌≡◌, refl, Bool, true, false, Option, none, some, List, [], ◌∷◌, ◌==◌, ltb, All, Bool-cases,
  inl, inr, arith,
}
use stora_ecommerce.Schema.{Text, Payment, Db, PaymentStatus.pending, PaymentStatus.refunded}
use stora_ecommerce.Effect.{ok, query}
use stora_ecommerce.Effect.Rely.{Ends, Triple, Triple-query, Triple-read}
use stora_ecommerce.Orders.Conserve.Table.{
  Conserves, Conserves-IsStep, Exists, Known, Linked, Linked-Stable, Runs,
}
use stora_ecommerce.Orders.Conserve.Reads.{Known-Stable}
use stora_ecommerce.Payments.Repository.{
  payment_status_eq, find_intent, update_intent, update_payment, latest, newer,
  or_payment_not_found, get_by_payment_intent_id, latest_for_order, update_succeeded, update_failed,
  update_cancelled, mark_refunded, set_succeeded, set_failed, set_cancelled, set_refunded,
  update_found,
}

-- The rows after an update that leaves each row its order.
update_intent-All :
    (P : ℕ → Type 0) (intent : ℕ) (f : Payment → Payment) (xs : List Payment)
    → ((x : Payment) → P x.order_id → P (f x).order_id)
    → All (λ x. P x.order_id) xs
    → All (λ x. P x.order_id) (update_intent intent f xs)
unfolding update_intent
update_intent-All P intent f [] k h = tt
update_intent-All P intent f (x ∷ xs) k h =
    elim (Bool-cases (x.stripe_payment_intent_id == intent)) [
      | inl same ↦ rw same (k x h.0, h.1)
      | inr other ↦ rw other (h.0, update_intent-All P intent f xs k h.1)
    ]

update_payment-All :
    (P : ℕ → Type 0) (id : ℕ) (f : Payment → Payment) (xs : List Payment)
    → ((x : Payment) → P x.order_id → P (f x).order_id)
    → All (λ x. P x.order_id) xs
    → All (λ x. P x.order_id) (update_payment id f xs)
unfolding update_payment
update_payment-All P id f [] k h = tt
update_payment-All P id f (x ∷ xs) k h = elim (Bool-cases (x.id == id)) [
  | inl same ↦ rw same (k x h.0, h.1)
  | inr other ↦ rw other (h.0, update_payment-All P id f xs k h.1)
]

find_intent-All :
    (P : ℕ → Type 0) (intent : ℕ) (xs : List Payment) (x : Payment)
    → All (λ x. P x.order_id) xs
    → find_intent intent xs ≡ some x
    → P x.order_id
unfolding find_intent
find_intent-All P intent [] x h e = cc e
find_intent-All P intent (y ∷ ys) x h e = elim (Bool-cases (y.stripe_payment_intent_id == intent)) [
  | inl same ↦ let q : some y ≡ some x = rw same at e in rw (← some_eq y x q) h.0
  | inr other ↦ find_intent-All P intent ys x h.1 (rw other at e)
]
  where
    some_eq : (a b : Payment) → some a ≡ some b → a ≡ b
    some_eq a b q = cc q

newer-All :
    (P : ℕ → Type 0) (b : Bool) (x : Payment) (rest : Option Payment) (y : Payment)
    → P x.order_id
    → ((z : Payment) → rest ≡ some z → P z.order_id)
    → newer b x rest ≡ some y
    → P y.order_id
newer-All P false x rest y h k e = k y e
newer-All P true x none y h k e = let q : x ≡ y = cc e in rw (← q) h
newer-All P true x (some z) y h k e = elim (Bool-cases (ltb z.created_at x.created_at)) [
  | inl newer_x ↦ let q : x ≡ y = ground (arith, newer_x, e) in rw (← q) h
  | inr newer_z ↦ k y (rw newer_z at e)
]

latest-All :
    (P : ℕ → Type 0) (order_id : ℕ) (xs : List Payment) (y : Payment)
    → All (λ x. P x.order_id) xs
    → latest order_id xs ≡ some y
    → P y.order_id
unfolding latest
latest-All P order_id [] y h e = cc e
latest-All P order_id (x ∷ xs) y h e =
    newer-All P (x.order_id == order_id) x (latest order_id xs) y h.0
      (λ z. latest-All P order_id xs z h.1) e

-- A change of the payments alone.
payments-Conserves :
    (p : ℕ) (db : Db) (xs : List Payment)
    → All (λ x. Exists x.order_id db) xs
    → Conserves p db (record db { payments = xs })
payments-Conserves p db xs h = record {
  listed = λ l. l;
  same_level = λ l. refl;
  kept = λ id items k. k;
  linked = λ _. h;
}

set_cancelled-order : (P : ℕ → Type 0) (x : Payment) → P x.order_id → P (set_cancelled x).order_id
set_cancelled-order P x h = elim (Bool-cases (payment_status_eq x.status pending)) [
  | inl e ↦ rw e h
  | inr e ↦ rw e h
]

set_refunded-order :
    (P : ℕ → Type 0) (r now : ℕ) (x : Payment) → P x.order_id → P (set_refunded r now x).order_id
set_refunded-order P r now x h = elim (Bool-cases (payment_status_eq x.status refunded)) [
  | inl e ↦ rw e h
  | inr e ↦ rw e h
]

module _ (p : ℕ) where
  -- Whoever has found a payment knows that its order exists.
  pub get_by_payment_intent_id-Known :
      (intent : ℕ)
      → Triple (Conserves p) Linked (get_by_payment_intent_id intent) (λ x. Known x.order_id)
  unfolding get_by_payment_intent_id
  get_by_payment_intent_id-Known intent =
      Triple-read (Conserves-IsStep p) (λ x. Known x.order_id)
        (λ env t db. or_payment_not_found (find_intent intent db.payments)) (Linked-Stable p)
        (λ env t db rely h. go db h (find_intent intent db.payments) refl)
    where
      go :
          (db : Db) (h : Linked db) (o : Option Payment)
          → find_intent intent db.payments ≡ o
          → Ends (λ x. Known x.order_id) (or_payment_not_found o) db
      go db h none e = tt
      go db h (some x) e =
          let k = find_intent-All (λ id. Exists id db) intent db.payments x h e in (k.0, (k.1, h))

  pub latest_for_order-Known :
      (order_id : ℕ)
      → Triple (Conserves p) Linked (latest_for_order order_id) (λ x. Known x.order_id)
  unfolding latest_for_order
  latest_for_order-Known order_id =
      Triple-read (Conserves-IsStep p) (λ x. Known x.order_id)
        (λ env t db. or_payment_not_found (latest order_id db.payments)) (Linked-Stable p)
        (λ env t db rely h. go db h (latest order_id db.payments) refl)
    where
      go :
          (db : Db) (h : Linked db) (o : Option Payment)
          → latest order_id db.payments ≡ o
          → Ends (λ x. Known x.order_id) (or_payment_not_found o) db
      go db h none e = tt
      go db h (some x) e =
          let k = latest-All (λ id. Exists id db) order_id db.payments x h e in (k.0, (k.1, h))

  -- An update of the row of an intent, beside what is known of an order.
  update_found-Known :
      (id intent : ℕ) (f : Payment → Payment)
      → ((P : ℕ → Type 0) (x : Payment) → P x.order_id → P (f x).order_id)
      → Triple
          (Conserves p)
          (Known id)
          (query (λ env t db. update_found (find_intent intent db.payments) intent f db))
          (λ _. Known id)
  update_found-Known id intent f same =
      Triple-query (Conserves-IsStep p) (λ _. Known id)
        (λ env t db. update_found (find_intent intent db.payments) intent f db) (Known-Stable p id)
        (λ env t db rely h. go db h (find_intent intent db.payments))
    where
      go :
          (db : Db) (h : Known id db) (o : Option Payment)
          → Conserves p db (update_found o intent f db).1
            × Ends (λ _. Known id) (update_found o intent f db).0 (update_found o intent f db).1
      go db h none = ((Conserves-IsStep p).stay db, tt)
      go db h (some x) =
          let step = payments-Conserves p db (update_intent intent f db.payments) (
            update_intent-All (λ id. Exists id db) intent f db.payments (same (λ id. Exists id db))
              h.1.1) in
          (
            step,
            Known-Stable p id db (record db { payments = update_intent intent f db.payments }) step
                h,
          )

  pub update_succeeded-Known :
      (id intent : ℕ) → Triple (Conserves p) (Known id) (update_succeeded intent) (λ _. Known id)
  unfolding update_succeeded
  update_succeeded-Known id intent = update_found-Known id intent set_succeeded (λ P x h. h)

  pub update_failed-Known :
      (id intent : ℕ) (code message : Text)
      → Triple (Conserves p) (Known id) (update_failed intent code message) (λ _. Known id)
  unfolding update_failed
  update_failed-Known id intent code message =
      update_found-Known id intent (set_failed code message) (λ P x h. h)

  pub update_cancelled-Runs : (intent : ℕ) → Runs p (update_cancelled intent)
  unfolding update_cancelled
  update_cancelled-Runs intent =
      Triple-query (Conserves-IsStep p) (λ _. Linked)
        (λ env t db.
          (ok tt, record db { payments = update_intent intent set_cancelled db.payments }))
        (Linked-Stable p)
        (λ env t db rely h.
          let all =
            update_intent-All (λ id. Exists id db) intent set_cancelled db.payments
              (set_cancelled-order (λ id. Exists id db)) h in
          (payments-Conserves p db (update_intent intent set_cancelled db.payments) all, all))

  pub mark_refunded-Runs : (id refund_id : ℕ) → Runs p (mark_refunded id refund_id)
  unfolding mark_refunded
  mark_refunded-Runs id refund_id =
      Triple-query (Conserves-IsStep p) (λ _. Linked)
        (λ env t db. (
          ok tt,
          record db {
            payments = update_payment id (set_refunded refund_id (env.now t)) db.payments;
          },
        ))
        (Linked-Stable p)
        (λ env t db rely h.
          let all =
            update_payment-All (λ id. Exists id db) id (set_refunded refund_id (env.now t))
              db.payments (set_refunded-order (λ id. Exists id db) refund_id (env.now t)) h in
          (
            payments-Conserves p db
                (update_payment id (set_refunded refund_id (env.now t)) db.payments) all,
            all,
          ))
