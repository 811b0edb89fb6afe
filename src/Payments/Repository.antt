-- ===== src/Payments/Repository.antt =====
-- The `payments` table (internal/payments/repository.go). Stripe ids and error texts are encrypted
-- at rest and looked up by their HMAC; here the columns hold the plain values.
use stora_ecommerce.Prelude.{
  ℕ, ⊤, Bool, true, false, Option, none, some, List, [], ◌∷◌, ◌++◌, ◌&&◌, map, ◌==◌, ltb,
  if◌then◌else◌, ◌≡◌, arith,
}
use stora_ecommerce.Schema.{
  Text, Payment, PaymentStatus, Db, PaymentStatus.pending, PaymentStatus.succeeded,
  PaymentStatus.failed, PaymentStatus.cancelled, PaymentStatus.refunded, OrderEntry,
}
use stora_ecommerce.Effect.{Env, Result, ok, err, M, query, rows_checked, payment_not_found, infra}
use stora_ecommerce.Orders.Table.{find_order}

abbrev payment_code : PaymentStatus → ℕ
payment_code pending = 0
payment_code succeeded = 1
payment_code failed = 2
payment_code cancelled = 3
payment_code refunded = 4

-- Equality of the status strings.
abbrev pub payment_status_eq : PaymentStatus → PaymentStatus → Bool
payment_status_eq a b = payment_code a == payment_code b

pub payment_status_eq→eq : (a b : PaymentStatus) → payment_status_eq a b ≡ true → a ≡ b
payment_status_eq→eq a b h = ground arith

-- `WHERE stripe_payment_intent_id_hmac = $1`
unfoldable pub find_intent : ℕ → List Payment → Option Payment
find_intent intent [] = none
find_intent intent (x ∷ xs) =
    if x.stripe_payment_intent_id == intent then some x else find_intent intent xs

unfoldable pub update_intent : ℕ → (Payment → Payment) → List Payment → List Payment
update_intent intent f [] = []
update_intent intent f (x ∷ xs) =
    if x.stripe_payment_intent_id == intent then f x ∷ xs else x ∷ update_intent intent f xs

unfoldable pub update_payment : ℕ → (Payment → Payment) → List Payment → List Payment
update_payment id f [] = []
update_payment id f (x ∷ xs) = if x.id == id then f x ∷ xs else x ∷ update_payment id f xs

-- The newer of a row of the order and the newest of the rows after it.
abbrev pub newer : Bool → Payment → Option Payment → Option Payment
newer false x rest = rest
newer true x none = some x
newer true x (some y) = if ltb y.created_at x.created_at then some x else some y

-- `WHERE order_id = $1 ORDER BY created_at DESC LIMIT 1`
unfoldable pub latest : ℕ → List Payment → Option Payment
latest order_id [] = none
latest order_id (x ∷ xs) = newer (x.order_id == order_id) x (latest order_id xs)

abbrev pub or_payment_not_found : Option Payment → Result Payment
or_payment_not_found none = err payment_not_found
or_payment_not_found (some x) = ok x

unfoldable pub get_by_payment_intent_id : ℕ → M Payment
get_by_payment_intent_id intent =
    query (λ env t db. (or_payment_not_found (find_intent intent db.payments), db))

unfoldable pub latest_for_order : ℕ → M Payment
latest_for_order order_id =
    query (λ env t db. (or_payment_not_found (latest order_id db.payments), db))

-- `Repository.Create`: the row's order exists and its intent is new, by the constraints of the
-- table.
abbrev pub insert_payment : Option OrderEntry → Option Payment → Payment → Db → Result ⊤ × Db
insert_payment (some o) none x db = (ok tt, record db { payments = db.payments ++ x ∷ [] })
insert_payment _ _ x db = (err infra, db)

abbrev pub new_payment : Env → ℕ → ℕ → ℕ → ℕ → Text → Payment
new_payment env t order_id intent amount_cents currency = record {
  id = env.fresh_id t;
  order_id = order_id;
  stripe_payment_intent_id = intent;
  status = pending;
  amount_cents = amount_cents;
  currency = currency;
  error_code = [];
  error_message = [];
  stripe_refund_id = none;
  refunded_at = none;
  created_at = env.now t;
}

unfoldable pub create : ℕ → ℕ → ℕ → Text → M ⊤
create order_id intent amount_cents currency = query (λ env t db.
    insert_payment (find_order order_id db.orders) (find_intent intent db.payments)
      (new_payment env t order_id intent amount_cents currency) db)

abbrev pub set_succeeded : Payment → Payment
set_succeeded x = record x { status = succeeded; error_code = []; error_message = [] }

abbrev pub set_failed : Text → Text → Payment → Payment
set_failed code message x = record x { status = failed; error_code = code; error_message = message }

-- `UPDATE … WHERE hmac`, no row is an error.
abbrev pub update_found : Option Payment → ℕ → (Payment → Payment) → Db → Result ⊤ × Db
update_found none intent f db = (err payment_not_found, db)
update_found (some x) intent f db =
    (ok tt, record db { payments = update_intent intent f db.payments })

unfoldable pub update_succeeded : ℕ → M ⊤
update_succeeded intent =
    query (λ env t db. update_found (find_intent intent db.payments) intent set_succeeded db)

unfoldable pub update_failed : ℕ → Text → Text → M ⊤
update_failed intent code message =
    query (λ env t db.
      update_found (find_intent intent db.payments) intent (set_failed code message) db)

-- `AND status = pending`; losing the race is no error.
abbrev pub set_cancelled : Payment → Payment
set_cancelled x = if payment_status_eq x.status pending then record x { status = cancelled } else x

unfoldable pub update_cancelled : ℕ → M ⊤
update_cancelled intent =
    query
      (λ env t db. (ok tt, record db { payments = update_intent intent set_cancelled db.payments }))

-- `AND status <> refunded`
abbrev pub set_refunded : ℕ → ℕ → Payment → Payment
set_refunded refund_id now x =
    if payment_status_eq x.status refunded
    then x
    else record x { status = refunded; stripe_refund_id = some refund_id; refunded_at = some now }

unfoldable pub mark_refunded : ℕ → ℕ → M ⊤
mark_refunded id refund_id = query (λ env t db. (
  ok tt,
  record db { payments = update_payment id (set_refunded refund_id (env.now t)) db.payments },
))

-- `ORDER BY created_at`
abbrev pub by_age : Payment → List Payment → List Payment
by_age x [] = x ∷ []
by_age x (y ∷ ys) =
    let later = y ∷ by_age x ys in if ltb y.created_at x.created_at then later else x ∷ y ∷ ys

abbrev pub keep_pending : ℕ → Payment → List Payment → List Payment
keep_pending order_id x rest =
    if x.order_id == order_id && payment_status_eq x.status pending then by_age x rest else rest

abbrev pub pending_rows : ℕ → List Payment → List Payment
pending_rows order_id [] = []
pending_rows order_id (x ∷ xs) = keep_pending order_id x (pending_rows order_id xs)

unfoldable pub pending_intent_ids_for_order : ℕ → M (List ℕ)
pending_intent_ids_for_order order_id = query (λ env t db. (
  rows_checked (env.cut t)
      (map (λ x. x.stripe_payment_intent_id) (pending_rows order_id db.payments)),
  db,
))
