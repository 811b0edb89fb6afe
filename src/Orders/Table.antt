-- ===== src/Orders/Table.antt =====
-- The `orders` table as the repository reads and updates it (internal/orders/repository.go).
use stora_ecommerce.Prelude.{
  ℕ, ◌≡◌, Bool, true, false, Option, none, some, List, [], ◌∷◌, arith, ◌==◌, if◌then◌else◌,
}
use stora_ecommerce.Schema.{OrderStatus, OrderEntry, Db}
use stora_ecommerce.Schema.{
  pending_payment, paid, payment_failed, processing, shipped, delivered, cancelled, refunded,
}
use stora_ecommerce.Effect.{ok, M, query, stmt}

-- Equality of the status strings.
abbrev status_code : OrderStatus → ℕ
status_code pending_payment = 0
status_code paid = 1
status_code payment_failed = 2
status_code processing = 3
status_code shipped = 4
status_code delivered = 5
status_code cancelled = 6
status_code refunded = 7

abbrev pub status_eq : OrderStatus → OrderStatus → Bool
status_eq a b = status_code a == status_code b

pub status_eq→eq : (a b : OrderStatus) → status_eq a b ≡ true → a ≡ b
status_eq→eq a b h = ground arith

pub status_eq_refl : (a : OrderStatus) → status_eq a a ≡ true
status_eq_refl a = ground arith

-- `WHERE id = $1`
unfoldable pub find_order : ℕ → List OrderEntry → Option OrderEntry
find_order id [] = none
find_order id (o ∷ os) = if o.row.id == id then some o else find_order id os

-- `UPDATE orders SET … WHERE id = $1`
unfoldable pub update_order : ℕ → (OrderEntry → OrderEntry) → List OrderEntry → List OrderEntry
update_order id f [] = []
update_order id f (o ∷ os) = if o.row.id == id then f o ∷ os else o ∷ update_order id f os

unfoldable pub set_status : OrderStatus → ℕ → OrderEntry → OrderEntry
set_status to now o = record o { row = record o.row { status = to; updated_at = now } }

-- The compare-and-set of `TransitionStatus`; the answer is `RowsAffected() == 1`.
abbrev transition_found : Option OrderEntry → ℕ → OrderStatus → OrderStatus → ℕ → Db → Bool × Db
transition_found none id from to now db = (false, db)
transition_found (some o) id from to now db =
    if status_eq o.row.status from
    then (true, record db { orders = update_order id (set_status to now) db.orders })
    else (false, db)

unfoldable pub transition : ℕ → OrderStatus → OrderStatus → ℕ → Db → Bool × Db
transition id from to now db = transition_found (find_order id db.orders) id from to now db

-- `pgTx.TransitionStatus`
unfoldable pub tx_transition_status : ℕ → OrderStatus → OrderStatus → M Bool
tx_transition_status id from to =
    stmt (λ env t db. let (moved, db') = transition id from to (env.now t) db in (ok moved, db'))

-- `postgresRepository.TransitionStatus`
unfoldable pub transition_status : ℕ → OrderStatus → OrderStatus → M Bool
transition_status id from to =
    query (λ env t db. let (moved, db') = transition id from to (env.now t) db in (ok moved, db'))
