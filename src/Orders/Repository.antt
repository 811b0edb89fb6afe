-- ===== src/Orders/Repository.antt =====
-- The reads of internal/orders/repository.go.
use stora_ecommerce.Prelude.{
  ℕ, Option, none, some, List, [], ◌∷◌, ◌&&◌, ltb, map, take, if◌then◌else◌,
}
use stora_ecommerce.Schema.{OrderItem, OrderRow, OrderEntry, AddressRow, pending_payment}
use stora_ecommerce.Effect.{
  Result, ok, err, M, pure, ◌>>=◌, query, rows_seen, rows_checked, order_not_found, infra,
}
use stora_ecommerce.Orders.Table.{find_order, status_eq}

abbrev pub row_of : Option OrderEntry → Result OrderRow
row_of none = err order_not_found
row_of (some o) = ok o.row

abbrev pub items_of : Option OrderEntry → List OrderItem
items_of none = []
items_of (some o) = o.items

abbrev pub address_found : Option AddressRow → Result AddressRow
address_found none = err infra
address_found (some a) = ok a

abbrev pub address_of : Option OrderEntry → Result AddressRow
address_of none = err infra
address_of (some o) = address_found o.address

unfoldable pub query_row : ℕ → M OrderRow
query_row id = query (λ env t db. (row_of (find_order id db.orders), db))

unfoldable pub query_items : ℕ → M (List OrderItem)
query_items id =
    query (λ env t db. (ok (rows_seen (env.cut t) (items_of (find_order id db.orders))), db))

unfoldable pub query_address : ℕ → M AddressRow
query_address id = query (λ env t db. (address_of (find_order id db.orders), db))

-- What `Repository.GetByID` returns.
pub record Loaded : Type 0 where
  pub row : OrderRow
  pub items : List OrderItem
  pub address : AddressRow

-- Three queries, so the parts may be of different moments.
unfoldable pub get_by_id : ℕ → M Loaded
get_by_id id = do
  row ← query_row id
  items ← query_items id
  address ← query_address id
  pure (record { row = row; items = items; address = address })

-- `product_id IS NOT NULL`
abbrev keep_with_product : Option ℕ → OrderItem → List OrderItem → List OrderItem
keep_with_product none it rest = rest
keep_with_product (some p) it rest = it ∷ rest

abbrev pub with_product : List OrderItem → List OrderItem
with_product [] = []
with_product (it ∷ items) = keep_with_product it.product_id it (with_product items)

-- The loop does not ask `rows.Err()`.
unfoldable pub items_for_restock : ℕ → M (List OrderItem)
items_for_restock id = query (λ env t db.
    (ok (rows_seen (env.cut t) (with_product (items_of (find_order id db.orders)))), db))

-- `ORDER BY created_at`
abbrev pub by_creation : OrderRow → List OrderRow → List OrderRow
by_creation r [] = r ∷ []
by_creation r (q ∷ rows) =
    let later = q ∷ by_creation r rows in
    if ltb q.created_at r.created_at then later else r ∷ q ∷ rows

-- Pending orders from before the cutoff, oldest first.
abbrev pub keep_stale : ℕ → OrderRow → List OrderRow → List OrderRow
keep_stale cutoff r rest =
    if status_eq r.status pending_payment && ltb r.created_at cutoff
    then by_creation r rest
    else rest

abbrev pub stale_rows : ℕ → List OrderEntry → List OrderRow
stale_rows cutoff [] = []
stale_rows cutoff (o ∷ os) = keep_stale cutoff o.row (stale_rows cutoff os)

abbrev pub stale_ids : ℕ → ℕ → List OrderEntry → List ℕ
stale_ids cutoff limit os = map (λ r. r.id) (take limit (stale_rows cutoff os))

unfoldable pub stale_pending_orders : ℕ → ℕ → M (List ℕ)
stale_pending_orders cutoff limit =
    query (λ env t db. (rows_checked (env.cut t) (stale_ids cutoff limit db.orders), db))
