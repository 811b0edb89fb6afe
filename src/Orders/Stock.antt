-- ===== src/Orders/Stock.antt =====
-- Stock: the `UPDATE products` statements of internal/orders/repository.go, and for a product the
-- units on hand together with the units that live orders hold.
use stora_ecommerce.Prelude.{
  ℕ, ◌+◌, ◌-◌, ◌≡◌, ⊤, Bool, true, false, Option, none, some, List, [], ◌∷◌, ◌++◌, arith, is_none,
  Bool-cases, inl, inr, ◌==◌, ltb, if◌then◌else◌,
}
use stora_ecommerce.Schema.{OrderStatus, OrderItem, OrderEntry, Product, Db}
use stora_ecommerce.Schema.{payment_failed, cancelled, refunded}
use stora_ecommerce.Effect.{Result, ok, err, M, pure, ◌>>◌, stmt, infra}
use stora_ecommerce.Orders.Table.{find_order, update_order}

-- The largest value of an `int` column.
abbrev pub int4_max : ℕ
int4_max = 2147483647

abbrev pub put_product : ℕ → Product → Db → Db
put_product p x db = record db { products = λ q. if q == p then some x else db.products q }

abbrev pub set_stock : ℕ → Product → ℕ → Db → Db
set_stock p x n db = put_product p (record x { stock_quantity = n }) db

-- `SET stock_quantity = stock_quantity - $2`, with the column's `CHECK (stock_quantity >= 0)`.
abbrev decrement_found : Option Product → ℕ → ℕ → Db → Result ⊤ × Db
decrement_found none p n db = (err infra, db)
decrement_found (some x) p n db =
    if ltb x.stock_quantity n
    then (err infra, db)
    else (ok tt, set_stock p x (x.stock_quantity - n) db)

unfoldable pub decrement : ℕ → ℕ → Db → Result ⊤ × Db
decrement p n db = decrement_found (db.products p) p n db

-- `SET stock_quantity = stock_quantity + $2`: a missing product is no error, overflow of the
-- `int` column is.
abbrev increment_found : Option Product → ℕ → ℕ → Db → Result ⊤ × Db
increment_found none p n db = (ok tt, db)
increment_found (some x) p n db =
    if ltb int4_max (x.stock_quantity + n)
    then (err infra, db)
    else (ok tt, set_stock p x (x.stock_quantity + n) db)

unfoldable pub increment : ℕ → ℕ → Db → Result ⊤ × Db
increment p n db = increment_found (db.products p) p n db

-- `pgTx.DecrementStock`, `pgTx.IncrementStock`
unfoldable pub tx_decrement_stock : ℕ → ℕ → M ⊤
tx_decrement_stock p n = stmt (λ env t db. decrement p n db)

unfoldable pub tx_increment_stock : ℕ → ℕ → M ⊤
tx_increment_stock p n = stmt (λ env t db. increment p n db)

-- The loop over the items of an order that gives their stock back.
abbrev pub restock_item : Option ℕ → ℕ → M ⊤
restock_item none n = pure tt
restock_item (some p) n = tx_increment_stock p n

unfoldable pub restock : List OrderItem → M ⊤
restock [] = pure tt
restock (it ∷ items) = restock_item it.product_id it.quantity >> restock items

-- The units of a product on hand.
abbrev pub on_hand : Option Product → ℕ
on_hand none = 0
on_hand (some x) = x.stock_quantity

-- Whether an order in this status holds the stock that its checkout took.
abbrev pub holds_stock : OrderStatus → Bool
holds_stock payment_failed = false
holds_stock cancelled = false
holds_stock refunded = false
holds_stock _ = true

abbrev pub item_units : ℕ → Option ℕ → ℕ → ℕ
item_units p none n = 0
item_units p (some q) n = if q == p then n else 0

abbrev pub units : ℕ → List OrderItem → ℕ
units p [] = 0
units p (it ∷ items) = item_units p it.product_id it.quantity + units p items

abbrev pub held_by : ℕ → OrderEntry → ℕ
held_by p o = if holds_stock o.row.status then units p o.items else 0

abbrev pub held : ℕ → List OrderEntry → ℕ
held p [] = 0
held p (o ∷ os) = held_by p o + held p os

-- What is on hand and what live orders hold.
abbrev pub level : ℕ → Db → ℕ
level p db = on_hand (db.products p) + held p db.orders

abbrev pub IsListed : ℕ → Db → Type 0
IsListed p db = is_none (db.products p) ≡ false

pub units-append : (p : ℕ) (xs ys : List OrderItem) → units p (xs ++ ys) ≡ units p xs + units p ys
units-append p [] ys = omega arith
units-append p (x ∷ xs) ys = omega (arith, units-append p xs ys)

pub held-append : (p : ℕ) (xs ys : List OrderEntry) → held p (xs ++ ys) ≡ held p xs + held p ys
held-append p [] ys = omega arith
held-append p (x ∷ xs) ys = omega (arith, held-append p xs ys)

-- Replacing the row that is found changes what is held by the difference.
pub held-update_order :
    (p id : ℕ) (f : OrderEntry → OrderEntry) (os : List OrderEntry) (o : OrderEntry)
    → find_order id os ≡ some o
    → held p (update_order id f os) + held_by p o ≡ held p os + held_by p (f o)
unfolding find_order update_order
held-update_order p id f [] o h = cc
held-update_order p id f (x ∷ os) o h = elim (Bool-cases (x.row.id == id)) [
  | inl same ↦ ground arith
  | inr other ↦ ground (arith, held-update_order p id f os o)
]
