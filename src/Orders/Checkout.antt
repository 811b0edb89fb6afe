-- ===== src/Orders/Checkout.antt =====
-- Checkout (internal/orders/service.go, `resolveShipping` to `checkout`, with the statements that
-- it runs in internal/orders/repository.go). The validator and the geocoder are arguments.
pub mod Normal
use stora_ecommerce.Prelude.{
  ℕ, ◌+◌, ◌-◌, ◌*◌, ⊤, Bool, true, false, not, Option, none, some, List, [], ◌∷◌, ◌++◌, map, ◌&&◌,
  ◌||◌, ◌==◌, ltb, leb, is_none, is_empty, if◌then◌else◌,
}
use stora_ecommerce.Schema.{
  Text, Bytes, Product, coalesce, OrderItem, OrderRow, OrderEntry, AddressRow, Db, pending_payment,
}
use stora_ecommerce.Effect.{
  Env, Result, ok, err, M, pure, raise, ◌>>=◌, ◌>>◌, raise_if, attempt, stmt, with_tx,
  orders_no_owner, validation, invalid_shipping, cart_empty, stock_changed, infra,
}
use stora_ecommerce.Strings.{trim_space, to_upper, text_eq}
use stora_ecommerce.Crypto.{encrypt}
use stora_ecommerce.Cart.Repository.{CartItemDetail, delete_items}
use stora_ecommerce.Cart.Service.{CartResponse, int64, get_cart}
use stora_ecommerce.Orders.Table.{find_order, update_order}
use stora_ecommerce.Orders.Stock.{int4_max, tx_decrement_stock}
use stora_ecommerce.Orders.Model.{
  CheckoutRequest, OrderResponse, ShippingAddress, encrypt_address, decrypt_order,
}
use stora_ecommerce.Orders.Service.{Deps}

unfoldable pub normalise : CheckoutRequest → CheckoutRequest
unfolding trim_space to_upper
normalise req = record req {
  email = trim_space req.email;
  phone = trim_space req.phone;
  address = record req.address { country = to_upper (trim_space req.address.country) };
}

-- `shippingRates`, the fallback where no rater is injected.
abbrev pub standard : Text
standard = b's' ∷ b't' ∷ b'a' ∷ b'n' ∷ b'd' ∷ b'a' ∷ b'r' ∷ b'd' ∷ []

abbrev pub express : Text
express = b'e' ∷ b'x' ∷ b'p' ∷ b'r' ∷ b'e' ∷ b's' ∷ b's' ∷ []

abbrev pub builtin_rate : Text → Option ℕ
builtin_rate code =
    if text_eq code standard then some 500 else if text_eq code express then some 1500 else none

abbrev pub rate_or_invalid : Option ℕ → M ℕ
rate_or_invalid none = raise invalid_shipping
rate_or_invalid (some cents) = pure cents

abbrev pub rate_with : Option (Text → M (Option ℕ)) → Text → M ℕ
rate_with none code = rate_or_invalid (builtin_rate code)
rate_with (some rate) code = rate code >>= rate_or_invalid

unfoldable pub resolve_shipping : Deps → Text → M ℕ
resolve_shipping deps code = rate_with deps.rater code

-- `LockProductForUpdate`
pub record LockedProduct : Type 0 where
  pub id : ℕ
  pub name : Text
  pub price : ℕ
  pub stock : ℕ

abbrev pub locked : ℕ → Option Product → Result LockedProduct
locked id none = err infra
locked id (some x) = ok (record {
  id = id;
  name = x.name;
  price = coalesce x.sale_price x.price;
  stock = x.stock_quantity;
})

unfoldable pub tx_lock_product_for_update : ℕ → M LockedProduct
tx_lock_product_for_update id = stmt (λ env t db. (locked id (db.products id), db))

pub record PendingItem : Type 0 where
  pub product_id : ℕ
  pub name : Text
  pub unit_price : ℕ
  pub quantity : ℕ

-- One round of the loop that locks and re-verifies.
unfoldable pub lock_line : CartItemDetail → M PendingItem
lock_line it = do
  x ← tx_lock_product_for_update it.product_id
  raise_if (ltb x.stock it.quantity) stock_changed
  raise_if (not (x.price == it.product_price)) stock_changed
  pure (record { product_id = x.id; name = x.name; unit_price = x.price; quantity = it.quantity })

-- What the loop leaves: `pending` and `subtotal`.
pub record Locked : Type 0 where
  pub pending : List PendingItem
  pub subtotal : ℕ

unfoldable pub lock_lines : ℕ → List CartItemDetail → M Locked
lock_lines subtotal [] = pure (record { pending = []; subtotal = subtotal })
lock_lines subtotal (it ∷ items) = do
  p ← lock_line it
  rest ← lock_lines (int64 (subtotal + int64 (p.unit_price * p.quantity))) items
  pure (record { pending = p ∷ rest.pending; subtotal = rest.subtotal })

-- The three amounts are `int` columns with `CHECK (… >= 0)`: a pattern above `int4_max` is refused,
-- which a negative `int64` is too.
abbrev pub amounts_fit : OrderRow → Bool
amounts_fit row =
    leb row.subtotal_cents int4_max
    && leb row.shipping_cents int4_max
    && leb row.total_cents int4_max

abbrev pub insert_order : Option OrderEntry → OrderRow → Db → Result OrderRow × Db
insert_order (some other) row db = (err infra, db)
insert_order none row db =
    if amounts_fit row
    then (
      ok row,
      record db { orders = db.orders ++ (record { row = row; items = []; address = none }) ∷ [] },
    )
    else (err infra, db)

-- `CreateOrder`: the row comes back with its id, number and times.
unfoldable pub numbered : Env → ℕ → OrderRow → OrderRow
numbered env t row = record row {
  id = env.fresh_id t;
  order_number = env.order_number t;
  created_at = env.now t;
  updated_at = env.now t;
}

unfoldable pub tx_create_order : OrderRow → M OrderRow
tx_create_order row =
    stmt (λ env t db. insert_order (find_order (env.fresh_id t) db.orders) (numbered env t row) db)

unfoldable pub push_item : OrderItem → OrderEntry → OrderEntry
push_item it o = record o { items = o.items ++ it ∷ [] }

abbrev pub insert_item : Option OrderEntry → ℕ → OrderItem → Db → Result OrderItem × Db
insert_item none id it db = (err infra, db)
insert_item (some o) id it db =
    (ok it, record db { orders = update_order id (push_item it) db.orders })

-- `CreateOrderItem`
unfoldable pub order_item : Env → ℕ → ℕ → PendingItem → OrderItem
order_item env t order_id p = record {
  id = env.fresh_id t;
  order_id = order_id;
  product_id = some p.product_id;
  product_name = p.name;
  unit_price_cents = p.unit_price;
  quantity = p.quantity;
  created_at = env.now t;
}

unfoldable pub tx_create_order_item : ℕ → PendingItem → M OrderItem
tx_create_order_item order_id p = stmt (λ env t db.
    insert_item (find_order order_id db.orders) order_id (order_item env t order_id p) db)

-- The loop that writes each item and takes its stock.
unfoldable pub place_item : ℕ → PendingItem → M OrderItem
place_item order_id p = do
  it ← tx_create_order_item order_id p
  tx_decrement_stock p.product_id p.quantity
  pure it

unfoldable pub place_items : ℕ → List PendingItem → M (List OrderItem)
place_items order_id [] = pure []
place_items order_id (p ∷ pending) = do
  it ← place_item order_id p
  items ← place_items order_id pending
  pure (it ∷ items)

unfoldable pub set_address : AddressRow → OrderEntry → OrderEntry
set_address a o = record o { address = some a }

-- `CreateShippingAddress`: its order exists and has none yet.
abbrev pub insert_address : Option OrderEntry → ℕ → AddressRow → Db → Result ⊤ × Db
insert_address none id a db = (err infra, db)
insert_address (some o) id a db =
    if is_none o.address
    then (ok tt, record db { orders = update_order id (set_address a) db.orders })
    else (err infra, db)

unfoldable pub tx_create_shipping_address : ℕ → AddressRow → M ⊤
tx_create_shipping_address order_id a =
    stmt (λ env t db. insert_address (find_order order_id db.orders) order_id a db)

-- `DeleteCartItems`
unfoldable pub tx_delete_cart_items : ℕ → M ⊤
tx_delete_cart_items cart = stmt (λ env t db. (ok tt, delete_items cart db))

unfoldable pub new_row : Option ℕ → Option ℕ → CheckoutRequest → ℕ → ℕ → Bytes → Bytes → OrderRow
new_row user guest req subtotal shipping_cents email phone = record {
  id = 0;
  order_number = [];
  user_id = user;
  guest_session_id = guest;
  status = pending_payment;
  email_enc = email;
  phone_enc = phone;
  subtotal_cents = subtotal;
  shipping_cents = shipping_cents;
  total_cents = int64 (subtotal + shipping_cents);
  shipping_method = req.shipping_method;
  created_at = 0;
  updated_at = 0;
}

-- An order as the transaction made it.
pub record Placed : Type 0 where
  pub row : OrderRow
  pub items : List OrderItem

-- The transaction, from the row of the order on.
unfoldable pub place_rest : OrderRow → Locked → ShippingAddress → ℕ → M Placed
place_rest row l address cart = do
  items ← place_items row.id l.pending
  addr ← encrypt_address address
  tx_create_shipping_address row.id addr
  tx_delete_cart_items cart
  pure (record { row = row; items = items })

unfoldable pub place_order : OrderRow → Locked → ShippingAddress → ℕ → M Placed
place_order row l address cart = do row' ← tx_create_order row; place_rest row' l address cart

unfoldable pub checkout_tx : Option ℕ → Option ℕ → CheckoutRequest → ℕ → CartResponse → M Placed
checkout_tx user guest req shipping_cents view = do
  l ← lock_lines 0 view.items
  email ← encrypt req.email
  phone ← encrypt req.phone
  place_order (new_row user guest req l.subtotal shipping_cents email phone) l req.address view.id

-- A failed verification stops the checkout unless the customer overrides it.
abbrev pub verified_or : Bool → Result ⊤ → M ⊤
verified_or override (ok _) = pure tt
verified_or override (err e) = if override then pure tt else raise e

module _ (valid : CheckoutRequest → Bool) (verify_address : ShippingAddress → M ⊤) where
  -- `checkout`, of a request that is trimmed.
  unfoldable pub checkout_normal : Deps → Option ℕ → Option ℕ → CheckoutRequest → M OrderResponse
  checkout_normal deps user guest req = do
    raise_if (not (valid req)) validation
    verdict ← attempt (verify_address req.address)
    verified_or req.address_override verdict
    shipping_cents ← resolve_shipping deps req.shipping_method
    view ← get_cart user guest
    raise_if (is_empty view.items) cart_empty
    placed ← with_tx (checkout_tx user guest req shipping_cents view)
    order ← decrypt_order placed.row
    pure (record { order = order; items = placed.items; address = req.address })

  unfoldable pub checkout : Deps → Option ℕ → Option ℕ → CheckoutRequest → M OrderResponse
  checkout deps user guest req = do
    raise_if (is_none user && is_none guest) orders_no_owner
    checkout_normal deps user guest (normalise req)
