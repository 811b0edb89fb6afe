-- ===== src/Cart/Repository.antt =====
-- The `carts` and `cart_items` tables (internal/cart/repository.go).
use stora_ecommerce.Prelude.{
  ℕ, ◌+◌, ⊤, Bool, true, false, Option, none, some, List, [], ◌∷◌, ◌++◌, ◌&&◌, ◌==◌, ltb, leb,
  any_where, same_id, if◌then◌else◌,
}
use stora_ecommerce.Schema.{Text, Product, coalesce, Cart, CartItem, Db}
use stora_ecommerce.Orders.Stock.{int4_max}
use stora_ecommerce.Effect.{
  Result, ok, err, M, pure, raise, ◌>>=◌, ◌>>◌, attempt, query, stmt, with_tx, Err, rows_seen,
  cart_not_found, item_not_found, out_of_stock, infra,
}

-- `CartItemDetail`
pub record CartItemDetail : Type 0 where
  pub id : ℕ
  pub product_id : ℕ
  pub product_name : Text
  pub product_price : ℕ
  pub quantity : ℕ
  pub stock : ℕ

abbrev pub by_user : ℕ → Cart → Bool
by_user user c = same_id (some user) c.user_id

abbrev pub by_guest : ℕ → Cart → Bool
by_guest guest c = same_id (some guest) c.guest_session_id

unfoldable pub find_cart : (Cart → Bool) → List Cart → Option Cart
find_cart test [] = none
find_cart test (c ∷ cs) = if test c then some c else find_cart test cs

abbrev pub or_cart_not_found : Option Cart → Result Cart
or_cart_not_found none = err cart_not_found
or_cart_not_found (some c) = ok c

-- `GetByUser`, `GetByGuest`
unfoldable pub get_cart_by : (Cart → Bool) → M Cart
get_cart_by test = query (λ env t db. (or_cart_not_found (find_cart test db.carts), db))

-- The `INSERT` of a cart; the unique index on its owner refuses a second one.
abbrev pub insert_cart : Option Cart → Cart → Db → Result Cart × Db
insert_cart none c db = (ok c, record db { carts = db.carts ++ c ∷ [] })
insert_cart (some other) c db = (err infra, db)

unfoldable pub create_cart : (Cart → Bool) → Option ℕ → Option ℕ → M Cart
create_cart test user guest = query (λ env t db.
    insert_cart (find_cart test db.carts)
      (record { id = env.fresh_id t; user_id = user; guest_session_id = guest }) db)

abbrev pub is_cart_not_found : Err → Bool
is_cart_not_found cart_not_found = true
is_cart_not_found _ = false

abbrev pub or_create : (Cart → Bool) → Option ℕ → Option ℕ → Result Cart → M Cart
or_create test user guest (ok c) = pure c
or_create test user guest (err e) =
    if is_cart_not_found e then create_cart test user guest else raise e

-- `GetOrCreateByUser`, `GetOrCreateByGuest`: no row is no error.
unfoldable pub get_or_create_by_user : ℕ → M Cart
get_or_create_by_user user = do
  found ← attempt (get_cart_by (by_user user))
  or_create (by_user user) (some user) none found

unfoldable pub get_or_create_by_guest : ℕ → M Cart
get_or_create_by_guest guest = do
  found ← attempt (get_cart_by (by_guest guest))
  or_create (by_guest guest) none (some guest) found

abbrev pub is_line : ℕ → ℕ → CartItem → Bool
is_line cart product it = it.cart_id == cart && it.product_id == product

unfoldable pub quantity_in : ℕ → ℕ → List CartItem → Option ℕ
quantity_in cart product [] = none
quantity_in cart product (it ∷ items) =
    if is_line cart product it then some it.quantity else quantity_in cart product items

-- `ON CONFLICT (cart_id, product_id) DO UPDATE SET quantity = quantity + EXCLUDED.quantity`
unfoldable pub upsert : ℕ → ℕ → ℕ → ℕ → List CartItem → List CartItem
upsert id cart product n [] =
    record { id = id; cart_id = cart; product_id = product; quantity = n } ∷ []
upsert id cart product n (it ∷ items) =
    if is_line cart product it
    then record it { quantity = it.quantity + n } ∷ items
    else it ∷ upsert id cart product n items

-- `quantity INT CHECK (quantity > 0)`
abbrev pub fits_line : Option ℕ → ℕ → Bool
fits_line none n = leb 1 n && leb n int4_max
fits_line (some old) n = leb 1 (old + n) && leb (old + n) int4_max

-- `Repository.AddItem`; the cart and the product have to exist.
abbrev pub add_for : Option Product → ℕ → ℕ → ℕ → ℕ → Db → Result ⊤ × Db
add_for none id cart product n db = (err infra, db)
add_for (some x) id cart product n db =
    if any_where (λ (c : Cart). c.id == cart) db.carts
      && fits_line (quantity_in cart product db.cart_items) n
    then (ok tt, record db { cart_items = upsert id cart product n db.cart_items })
    else (err infra, db)

unfoldable pub add_item : ℕ → ℕ → ℕ → M ⊤
add_item cart product n =
    query (λ env t db. add_for (db.products product) (env.fresh_id t) cart product n db)

unfoldable pub set_quantity : ℕ → ℕ → ℕ → List CartItem → List CartItem
set_quantity cart product n [] = []
set_quantity cart product n (it ∷ items) =
    if is_line cart product it
    then record it { quantity = n } ∷ items
    else it ∷ set_quantity cart product n items

-- `UpdateItemQuantity`: the stock under `FOR UPDATE`, then the row.
abbrev pub check_stock : Option Product → ℕ → Result ⊤
check_stock none n = err item_not_found
check_stock (some x) n = if ltb x.stock_quantity n then err out_of_stock else ok tt

abbrev pub set_line : Option ℕ → ℕ → ℕ → ℕ → Db → Result ⊤ × Db
set_line none cart product n db = (err item_not_found, db)
set_line (some old) cart product n db =
    (ok tt, record db { cart_items = set_quantity cart product n db.cart_items })

unfoldable pub update_tx : ℕ → ℕ → ℕ → M ⊤
update_tx cart product n = do
  stmt (λ env t db. (check_stock (db.products product) n, db))
  stmt (λ env t db. set_line (quantity_in cart product db.cart_items) cart product n db)

unfoldable pub update_item_quantity : ℕ → ℕ → ℕ → M ⊤
update_item_quantity cart product n = with_tx (update_tx cart product n)

unfoldable pub without_line : ℕ → ℕ → List CartItem → List CartItem
without_line cart product [] = []
without_line cart product (it ∷ items) =
    let rest = without_line cart product items in
    if is_line cart product it then rest else it ∷ rest

abbrev pub remove_line : Option ℕ → ℕ → ℕ → Db → Result ⊤ × Db
remove_line none cart product db = (err item_not_found, db)
remove_line (some old) cart product db =
    (ok tt, record db { cart_items = without_line cart product db.cart_items })

unfoldable pub remove_item : ℕ → ℕ → M ⊤
remove_item cart product =
    query (λ env t db. remove_line (quantity_in cart product db.cart_items) cart product db)

unfoldable pub without_cart : ℕ → List CartItem → List CartItem
without_cart cart [] = []
without_cart cart (it ∷ items) =
    let rest = without_cart cart items in if it.cart_id == cart then rest else it ∷ rest

-- `DELETE FROM cart_items WHERE cart_id`, of `Repository.ClearCart` and of checkout.
abbrev pub delete_items : ℕ → Db → Db
delete_items cart db = record db { cart_items = without_cart cart db.cart_items }

unfoldable pub clear_items : ℕ → M ⊤
clear_items cart = query (λ env t db. (ok tt, delete_items cart db))

unfoldable pub cart_rows_without : ℕ → List Cart → List Cart
cart_rows_without cart [] = []
cart_rows_without cart (c ∷ cs) =
    let rest = cart_rows_without cart cs in if c.id == cart then rest else c ∷ rest

-- `DeleteCart`: the items go with the cart.
unfoldable pub delete_cart : ℕ → M ⊤
delete_cart cart =
    query (λ env t db.
      (ok tt, record (delete_items cart db) { carts = cart_rows_without cart db.carts }))

-- One row of the join with `products`.
abbrev pub detail : CartItem → Option Product → List CartItemDetail → List CartItemDetail
detail it none rest = rest
detail it (some x) rest =
    record {
      id = it.id;
      product_id = it.product_id;
      product_name = x.name;
      product_price = coalesce x.sale_price x.price;
      quantity = it.quantity;
      stock = x.stock_quantity;
    }
    ∷ rest

unfoldable pub details : ℕ → (ℕ → Option Product) → List CartItem → List CartItemDetail
details cart products [] = []
details cart products (it ∷ items) =
    let rest = details cart products items in
    if it.cart_id == cart then detail it (products it.product_id) rest else rest

-- `GetItems`; the loop does not ask `rows.Err()`.
unfoldable pub get_items : ℕ → M (List CartItemDetail)
get_items cart =
    query (λ env t db. (ok (rows_seen (env.cut t) (details cart db.products db.cart_items)), db))
