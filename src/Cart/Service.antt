-- ===== src/Cart/Service.antt =====
-- The cart service (internal/cart/service.go). Identifiers arrive parsed: `none` is a product id
-- that is no uuid. The validator's bounds on a quantity are 1 and 99.
use stora_ecommerce.Prelude.{
  true, ℕ, ◌+◌, ◌-◌, ◌*◌, ◌%◌, ◌^◌, ⊤, Bool, false, not, Option, none, some, List, [], ◌∷◌, ◌&&◌,
  ◌==◌, ltb, leb, is_empty, if◌then◌else◌,
}
use stora_ecommerce.Schema.{Product, Cart}
use stora_ecommerce.Effect.{
  Result, ok, err, M, pure, raise, ◌>>=◌, ◌>>◌, raise_if, attempt, query, send, cart_add_logged,
  validation, product_not_found, out_of_stock, cart_no_owner, invalid_strategy,
}
use stora_ecommerce.Cart.Repository.{
  by_user, CartItemDetail, by_guest, get_cart_by, get_or_create_by_user, get_or_create_by_guest,
  is_cart_not_found, add_item, update_item_quantity, remove_item, clear_items, delete_cart,
  get_items,
}

-- An `int64`, as its bit pattern, which `signed` reads: from 2 ^ 63 on the amount is negative.
abbrev pub int64 : ℕ → ℕ
int64 n = n % 2 ^ 64

pub record CartResponse : Type 0 where
  pub id : ℕ
  pub items : List CartItemDetail
  pub total : ℕ

-- `total += item.ProductPrice * int64(item.Quantity)`
unfoldable pub total_from : ℕ → List CartItemDetail → ℕ
total_from acc [] = acc
total_from acc (it ∷ items) =
    total_from (int64 (acc + int64 (it.product_price * it.quantity))) items

-- `toResponse`
unfoldable pub to_response : ℕ → List CartItemDetail → CartResponse
to_response cart items = record { id = cart; items = items; total = total_from 0 items }

unfoldable pub build_response : Cart → M CartResponse
build_response c = do items ← get_items c.id; pure (to_response c.id items)

unfoldable pub resolve_cart : Option ℕ → Option ℕ → M Cart
resolve_cart (some user) guest = get_or_create_by_user user
resolve_cart none (some guest) = get_or_create_by_guest guest
resolve_cart none none = raise cart_no_owner

unfoldable pub get_cart : Option ℕ → Option ℕ → M CartResponse
get_cart user guest = do c ← resolve_cart user guest; build_response c

-- `validate:"required,min=1,max=99"`
abbrev pub valid_quantity : ℕ → Bool
valid_quantity n = leb 1 n && leb n 99

abbrev pub or_product_not_found : Option Product → Result Product
or_product_not_found none = err product_not_found
or_product_not_found (some x) = ok x

unfoldable pub get_product : ℕ → M Product
get_product id = query (λ env t db. (or_product_not_found (db.products id), db))

-- The loop that checks the combined quantity: it stops at the first line of the product.
unfoldable pub over_stock : ℕ → ℕ → ℕ → List CartItemDetail → Bool
over_stock product n stock [] = false
over_stock product n stock (it ∷ items) =
    if it.product_id == product
    then ltb stock (it.quantity + n)
    else over_stock product n stock items

abbrev pub parse_id : Option ℕ → M ℕ
parse_id none = raise validation
parse_id (some id) = pure id

unfoldable pub add_to_cart : Option ℕ → Option ℕ → Option ℕ → ℕ → M CartResponse
add_to_cart user guest product_id n = do
  raise_if (not (valid_quantity n)) validation
  product ← parse_id product_id
  x ← get_product product
  raise_if (ltb x.stock_quantity n) out_of_stock
  c ← resolve_cart user guest
  items ← get_items c.id
  raise_if (over_stock product n x.stock_quantity items) out_of_stock
  add_item c.id product n
  attempt (send (cart_add_logged user guest product))
  build_response c

unfoldable pub update_cart_item : Option ℕ → Option ℕ → Option ℕ → ℕ → M CartResponse
update_cart_item user guest product_id n = do
  raise_if (not (valid_quantity n)) validation
  product ← parse_id product_id
  x ← get_product product
  raise_if (ltb x.stock_quantity n) out_of_stock
  c ← resolve_cart user guest
  update_item_quantity c.id product n
  build_response c

unfoldable pub remove_from_cart : Option ℕ → Option ℕ → Option ℕ → M CartResponse
remove_from_cart user guest product_id = do
  product ← parse_id product_id
  c ← resolve_cart user guest
  remove_item c.id product
  build_response c

unfoldable pub clear_cart : Option ℕ → Option ℕ → M ⊤
clear_cart user guest = do c ← resolve_cart user guest; clear_items c.id

-- The map `existingQty`: the last line of a product decides.
unfoldable pub existing_quantity : ℕ → ℕ → List CartItemDetail → ℕ
existing_quantity product found [] = found
existing_quantity product found (it ∷ items) =
    existing_quantity product (if it.product_id == product then it.quantity else found) items

-- How many of a guest line fit beside what the user has, up to the stock.
abbrev pub capped : ℕ → ℕ → ℕ → ℕ
capped stock have want = if ltb (stock - have) want then stock - have else want

abbrev pub transfer_line : ℕ → List CartItemDetail → CartItemDetail → M ⊤
transfer_line cart existing gi =
    let have = existing_quantity gi.product_id 0 existing in
    if leb gi.stock have
    then pure tt
    else add_item cart gi.product_id (capped gi.stock have gi.quantity)

unfoldable pub transfer_lines : ℕ → List CartItemDetail → List CartItemDetail → M ⊤
transfer_lines cart existing [] = pure tt
transfer_lines cart existing (gi ∷ items) =
    transfer_line cart existing gi >> transfer_lines cart existing items

unfoldable pub transfer_items : ℕ → ℕ → List CartItemDetail → M CartResponse
transfer_items user guest_cart guest_items = do
  c ← get_or_create_by_user user
  existing ← get_items c.id
  transfer_lines c.id existing guest_items
  delete_cart guest_cart
  build_response c

-- A cart and its items.
pub record Loaded : Type 0 where
  pub cart : Cart
  pub items : List CartItemDetail

abbrev pub with_items : Result Cart → M (Option Loaded)
with_items (ok c) = do items ← get_items c.id; pure (some (record { cart = c; items = items }))
with_items (err e) = if is_cart_not_found e then pure none else raise e

-- `loadCartAndItems`; a cart that does not exist is `none`.
unfoldable pub load_cart_and_items : (Cart → Bool) → M (Option Loaded)
load_cart_and_items test = do found ← attempt (get_cart_by test); with_items found

pub data Strategy : Type 0 where
  guest user unknown : Strategy

abbrev pub discard : Option Loaded → M ⊤
discard none = pure tt
discard (some l) = delete_cart l.cart.id

unfoldable pub keep_user : ℕ → Option Loaded → M CartResponse
keep_user user_id guest_cart = do
  discard guest_cart
  c ← get_or_create_by_user user_id
  build_response c

abbrev pub fold_guest : ℕ → Option Loaded → M CartResponse
fold_guest user_id none = keep_user user_id none
fold_guest user_id (some l) =
    if is_empty l.items
    then keep_user user_id (some l)
    else transfer_items user_id l.cart.id l.items

unfoldable pub merge : ℕ → ℕ → Strategy → M CartResponse
merge user_id guest_id Strategy.unknown = raise invalid_strategy
merge user_id guest_id Strategy.guest = do
  guest_cart ← load_cart_and_items (by_guest guest_id)
  fold_guest user_id guest_cart
merge user_id guest_id Strategy.user = do
  guest_cart ← load_cart_and_items (by_guest guest_id)
  keep_user user_id guest_cart

pub record MergeStatusResponse : Type 0 where
  pub conflict : Bool
  pub auto_merged : Bool
  pub guest_cart : Option CartResponse
  pub user_cart : Option CartResponse

abbrev pub no_conflict : MergeStatusResponse
no_conflict = record { conflict = false; auto_merged = false; guest_cart = none; user_cart = none }

-- `cart == nil || len(items) == 0`
abbrev pub if_filled : Option Loaded → Option Loaded
if_filled none = none
if_filled (some l) = if is_empty l.items then none else some l

abbrev pub compare_carts : ℕ → Loaded → Option Loaded → M MergeStatusResponse
compare_carts user_id g none = do
  merged ← transfer_items user_id g.cart.id g.items
  pure (record { conflict = false; auto_merged = true; guest_cart = none; user_cart = some merged })
compare_carts user_id g (some u) = pure (record {
  conflict = true;
  auto_merged = false;
  guest_cart = some (to_response g.cart.id g.items);
  user_cart = some (to_response u.cart.id u.items);
})

abbrev pub status_of_guest : ℕ → Option Loaded → M MergeStatusResponse
status_of_guest user_id none = pure no_conflict
status_of_guest user_id (some g) = do
  user_cart ← load_cart_and_items (by_user user_id)
  compare_carts user_id g (if_filled user_cart)

-- `MergeStatus`: it folds the guest's items into the user's cart where there is no choice to make.
unfoldable pub merge_status : ℕ → Option ℕ → M MergeStatusResponse
merge_status user_id none = pure no_conflict
merge_status user_id (some guest_id) = do
  guest_cart ← load_cart_and_items (by_guest guest_id)
  status_of_guest user_id (if_filled guest_cart)
