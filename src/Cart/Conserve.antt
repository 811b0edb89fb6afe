-- ===== src/Cart/Conserve.antt =====
-- The operations of the cart service (internal/cart/service.go) as steps on the stock.
pub mod Statements
use stora_ecommerce.Cart.Service.{
  to_response, no_conflict, if_filled, compare_carts, status_of_guest, merge_status,
}
use stora_ecommerce.Cart.Repository.{by_user}
use stora_ecommerce.Prelude.{
  ℕ, ◌≡◌, refl, ⊤, Bool, true, false, not, Option, none, some, List, [], ◌∷◌, ltb, leb, is_empty,
  if◌then◌else◌, Bool-cases, inl, inr,
}
use stora_ecommerce.Schema.{Product, Cart, CartItem, Db}
use stora_ecommerce.Effect.{
  Env, Err, Result, ok, err, M, Message, pure, raise, ◌>>=◌, ◌>>◌, raise_if, attempt, query, stmt,
  send, with_tx, rows_seen, validation, out_of_stock, cart_add_logged, cart_no_owner,
  invalid_strategy, item_not_found, infra,
}
use stora_ecommerce.Effect.Rely.{
  Ends, Ends-bind, Ends-stmt, Body, Triple, Triple-raise, Triple-read, Triple-query, Triple-with_tx,
  Triple-raise_if, Triple-send,
}
use stora_ecommerce.Orders.Conserve.Table.{Conserves, Conserves-IsStep, Linked, Linked-Stable, Runs}
use stora_ecommerce.Orders.Conserve.Loads.{Runs-bind, Runs-pure, Runs-attempt}
use stora_ecommerce.Cart.Repository.{
  CartItemDetail, by_user, by_guest, find_cart, or_cart_not_found, get_cart_by, insert_cart,
  create_cart, is_cart_not_found, or_create, get_or_create_by_user, get_or_create_by_guest, add_for,
  add_item, quantity_in, check_stock, set_line, update_item_quantity, remove_line, remove_item,
  clear_items, delete_items, delete_cart, cart_rows_without, details, get_items,
}
use stora_ecommerce.Cart.Service.{
  CartResponse, to_response, build_response, resolve_cart, get_cart, valid_quantity,
  or_product_not_found, get_product, over_stock, parse_id, add_to_cart, update_cart_item,
  remove_from_cart, clear_cart, existing_quantity, capped, transfer_line, transfer_lines,
  transfer_items, Loaded, with_items, load_cart_and_items, Strategy, discard, keep_user, fold_guest,
  merge,
}
use stora_ecommerce.Cart.Conserve.Statements.{
  guarded, raises, get_cart_by-Runs, get_items-Runs, get_product-Runs, get_or_create_by_user-Runs,
  resolve_cart-Runs, build_response-Runs, add_item-Runs, remove_item-Runs, clear_items-Runs,
  delete_cart-Runs, update_item_quantity-Runs,
}

module _ (p : ℕ) where
  parse_id-Runs : (o : Option ℕ) → Runs p (parse_id o)
  parse_id-Runs none = raises p validation
  parse_id-Runs (some id) = Runs-pure p id

  pub add_to_cart-Conserves :
      (user guest product_id : Option ℕ) (n : ℕ) → Runs p (add_to_cart user guest product_id n)
  unfolding add_to_cart
  add_to_cart-Conserves user guest product_id n = guarded p (not (valid_quantity n)) validation _ (
      Runs-bind p (parse_id product_id) _ (parse_id-Runs product_id) λ product.
        Runs-bind p (get_product product) _ (get_product-Runs p product) λ x.
          guarded p (ltb x.stock_quantity n) out_of_stock _ (
            Runs-bind p (resolve_cart user guest) _ (resolve_cart-Runs p user guest) λ c.
              Runs-bind p (get_items c.id) _ (get_items-Runs p c.id) λ items.
                guarded p (over_stock product n x.stock_quantity items) out_of_stock _ (
                  Runs-bind p (add_item c.id product n) _ (add_item-Runs p c.id product n) λ _.
                    Runs-bind p (attempt (send (cart_add_logged user guest product))) _
                      (Runs-attempt p _
                        (Triple-send (Conserves-IsStep p) (cart_add_logged user guest product)))
                      λ _. build_response-Runs p c)))

  pub update_cart_item-Conserves :
      (user guest product_id : Option ℕ) (n : ℕ) → Runs p (update_cart_item user guest product_id n)
  unfolding update_cart_item
  update_cart_item-Conserves user guest product_id n =
      guarded p (not (valid_quantity n)) validation _ (
        Runs-bind p (parse_id product_id) _ (parse_id-Runs product_id) λ product.
          Runs-bind p (get_product product) _ (get_product-Runs p product) λ x.
            guarded p (ltb x.stock_quantity n) out_of_stock _ (
              Runs-bind p (resolve_cart user guest) _ (resolve_cart-Runs p user guest) λ c.
                Runs-bind p (update_item_quantity c.id product n) _
                  (update_item_quantity-Runs p c.id product n) λ _. build_response-Runs p c))

  pub remove_from_cart-Conserves :
      (user guest product_id : Option ℕ) → Runs p (remove_from_cart user guest product_id)
  unfolding remove_from_cart
  remove_from_cart-Conserves user guest product_id =
      Runs-bind p (parse_id product_id) _ (parse_id-Runs product_id) λ product.
        Runs-bind p (resolve_cart user guest) _ (resolve_cart-Runs p user guest) λ c.
          Runs-bind p (remove_item c.id product) _ (remove_item-Runs p c.id product)
            λ _. build_response-Runs p c

  pub clear_cart-Conserves : (user guest : Option ℕ) → Runs p (clear_cart user guest)
  unfolding clear_cart
  clear_cart-Conserves user guest =
      Runs-bind p (resolve_cart user guest) _ (resolve_cart-Runs p user guest)
        λ c. clear_items-Runs p c.id

  transfer_line-Runs :
      (cart : ℕ) (existing : List CartItemDetail) (gi : CartItemDetail)
      → Runs p (transfer_line cart existing gi)
  transfer_line-Runs cart existing gi = go (leb gi.stock have)
    where
      have : ℕ
      have = existing_quantity gi.product_id 0 existing

      go :
          (b : Bool)
          → Runs p (
              if b then pure tt else add_item cart gi.product_id (capped gi.stock have gi.quantity))
      go true = Runs-pure p tt
      go false = add_item-Runs p cart gi.product_id (capped gi.stock have gi.quantity)

  transfer_lines-Runs :
      (cart : ℕ) (existing items : List CartItemDetail)
      → Runs p (transfer_lines cart existing items)
  unfolding transfer_lines
  transfer_lines-Runs cart existing [] = Runs-pure p tt
  transfer_lines-Runs cart existing (gi ∷ items) =
      Runs-bind p (transfer_line cart existing gi) _ (transfer_line-Runs cart existing gi)
        λ _. transfer_lines-Runs cart existing items

  transfer_items-Runs :
      (user guest_cart : ℕ) (items : List CartItemDetail)
      → Runs p (transfer_items user guest_cart items)
  unfolding transfer_items
  transfer_items-Runs user guest_cart items =
      Runs-bind p (get_or_create_by_user user) _ (get_or_create_by_user-Runs p user) λ c.
        Runs-bind p (get_items c.id) _ (get_items-Runs p c.id) λ existing.
          Runs-bind p (transfer_lines c.id existing items) _
            (transfer_lines-Runs c.id existing items)
            λ _.
              Runs-bind p (delete_cart guest_cart) _ (delete_cart-Runs p guest_cart)
                λ _. build_response-Runs p c

  with_items-Runs : (r : Result Cart) → Runs p (with_items r)
  with_items-Runs (ok c) =
      Runs-bind p (get_items c.id) _ (get_items-Runs p c.id) λ items. Runs-pure p _
  with_items-Runs (err e) = go (is_cart_not_found e)
    where
      go : (b : Bool) → Runs {A = Option Loaded} p (if b then pure none else raise e)
      go true = Runs-pure p none
      go false = raises p e

  load_cart_and_items-Runs : (test : Cart → Bool) → Runs p (load_cart_and_items test)
  unfolding load_cart_and_items
  load_cart_and_items-Runs test =
      Runs-bind p (attempt (get_cart_by test)) with_items
        (Runs-attempt p _ (get_cart_by-Runs p test)) with_items-Runs

  discard-Runs : (o : Option Loaded) → Runs p (discard o)
  discard-Runs none = Runs-pure p tt
  discard-Runs (some l) = delete_cart-Runs p l.cart.id

  keep_user-Runs : (user : ℕ) (o : Option Loaded) → Runs p (keep_user user o)
  unfolding keep_user
  keep_user-Runs user o = Runs-bind p (discard o) _ (discard-Runs o) λ _.
      Runs-bind p (get_or_create_by_user user) _ (get_or_create_by_user-Runs p user)
        λ c. build_response-Runs p c

  fold_guest-Runs : (user : ℕ) (o : Option Loaded) → Runs p (fold_guest user o)
  fold_guest-Runs user none = keep_user-Runs user none
  fold_guest-Runs user (some l) = go (is_empty l.items)
    where
      go :
          (b : Bool)
          → Runs p (if b then keep_user user (some l) else transfer_items user l.cart.id l.items)
      go true = keep_user-Runs user (some l)
      go false = transfer_items-Runs user l.cart.id l.items

  pub merge-Conserves : (user_id guest_id : ℕ) (s : Strategy) → Runs p (merge user_id guest_id s)
  unfolding merge
  merge-Conserves user_id guest_id Strategy.unknown = raises p invalid_strategy
  merge-Conserves user_id guest_id Strategy.guest =
      Runs-bind p (load_cart_and_items (by_guest guest_id)) _
        (load_cart_and_items-Runs (by_guest guest_id)) (fold_guest-Runs user_id)
  merge-Conserves user_id guest_id Strategy.user =
      Runs-bind p (load_cart_and_items (by_guest guest_id)) _
        (load_cart_and_items-Runs (by_guest guest_id)) (keep_user-Runs user_id)

  compare_carts-Runs :
      (user_id : ℕ) (g : Loaded) (o : Option Loaded) → Runs p (compare_carts user_id g o)
  compare_carts-Runs user_id g none =
      Runs-bind p (transfer_items user_id g.cart.id g.items) _
        (transfer_items-Runs user_id g.cart.id g.items)
        λ merged. Runs-pure p (record {
          conflict = false;
          auto_merged = true;
          guest_cart = none;
          user_cart = some merged;
        })
  compare_carts-Runs user_id g (some u) = Runs-pure p (record {
    conflict = true;
    auto_merged = false;
    guest_cart = some (to_response g.cart.id g.items);
    user_cart = some (to_response u.cart.id u.items);
  })

  status_of_guest-Runs : (user_id : ℕ) (o : Option Loaded) → Runs p (status_of_guest user_id o)
  status_of_guest-Runs user_id none = Runs-pure p no_conflict
  status_of_guest-Runs user_id (some g) =
      Runs-bind p (load_cart_and_items (by_user user_id))
        (λ o. compare_carts user_id g (if_filled o)) (load_cart_and_items-Runs (by_user user_id))
        (λ o. compare_carts-Runs user_id g (if_filled o))

  pub merge_status-Conserves :
      (user_id : ℕ) (guest_id : Option ℕ) → Runs p (merge_status user_id guest_id)
  unfolding merge_status
  merge_status-Conserves user_id none = Runs-pure p no_conflict
  merge_status-Conserves user_id (some guest_id) =
      Runs-bind p (load_cart_and_items (by_guest guest_id))
        (λ o. status_of_guest user_id (if_filled o)) (load_cart_and_items-Runs (by_guest guest_id))
        (λ o. status_of_guest-Runs user_id (if_filled o))
