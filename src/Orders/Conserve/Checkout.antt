-- ===== src/Orders/Conserve/Checkout.antt =====
-- Checkout (`checkout` of internal/orders/service.go) as a step on the stock.
use stora_ecommerce.Effect.{Env, World}
use stora_ecommerce.Effect.Rely.{Rely}
use stora_ecommerce.Prelude.{
  ℕ, ◌+◌, ◌*◌, ◌≡◌, refl, ⊤, Bool, true, false, not, ◌&&◌, Option, none, some, List, [], ◌∷◌,
  is_none, is_empty,
}
use stora_ecommerce.Schema.{Text, Bytes, OrderRow}
use stora_ecommerce.Effect.{
  Result, ok, err, M, pure, attempt, with_tx, validation, cart_empty, orders_no_owner,
  invalid_shipping,
}
use stora_ecommerce.Effect.Rely.{
  Ends-bind, Ends-weaken, Body, Body-bind, Body-silent, Triple-with_tx,
}
use stora_ecommerce.Effect.Silent.{
  Silent, Silent-pure, Silent-bind, Silent-stmt, silent_rules, Triple-Silent,
}
use stora_ecommerce.Crypto.{encrypt}
use stora_ecommerce.Crypto.Silent.{Silent-encrypt}
use stora_ecommerce.Cart.Repository.{CartItemDetail}
use stora_ecommerce.Cart.Service.{CartResponse, int64, get_cart}
use stora_ecommerce.Cart.Conserve.Statements.{guarded, raises, get_cart-Conserves}
use stora_ecommerce.Orders.Stock.{holds_stock}
use stora_ecommerce.Orders.Model.{CheckoutRequest, ShippingAddress, encrypt_address, decrypt_order}
use stora_ecommerce.Orders.Silent.{Silent-encrypt_address, Silent-decrypt_order}
use stora_ecommerce.Orders.Service.{Deps}
use stora_ecommerce.Orders.Checkout.{
  locked, tx_lock_product_for_update, lock_line, lock_lines, Locked, tx_create_order, place_items,
  tx_create_shipping_address, tx_delete_cart_items, new_row, place_rest, place_order, checkout_tx,
  verified_or, rate_or_invalid, builtin_rate, rate_with, resolve_shipping, checkout_normal,
  checkout, normalise,
}
use stora_ecommerce.Orders.Conserve.Table.{Conserves, Conserves-IsStep, Linked, Linked-Stable, Runs}
use stora_ecommerce.Orders.Conserve.Loads.{DepsConserve, Runs-bind, Runs-pure, Runs-attempt}
use stora_ecommerce.Orders.Conserve.Placing.{
  place_items-Body, tx_create_shipping_address-Body, tx_delete_cart_items-Body,
}
use stora_ecommerce.Orders.Conserve.Growth.{Own, Grows, Grows-IsStep}
use stora_ecommerce.Orders.Conserve.NewOrder.{Began, tx_create_order-Began, Began-Conserves}

module _ (p : ℕ) where
  place_rest-Body :
      (row : OrderRow) (l : Locked) (address : ShippingAddress) (cart : ℕ)
      → Body (Grows p row.id) (Own row.id) (place_rest row l address cart) (λ _. Own row.id)
  unfolding place_rest
  place_rest-Body row l address cart =
      let s = Grows-IsStep p row.id in
      Body-bind s (λ _. Own row.id) (place_items row.id l.pending) _
        (place_items-Body p row.id l.pending)
        λ items.
          Body-bind s (λ _. Own row.id) (encrypt_address address) _
            (Body-silent s (encrypt_address address) (Silent-encrypt_address address).same)
            λ addr.
              Body-bind s (λ _. Own row.id) (tx_create_shipping_address row.id addr) _
                (tx_create_shipping_address-Body p row.id addr)
                λ _.
                  Body-bind s (λ _. Own row.id) (tx_delete_cart_items cart) _
                    (tx_delete_cart_items-Body p row.id cart)
                    λ _. Body-silent s (pure (record { row = row; items = items })) (λ env w. refl)

  place_order-Body :
      (row : OrderRow) (l : Locked) (address : ShippingAddress) (cart : ℕ)
      → holds_stock row.status ≡ true
      → Body (Conserves p) Linked (place_order row l address cart) (λ _. Linked)
  unfolding place_order
  place_order-Body row l address cart live = record {
    run = λ env w linked.
        Ends-bind (Began p w.db) (λ _ b. Conserves p w.db b × Linked b) (tx_create_order row)
          (λ row'. place_rest row' l address cart) env w (tx_create_order-Began p row env w live)
          (λ row' w' began.
            Ends-weaken (λ _ b. Grows p row'.id w'.db b × Own row'.id b)
              (λ _ b. Conserves p w.db b × Linked b) (place_rest row' l address cart env w').0
              (place_rest row' l address cart env w').1.db
              (λ _ g.
                let c =
                  Began-Conserves p row' w.db w'.db (place_rest row' l address cart env w').1.db
                    began g.0 in
                (c, c.linked linked))
              ((place_rest-Body row' l address cart).run env w' began.1.0));
  }

  Silent-tx_lock : (id : ℕ) → Silent (tx_lock_product_for_update id)
  unfolding tx_lock_product_for_update
  Silent-tx_lock id = Silent-stmt (λ env t db. locked id (db.products id))

  Silent-lock_line : (it : CartItemDetail) → Silent (lock_line it)
  unfolding lock_line
  Silent-lock_line it = search (silent_rules, Silent-tx_lock)

  Silent-lock_lines :
      (subtotal : ℕ) (items : List CartItemDetail) → Silent (lock_lines subtotal items)
  unfolding lock_lines
  Silent-lock_lines subtotal [] = Silent-pure (record { pending = []; subtotal = subtotal })
  Silent-lock_lines subtotal (it ∷ items) = Silent-bind (lock_line it) _ (Silent-lock_line it) λ x.
      Silent-bind (lock_lines (int64 (subtotal + int64 (x.unit_price * x.quantity))) items) _
        (Silent-lock_lines (int64 (subtotal + int64 (x.unit_price * x.quantity))) items)
        λ rest. Silent-pure _

  new_row-status :
      (user guest : Option ℕ) (req : CheckoutRequest) (subtotal shipping_cents : ℕ)
      (email phone : Bytes)
      → holds_stock (new_row user guest req subtotal shipping_cents email phone).status ≡ true
  unfolding new_row
  new_row-status user guest req subtotal shipping_cents email phone = refl

  checkout_tx-Body :
      (user guest : Option ℕ) (req : CheckoutRequest) (shipping_cents : ℕ) (view : CartResponse)
      → Body (Conserves p) Linked (checkout_tx user guest req shipping_cents view) (λ _. Linked)
  unfolding checkout_tx
  checkout_tx-Body user guest req shipping_cents view =
      let s = Conserves-IsStep p in
      Body-bind s (λ _. Linked) (lock_lines 0 view.items) _
        (Body-silent s (lock_lines 0 view.items) (Silent-lock_lines 0 view.items).same)
        λ l.
          Body-bind s (λ _. Linked) (encrypt req.email) _
            (Body-silent s (encrypt req.email) (Silent-encrypt req.email).same)
            λ email.
              Body-bind s (λ _. Linked) (encrypt req.phone) _
                (Body-silent s (encrypt req.phone) (Silent-encrypt req.phone).same)
                λ phone.
                  place_order-Body (new_row user guest req l.subtotal shipping_cents email phone) l
                    req.address view.id
                    (new_row-status user guest req l.subtotal shipping_cents email phone)

  verified_or-Runs : (override : Bool) (r : Result ⊤) → Runs p (verified_or override r)
  verified_or-Runs override (ok _) = Runs-pure p tt
  verified_or-Runs true (err e) = Runs-pure p tt
  verified_or-Runs false (err e) = raises p e

  rate_or_invalid-Runs : (o : Option ℕ) → Runs p (rate_or_invalid o)
  rate_or_invalid-Runs none = raises p invalid_shipping
  rate_or_invalid-Runs (some cents) = Runs-pure p cents

  rate_with-Runs :
      (rater : Option (Text → M (Option ℕ))) (code : Text)
      → ((f : Text → M (Option ℕ)) → rater ≡ some f → (code : Text) → Runs p (f code))
      → Runs p (rate_with rater code)
  rate_with-Runs none code h = rate_or_invalid-Runs (builtin_rate code)
  rate_with-Runs (some f) code h =
      Runs-bind p (f code) rate_or_invalid (h f refl code) rate_or_invalid-Runs

module _ (p : ℕ) (valid : CheckoutRequest → Bool) (verify_address : ShippingAddress → M ⊤)
    {deps : Deps} (injected : DepsConserve p deps)
    (verifies : (a : ShippingAddress) → Runs p (verify_address a)) where
  resolve_shipping-Runs : (code : Text) → Runs p (resolve_shipping deps code)
  unfolding resolve_shipping
  resolve_shipping-Runs code = rate_with-Runs p deps.rater code injected.rater

  checkout_normal-Runs :
      (user guest : Option ℕ) (req : CheckoutRequest)
      → Runs p (checkout_normal valid verify_address deps user guest req)
  unfolding checkout_normal
  checkout_normal-Runs user guest req = guarded p (not (valid req)) validation _ (
      Runs-bind p (attempt (verify_address req.address)) _
        (Runs-attempt p (verify_address req.address) (verifies req.address))
        λ verdict.
          Runs-bind p (verified_or req.address_override verdict) _
            (verified_or-Runs p req.address_override verdict)
            λ _.
              Runs-bind p (resolve_shipping deps req.shipping_method) _
                (resolve_shipping-Runs req.shipping_method)
                λ shipping_cents.
                  Runs-bind p (get_cart user guest) _ (get_cart-Conserves p user guest) λ view.
                    guarded p (is_empty view.items) cart_empty _ (
                      Runs-bind p (with_tx (checkout_tx user guest req shipping_cents view)) _
                        (Triple-with_tx (Conserves-IsStep p) (λ _. Linked)
                          (checkout_tx user guest req shipping_cents view) (Linked-Stable p)
                          (checkout_tx-Body p user guest req shipping_cents view))
                        λ placed.
                          Runs-bind p (decrypt_order placed.row) _
                            (Triple-Silent (Conserves-IsStep p) (decrypt_order placed.row)
                              (Silent-decrypt_order placed.row))
                            λ order. Runs-pure p (record {
                              order = order;
                              items = placed.items;
                              address = req.address;
                            })))

  pub checkout-Runs :
      (user guest : Option ℕ) (req : CheckoutRequest)
      → Runs p (checkout valid verify_address deps user guest req)
  unfolding checkout
  checkout-Runs user guest req =
      guarded p (is_none user && is_none guest) orders_no_owner _
        (checkout_normal-Runs user guest (normalise req))

  -- Checkout conserves the stock of every product: among concurrent requests that conserve it, with
  -- no result set broken off and every payment with its order, whatever it returns and whatever
  -- call fails, a listed product's units on hand and in live orders add up to what they were, no
  -- order loses an item and no payment its order, if the geocoder and the injected services
  -- conserve it.
  pub checkout-Conserves :
      (user guest : Option ℕ) (req : CheckoutRequest) (env : Env) (w : World)
      → Rely (Conserves p) env
      → Linked w.db
      → Conserves p w.db (checkout valid verify_address deps user guest req env w).1.db
  checkout-Conserves user guest req env w rely linked =
      ((checkout-Runs user guest req).run env w rely linked).0
