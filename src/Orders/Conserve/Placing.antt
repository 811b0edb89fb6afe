-- ===== src/Orders/Conserve/Placing.antt =====
-- The statements of the checkout transaction that follow the row of the order.
use stora_ecommerce.Prelude.{
  ℕ, ◌+◌, ◌≡◌, refl, sym, ap, ◌∙◌, some, List, [], ◌∷◌, ◌++◌, arith, Bool-cases, inl, inr, is_none,
}
use mathlib.Core.Path.{subst}
use stora_ecommerce.Schema.{OrderItem, OrderEntry, AddressRow, Db}
use stora_ecommerce.Effect.{Env, World, Result, ok, pure, ◌>>=◌, ◌>>◌}
use stora_ecommerce.Effect.Rely.{
  Ends, Ends-bind, Ends-stmt, Ends-weaken, Body, Body-bind, Body-stmt, Body-silent,
}
use stora_ecommerce.Orders.Table.{find_order, update_order}
use stora_ecommerce.Orders.Stock.{
  on_hand, units, item_units, units-append, IsListed, decrement, tx_decrement_stock,
}
use stora_ecommerce.Orders.Checkout.{
  PendingItem, order_item, push_item, insert_item, tx_create_order_item, place_item, place_items,
  set_address, insert_address, tx_create_shipping_address, tx_delete_cart_items,
}
use stora_ecommerce.Cart.Repository.{delete_items}
use stora_ecommerce.Orders.Conserve.Growth.{Own, Grows, Grows-IsStep, edit-Grows}

-- What the decrement of a product takes.
abbrev Taken : ℕ → ℕ → Db → Db → Type 0
Taken p n a b =
    (b.orders ≡ a.orders)
    × ((b.payments ≡ a.payments)
        × ((IsListed p a → IsListed p b)
            × (IsListed p a → on_hand (b.products p) + n ≡ on_hand (a.products p))))

decrement-Taken :
    (p q n : ℕ) (db : Db)
    → Ends (λ _ b. Taken p (item_units p (some q) n) db b) (decrement q n db).0 (decrement q n db).1
unfolding decrement
decrement-Taken p q n db = ground arith

abbrev pushed : ℕ → OrderItem → Db → Db
pushed id it db = record db { orders = update_order id (push_item it) db.orders }

push_item-row : (it : OrderItem) (o : OrderEntry) → (push_item it o).row ≡ o.row
unfolding push_item
push_item-row it o = refl

push_item-items : (it : OrderItem) (o : OrderEntry) → (push_item it o).items ≡ o.items ++ it ∷ []
unfolding push_item
push_item-items it o = refl

units-push_item :
    (p : ℕ) (it : OrderItem) (o : OrderEntry)
    → units p (push_item it o).items ≡ units p o.items + item_units p it.product_id it.quantity
units-push_item p it o = rw (push_item-items it o, units-append p o.items (it ∷ [])) (omega arith)

-- The item and the decrement together.
placed-Grows :
    (p id : ℕ) (it : OrderItem) (a b : Db) (own : Own id a)
    → Taken p (item_units p it.product_id it.quantity) (pushed id it a) b
    → Grows p id a b × Own id b
placed-Grows p id it a b own (orders, (payments, (listed, taken))) =
    edit-Grows id (push_item it) (push_item-row it) p a b own orders payments listed
      (λ l. omega (arith, taken l, units-push_item p it own.0))

-- The item, once the order is found.
insert_item-pushed :
    (id : ℕ) (it : OrderItem) (db : Db)
    → Own id db
    → insert_item (find_order id db.orders) id it db ≡ (ok it, pushed id it db)
insert_item-pushed id it db (o, (found, live)) = rw found refl

abbrev Pushed : ℕ → PendingItem → Env → ℕ → Db → OrderItem → Db → Type 0
Pushed id x env t a it b = (it ≡ order_item env t id x) × (b ≡ pushed id it a)

tx_create_order_item-Pushed :
    (id : ℕ) (x : PendingItem) (env : Env) (w : World)
    → Own id w.db
    → Ends
        (Pushed id x env w.tick w.db)
        (tx_create_order_item id x env w).0
        (tx_create_order_item id x env w).1.db
unfolding tx_create_order_item
tx_create_order_item-Pushed id x env w own =
    Ends-stmt (Pushed id x env w.tick w.db)
      (λ env t db. insert_item (find_order id db.orders) id (order_item env t id x) db) env w
      (subst (λ (r : Result OrderItem × Db). Ends (Pushed id x env w.tick w.db) r.0 r.1)
        (sym (insert_item-pushed id (order_item env w.tick id x) w.db own)) (refl, refl))

module _ (p id : ℕ) where
  tx_decrement_stock-Grows :
      (x : PendingItem) (env : Env) (t : ℕ) (a : Db) (w : World) (it : OrderItem)
      → Own id a
      → Pushed id x env t a it w.db
      → Ends
          (λ _ b. Grows p id a b × Own id b)
          (tx_decrement_stock x.product_id x.quantity env w).0
          (tx_decrement_stock x.product_id x.quantity env w).1.db
  unfolding tx_decrement_stock order_item
  tx_decrement_stock-Grows x env t a w it own (made, at_) =
      Ends-stmt (λ _ b. Grows p id a b × Own id b)
        (λ env t db. decrement x.product_id x.quantity db) env w
        (Ends-weaken (λ _ b. Taken p (item_units p (some x.product_id) x.quantity) w.db b)
          (λ _ b. Grows p id a b × Own id b) (decrement x.product_id x.quantity w.db).0
          (decrement x.product_id x.quantity w.db).1
          (λ _ taken.
            placed-Grows p id (order_item env t id x) a (decrement x.product_id x.quantity w.db).1
              own
              (subst
                (λ c.
                  Taken p (item_units p (some x.product_id) x.quantity) c
                    (decrement x.product_id x.quantity w.db).1)
                (at_ ∙ ap (λ i. pushed id i a) made) taken))
          (decrement-Taken p x.product_id x.quantity w.db))

  place_item-Body : (x : PendingItem) → Body (Grows p id) (Own id) (place_item id x) (λ _. Own id)
  unfolding place_item
  place_item-Body x = record {
    run = λ env w own.
        Ends-bind (Pushed id x env w.tick w.db) (λ _ b. Grows p id w.db b × Own id b)
          (tx_create_order_item id x) (λ it. tx_decrement_stock x.product_id x.quantity >> pure it)
          env w (tx_create_order_item-Pushed id x env w own)
          (λ it w' made.
            Ends-bind (λ _ b. Grows p id w.db b × Own id b) (λ _ b. Grows p id w.db b × Own id b)
              (tx_decrement_stock x.product_id x.quantity) (λ _. pure it) env w'
              (tx_decrement_stock-Grows x env w.tick w.db w' it own made) (λ _ w'' k. k));
  }

  pub place_items-Body :
      (xs : List PendingItem) → Body (Grows p id) (Own id) (place_items id xs) (λ _. Own id)
  unfolding place_items
  place_items-Body [] = Body-silent (Grows-IsStep p id) (pure []) (λ env w. refl)
  place_items-Body (x ∷ xs) =
      Body-bind (Grows-IsStep p id) (λ _. Own id) (place_item id x)
        (λ it. place_items id xs >>= λ items. pure (it ∷ items)) (place_item-Body x)
        (λ it.
          Body-bind (Grows-IsStep p id) (λ _. Own id) (place_items id xs)
            (λ items. pure (it ∷ items)) (place_items-Body xs)
            (λ items. Body-silent (Grows-IsStep p id) (pure (it ∷ items)) (λ env w. refl)))

  set_address-Grows :
      (x : AddressRow) (a : Db) (own : Own id a)
      → Grows p id a (record a { orders = update_order id (set_address x) a.orders })
        × Own id (record a { orders = update_order id (set_address x) a.orders })
  unfolding set_address
  set_address-Grows x a own =
      edit-Grows id (set_address x) (λ o. refl) p a
        (record a { orders = update_order id (set_address x) a.orders }) own refl refl (λ l. l)
        (λ l. refl)

  insert_address-Grows :
      (x : AddressRow) (a : Db) (own : Own id a)
      → let (r, b) = insert_address (find_order id a.orders) id x a in
        Ends (λ _ b. Grows p id a b × Own id b) r b
  insert_address-Grows x a (o, (found, live)) = elim (Bool-cases (is_none o.address)) [
    | inl new ↦ rw (found, new) (set_address-Grows x a (o, (found, live)))
    | inr old ↦ rw (found, old) tt
  ]

  pub tx_create_shipping_address-Body :
      (x : AddressRow) → Body (Grows p id) (Own id) (tx_create_shipping_address id x) (λ _. Own id)
  unfolding tx_create_shipping_address
  tx_create_shipping_address-Body x =
      Body-stmt (Grows-IsStep p id) (λ _. Own id)
        (λ env t db. insert_address (find_order id db.orders) id x db)
        (λ env t db own. insert_address-Grows x db own)

  pub tx_delete_cart_items-Body :
      (cart : ℕ) → Body (Grows p id) (Own id) (tx_delete_cart_items cart) (λ _. Own id)
  unfolding tx_delete_cart_items
  tx_delete_cart_items-Body cart =
      Body-stmt (Grows-IsStep p id) (λ _. Own id) (λ env t db. (ok tt, delete_items cart db))
        (λ env t db own. (
          record {
            listed = λ l. l;
            same_level = λ l. refl;
            others = λ j h. refl;
            exists = λ j h. h;
            payments = refl;
          },
          own,
        ))
