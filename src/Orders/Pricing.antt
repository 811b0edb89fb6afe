-- ===== src/Orders/Pricing.antt =====
-- The loop of checkout that locks the products and adds up the subtotal.
use stora_ecommerce.Prelude.{
  ℕ, ◌+◌, ◌*◌, ◌≤◌, ◌≡◌, refl, sym, ap, ◌∙◌, ⊤, not, ◌==◌, ltb, Option, none, some, List, [], ◌∷◌,
  arith,
}
use mathlib.Core.Path.{subst}
use stora_ecommerce.Schema.{Product, Db}
use stora_ecommerce.Effect.{Env, World, pure, ◌>>=◌, ◌>>◌, raise_if, stock_changed}
use stora_ecommerce.Effect.Rely.{Ends, Ends-raise_if, Ends-bind, Ends-stmt}
use stora_ecommerce.Cart.Repository.{CartItemDetail}
use stora_ecommerce.Cart.Service.{int64, total_from}
use stora_ecommerce.Orders.Stock.{on_hand}
use stora_ecommerce.Orders.Checkout.{
  LockedProduct, locked, tx_lock_product_for_update, PendingItem, lock_line, Locked, lock_lines,
}

-- A pending item is the line of the cart, at the cart's price and within the stock.
pub record Matches (db : Db) (it : CartItemDetail) (x : PendingItem) : Type 0 where
  pub product : x.product_id ≡ it.product_id
  pub price : x.unit_price ≡ it.product_price
  pub quantity : x.quantity ≡ it.quantity
  pub stocked : it.quantity ≤ on_hand (db.products it.product_id)

abbrev pub AllMatch : Db → List CartItemDetail → List PendingItem → Type 0
AllMatch db [] [] = ⊤
AllMatch db (it ∷ items) (x ∷ xs) = Matches db it x × AllMatch db items xs
AllMatch db _ _ = ⊥

-- What the lock reads is the row.
abbrev Reads : Db → ℕ → LockedProduct → Db → Type 0
Reads a id x b = (b ≡ a) × ((x.id ≡ id) × (x.stock ≡ on_hand (a.products id)))

tx_lock-Reads :
    (id : ℕ) (env : Env) (w : World)
    → Ends
        (Reads w.db id)
        (tx_lock_product_for_update id env w).0
        (tx_lock_product_for_update id env w).1.db
unfolding tx_lock_product_for_update
tx_lock-Reads id env w =
    Ends-stmt (Reads w.db id) (λ env t db. (locked id (db.products id), db)) env w
      (go (w.db.products id) refl)
  where
    go : (o : Option Product) → w.db.products id ≡ o → Ends (Reads w.db id) (locked id o) w.db
    go none e = tt
    go (some x) e = (refl, (refl, ap on_hand (sym e)))

abbrev pending_of : CartItemDetail → LockedProduct → PendingItem
pending_of it x = record {
  product_id = x.id;
  name = x.name;
  unit_price = x.price;
  quantity = it.quantity;
}

lock_line-Matches :
    (it : CartItemDetail) (env : Env) (w : World)
    → Ends
        (λ x db. (db ≡ w.db) × Matches w.db it x)
        (lock_line it env w).0
        (lock_line it env w).1.db
unfolding lock_line
lock_line-Matches it env w =
    Ends-bind (Reads w.db it.product_id) (λ x db. (db ≡ w.db) × Matches w.db it x)
      (tx_lock_product_for_update it.product_id)
      (λ x.
        raise_if (ltb x.stock it.quantity) stock_changed
        >> (raise_if (not (x.price == it.product_price)) stock_changed >> pure (pending_of it x)))
      env w (tx_lock-Reads it.product_id env w)
      (λ x w' (same, (id, stock)).
        Ends-raise_if (λ x db. (db ≡ w.db) × Matches w.db it x) (ltb x.stock it.quantity)
          stock_changed
          (raise_if (not (x.price == it.product_price)) stock_changed >> pure (pending_of it x)) env
          w'
          λ enough.
            Ends-raise_if (λ x db. (db ≡ w.db) × Matches w.db it x)
              (not (x.price == it.product_price)) stock_changed (pure (pending_of it x)) env w'
              λ price. (
                same,
                record {
                  product = id;
                  price = ground (arith, price);
                  quantity = refl;
                  stocked = ground (arith, stock, enough);
                },
              ))

abbrev pub Charged : Db → ℕ → List CartItemDetail → Locked → Db → Type 0
Charged a subtotal items l b =
    (b ≡ a) × (AllMatch a items l.pending × (l.subtotal ≡ total_from subtotal items))

-- If the loop that locks the products of a cart ends without an error, it has changed no table,
-- what is pending is line by line the product, price and quantity that the cart showed, each
-- within the stock of that moment, and the subtotal is the total of the cart, in 64 bits.
pub lock_lines-Charged :
    (subtotal : ℕ) (items : List CartItemDetail) (env : Env) (w : World)
    → Ends
        (Charged w.db subtotal items)
        (lock_lines subtotal items env w).0
        (lock_lines subtotal items env w).1.db
unfolding lock_lines total_from
lock_lines-Charged subtotal [] env w = (refl, (tt, refl))
lock_lines-Charged subtotal (it ∷ items) env w =
    Ends-bind (λ x db. (db ≡ w.db) × Matches w.db it x) (Charged w.db subtotal (it ∷ items))
      (lock_line it)
      (λ x. lock_lines (int64 (subtotal + int64 (x.unit_price * x.quantity))) items >>= λ rest.
        pure (record { pending = x ∷ rest.pending; subtotal = rest.subtotal }))
      env w (lock_line-Matches it env w)
      (λ x w' (same, m).
        let next = int64 (subtotal + int64 (x.unit_price * x.quantity)) in
        Ends-bind (Charged w'.db next items) (Charged w.db subtotal (it ∷ items))
          (lock_lines next items)
          (λ rest. pure (record { pending = x ∷ rest.pending; subtotal = rest.subtotal })) env w'
          (lock_lines-Charged next items env w')
          (λ rest w'' (same', (all, sum)). (
            same' ∙ same,
            (
              (m, subst (λ a. AllMatch a items rest.pending) same all),
              sum
                  ∙ ap (λ n. total_from (int64 (subtotal + int64 n)) items)
                      (cc (m.price, m.quantity)),
            ),
          )))
