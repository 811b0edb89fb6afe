-- ===== src/Orders/Conserve/Release.antt =====
-- Giving the stock of an order back: the loop, and the transaction around it.
use stora_ecommerce.Prelude.{
  ℕ, ◌+◌, ◌≡◌, refl, sym, ap, ◌∙◌, Bool, true, false, not, Option, none, some, List, [], ◌∷◌, arith,
}
use mathlib.Core.Path.{subst}
use stora_ecommerce.Schema.{OrderStatus, OrderItem, Db}
use stora_ecommerce.Effect.{Err, ok, Env, World, pure, ◌>>◌, raise_if}
use stora_ecommerce.Effect.Rely.{Ends, Ends-weaken, Ends-bind, Ends-stmt, Body}
use stora_ecommerce.Orders.Table.{find_order, transition, tx_transition_status}
use stora_ecommerce.Orders.Stock.{
  on_hand, held, holds_stock, units, item_units, IsListed, increment, restock, restock_item,
  tx_increment_stock,
}
use stora_ecommerce.Orders.Repository.{with_product}
use stora_ecommerce.Orders.Service.{release, release_if, restock_if}
use stora_ecommerce.Orders.Conserve.Table.{
  Linked, Has, Conserves, Conserves-IsStep, HasItems, items_at, items_in, held-transition,
  items_at-transition, products-transition, payments-transition, Linked-kept, stays-transition,
}

-- What a loop has done that gave `n` units of `p` back.
pub record Returned (p n : ℕ) (a b : Db) : Type 0 where
  pub orders : b.orders ≡ a.orders
  pub payments : b.payments ≡ a.payments
  pub listed : IsListed p a → IsListed p b
  pub more : IsListed p a → on_hand (b.products p) ≡ on_hand (a.products p) + n

increment-Returned :
    (p q n : ℕ) (db : Db)
    → Ends
        (λ _ b. Returned p (item_units p (some q) n) db b)
        (increment q n db).0
        (increment q n db).1
unfolding increment
increment-Returned p q n db = ground arith

restock_item-Returned :
    (p : ℕ) (product : Option ℕ) (n : ℕ) (env : Env) (w : World)
    → Ends
        (λ _ b. Returned p (item_units p product n) w.db b)
        (restock_item product n env w).0
        (restock_item product n env w).1.db
unfolding tx_increment_stock
restock_item-Returned p none n env w = record {
  orders = refl;
  payments = refl;
  listed = λ h. h;
  more = λ h. omega arith;
}
restock_item-Returned p (some q) n env w =
    Ends-stmt (λ _ b. Returned p (item_units p (some q) n) w.db b) (λ env t db. increment q n db)
      env w (increment-Returned p q n w.db)

join-Returned :
    (p m n : ℕ) (a b c : Db) → Returned p m a b → Returned p n b c → Returned p (m + n) a c
join-Returned p m n a b c f g = record {
  orders = g.orders ∙ f.orders;
  payments = g.payments ∙ f.payments;
  listed = λ h. g.listed (f.listed h);
  more = λ h. omega (arith, f.more h, g.more (f.listed h));
}

-- The loop gives back the units of every item, or fails.
pub restock-Returned :
    (p : ℕ) (items : List OrderItem) (env : Env) (w : World)
    → Ends
        (λ _ b. Returned p (units p items) w.db b)
        (restock items env w).0
        (restock items env w).1.db
unfolding restock
restock-Returned p [] env w = record {
  orders = refl;
  payments = refl;
  listed = λ h. h;
  more = λ h. omega arith;
}
restock-Returned p (it ∷ items) env w =
    let k = item_units p it.product_id it.quantity in
    Ends-bind (λ _ b. Returned p k w.db b) (λ _ b. Returned p (k + units p items) w.db b)
      (restock_item it.product_id it.quantity) (λ _. restock items) env w
      (restock_item-Returned p it.product_id it.quantity env w)
      (λ a w' q.
        Ends-weaken (λ _ b. Returned p (units p items) w'.db b)
          (λ _ b. Returned p (k + units p items) w.db b) (restock items env w').0
          (restock items env w').1.db
          (λ _ r. join-Returned p k (units p items) w.db w'.db (restock items env w').1.db q r)
          (restock-Returned p items env w'))

units-with_product : (p : ℕ) (items : List OrderItem) → units p (with_product items) ≡ units p items
units-with_product p [] = refl
units-with_product p (it ∷ items) = ground (arith, units-with_product p items)

-- What the compare-and-set and the loop do together, when the order was in a status that holds
-- stock and goes to one that does not.
released-Conserves :
    (p id : ℕ) (from to : OrderStatus) (now : ℕ) (items : List OrderItem) (a b : Db)
    → holds_stock from ≡ true
    → holds_stock to ≡ false
    → HasItems id items a
    → (transition id from to now a).0 ≡ true
    → Returned p (units p (with_product items)) (transition id from to now a).1 b
    → Conserves p a b
released-Conserves p id from to now items a b hf ht h moved back =
    let same = ap (λ f. f p) (products-transition id from to now a) in
    record {
      listed = λ l. back.listed (rw same l);
      same_level = λ l. omega (
        arith,
        back.more (rw same l),
        ap on_hand same,
        ap (held p) back.orders,
        units-with_product p items,
        rw (hf, ht) at (held-transition p id from to now items a h moved),
      );
      kept = kept;
      linked = Linked-kept a b kept (back.payments ∙ payments-transition id from to now a);
    }
  where
    kept : (j : ℕ) (xs : List OrderItem) → items_at j a ≡ some xs → items_at j b ≡ some xs
    kept j xs k =
        subst (λ os. items_in (find_order j os) ≡ some xs) (sym back.orders)
          (items_at-transition j id from to now a ∙ k)

-- The database that a compare-and-set began with, after its answer.
abbrev Moved : ℕ → OrderStatus → OrderStatus → ℕ → Db → Bool → Db → Type 0
Moved id from to now a moved c =
    ((transition id from to now a).0 ≡ moved) × ((transition id from to now a).1 ≡ c)

tx_transition_status-Moved :
    (id : ℕ) (from to : OrderStatus) (env : Env) (w : World)
    → Ends
        (Moved id from to (env.now w.tick) w.db)
        (tx_transition_status id from to env w).0
        (tx_transition_status id from to env w).1.db
unfolding tx_transition_status
tx_transition_status-Moved id from to env w =
    Ends-stmt (Moved id from to (env.now w.tick) w.db)
      (λ env t db. let (moved, db') = transition id from to (env.now t) db in (ok moved, db')) env w
      (refl, refl)

restock_after :
    (p id : ℕ) (from to : OrderStatus) (now : ℕ) (items : List OrderItem) (a : Db) (env : Env)
    (w : World)
    → holds_stock from ≡ true
    → holds_stock to ≡ false
    → Has id items a
    → Moved id from to now a true w.db
    → Ends
        (λ _ b. Conserves p a b × Linked b)
        (restock (with_product items) env w).0
        (restock (with_product items) env w).1.db
restock_after p id from to now items a env w hf ht h m =
    let end = (restock (with_product items) env w).1.db in
    Ends-weaken (λ _ b. Returned p (units p (with_product items)) w.db b)
      (λ _ b. Conserves p a b × Linked b) (restock (with_product items) env w).0 end
      (λ _ r. done end (subst (λ c. Returned p (units p (with_product items)) c end) (sym m.1) r))
      (restock-Returned p (with_product items) env w)
  where
    done :
        (b : Db)
        → Returned p (units p (with_product items)) (transition id from to now a).1 b
        → Conserves p a b × Linked b
    done b r =
        let c = released-Conserves p id from to now items a b hf ht h.0 m.0 r in (c, c.linked h.1)

-- The transaction that gives stock back conserves it.
pub release-Body :
    (p id : ℕ) (from to : OrderStatus) (lost : Err) (items : List OrderItem)
    → holds_stock from ≡ true
    → holds_stock to ≡ false
    → Body (Conserves p) (Has id items) (release id from to lost (with_product items)) (λ _. Linked)
unfolding release
release-Body p id from to lost items hf ht = record {
  run = λ env w h.
      Ends-bind (Moved id from to (env.now w.tick) w.db) (λ _ b. Conserves p w.db b × Linked b)
        (tx_transition_status id from to)
        (λ moved. raise_if (not moved) lost >> restock (with_product items)) env w
        (tx_transition_status-Moved id from to env w)
        (elim [
          | true ↦ λ w' m. restock_after p id from to (env.now w.tick) items w.db env w' hf ht h m
          | false ↦ λ w' m. tt
        ]);
}

pub release_if-Body :
    (p id : ℕ) (from to : OrderStatus) (items : List OrderItem)
    → holds_stock from ≡ true
    → holds_stock to ≡ false
    → Body (Conserves p) (Has id items) (release_if id from to (with_product items)) (λ _. Linked)
unfolding release_if
release_if-Body p id from to items hf ht = record {
  run = λ env w h.
      Ends-bind (Moved id from to (env.now w.tick) w.db) (λ _ b. Conserves p w.db b × Linked b)
        (tx_transition_status id from to) (λ moved. restock_if moved (with_product items)) env w
        (tx_transition_status-Moved id from to env w)
        (elim [
          | true ↦ λ w' m.
              Ends-bind (λ _ b. Conserves p w.db b × Linked b)
                (λ _ b. Conserves p w.db b × Linked b) (restock (with_product items))
                (λ _. pure true) env w'
                (restock_after p id from to (env.now w.tick) items w.db env w' hf ht h m)
                (λ a w'' c. c)
          | false ↦ λ w' m.
              subst (λ b. Conserves p w.db b × Linked b)
                (sym (stays-transition id from to (env.now w.tick) w.db m.0) ∙ m.1)
                ((Conserves-IsStep p).stay w.db, h.1)
        ]);
}
