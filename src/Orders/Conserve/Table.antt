-- ===== src/Orders/Conserve/Table.antt =====
-- What one committed step may do to the stock of a product, and what the compare-and-set on the
-- status and the stock updates do to it.
use stora_ecommerce.Prelude.{
  ℕ, ◌+◌, ◌≡◌, refl, sym, ap, ◌∙◌, All, All-map, true, false, Option, none, some, List, [], ◌∷◌,
  arith, if◌then◌else◌, Bool-cases, Option-cases, inl, inr,
}
use mathlib.Core.Path.{subst}
use mathlib.Core.Bool.{false≢true}
use stora_ecommerce.Schema.{OrderStatus, OrderItem, OrderEntry, Db}
use stora_ecommerce.Effect.{M}
use stora_ecommerce.Effect.Rely.{IsStep, Stable, Triple}
use stora_ecommerce.Orders.Table.{
  find_order, update_order, set_status, transition, status_eq, status_eq→eq,
}
use stora_ecommerce.Orders.Stock.{
  level, on_hand, held, holds_stock, units, IsListed, held-update_order,
}

abbrev pub items_in : Option OrderEntry → Option (List OrderItem)
items_in none = none
items_in (some o) = some o.items

-- The items of an order, if there is one.
abbrev pub items_at : ℕ → Db → Option (List OrderItem)
items_at id db = items_in (find_order id db.orders)

abbrev pub HasItems : ℕ → List OrderItem → Db → Type 0
HasItems id items db = items_at id db ≡ some items

abbrev pub Exists : ℕ → Db → Type 0
Exists id db = (items : List OrderItem) × HasItems id items db

-- The foreign key of `payments`: every payment has its order.
abbrev pub Linked : Db → Type 0
Linked db = All (λ x. Exists x.order_id db) db.payments

abbrev Keeps : Db → Db → Type 0
Keeps a b =
    (id : ℕ) (items : List OrderItem) → items_at id a ≡ some items → items_at id b ≡ some items

-- A step keeps a listed product listed, keeps the units of it on hand and in live orders
-- together, keeps every order with its items, and keeps the payments' foreign key.
pub record Conserves (p : ℕ) (a b : Db) : Type 0 where
  pub listed : IsListed p a → IsListed p b
  pub same_level : IsListed p a → level p b ≡ level p a
  pub kept : Keeps a b
  pub linked : Linked a → Linked b

pub Conserves-IsStep : (p : ℕ) → IsStep (Conserves p)
Conserves-IsStep p = record {
  stay = λ a. record {
    listed = λ h. h;
    same_level = λ h. refl;
    kept = λ id items h. h;
    linked = λ h. h;
  };
  join = λ a b c f g. record {
    listed = λ h. g.listed (f.listed h);
    same_level = λ h. g.same_level (f.listed h) ∙ f.same_level h;
    kept = λ id items h. g.kept id items (f.kept id items h);
    linked = λ h. g.linked (f.linked h);
  };
}

pub Linked-Stable : (p : ℕ) → Stable (Conserves p) Linked
Linked-Stable p a b step h = step.linked h

-- What is known of an order whose items were read.
abbrev pub Has : ℕ → List OrderItem → Db → Type 0
Has id items db = HasItems id items db × Linked db

pub Has-Stable : (p id : ℕ) (items : List OrderItem) → Stable (Conserves p) (Has id items)
Has-Stable p id items a b step h = (step.kept id items h.0, step.linked h.1)

-- The order exists.
abbrev pub Known : ℕ → Db → Type 0
Known id db = (items : List OrderItem) × (Has id items db)

-- An action whose every effect is such a step, from any database that has its foreign keys.
abbrev pub Runs : {A : Type 0} → ℕ → M A → Type 0
Runs p m = Triple (Conserves p) Linked m (λ _. Linked)

pub Linked-kept : (a b : Db) → Keeps a b → b.payments ≡ a.payments → Linked a → Linked b
Linked-kept a b kept same h =
    subst (All (λ x. Exists x.order_id b)) (sym same)
      (All-map a.payments (λ x k. (k.0, kept x.order_id k.0 k.1)) h)

items_in-update_order :
    (j id : ℕ) (f : OrderEntry → OrderEntry) (os : List OrderEntry)
    → ((o : OrderEntry) → (f o).items ≡ o.items)
    → ((o : OrderEntry) → (f o).row.id ≡ o.row.id)
    → items_in (find_order j (update_order id f os)) ≡ items_in (find_order j os)
unfolding find_order update_order
items_in-update_order j id f [] hi hr = refl
items_in-update_order j id f (o ∷ os) hi hr =
    ground (arith, hi o, hr o, items_in-update_order j id f os hi hr)

-- The compare-and-set leaves every order its items.
pub items_at-transition :
    (j id : ℕ) (from to : OrderStatus) (now : ℕ) (db : Db)
    → items_at j (transition id from to now db).1 ≡ items_at j db
unfolding transition
items_at-transition j id from to now db = elim (Option-cases (find_order id db.orders)) [
  | inl none_found ↦ rw none_found refl
  | inr (o, found) ↦ elim (Bool-cases (status_eq o.row.status from)) [
    | inl same ↦
        rw (found, same)
          (items_in-update_order j id (set_status to now) db.orders (unfold set_status in λ o. refl)
            (unfold set_status in λ o. refl))
    | inr other ↦ rw (found, other) refl
  ]
]

pub products-transition :
    (id : ℕ) (from to : OrderStatus) (now : ℕ) (db : Db)
    → (transition id from to now db).1.products ≡ db.products
unfolding transition
products-transition id from to now db = ground arith

pub payments-transition :
    (id : ℕ) (from to : OrderStatus) (now : ℕ) (db : Db)
    → (transition id from to now db).1.payments ≡ db.payments
unfolding transition
payments-transition id from to now db = ground arith

-- The units that an order in a status holds.
abbrev pub held_in : ℕ → OrderStatus → List OrderItem → ℕ
held_in p status items = if holds_stock status then units p items else 0

held-moved :
    (p id : ℕ) (from to : OrderStatus) (now : ℕ) (items : List OrderItem) (os : List OrderEntry)
    (o : OrderEntry)
    → find_order id os ≡ some o
    → o.row.status ≡ from
    → o.items ≡ items
    → held p (update_order id (set_status to now) os) + held_in p from items
      ≡ held p os + held_in p to items
unfolding set_status
held-moved p id from to now items os o found st it =
    rw (← st, ← it) (held-update_order p id (set_status to now) os o found)

-- A compare-and-set that takes place moves the order's items from one status to the other.
pub held-transition :
    (p id : ℕ) (from to : OrderStatus) (now : ℕ) (items : List OrderItem) (db : Db)
    → HasItems id items db
    → (transition id from to now db).0 ≡ true
    → held p (transition id from to now db).1.orders + held_in p from items
      ≡ held p db.orders + held_in p to items
unfolding transition
held-transition p id from to now items db h moved = elim (Option-cases (find_order id db.orders)) [
  | inl none_found ↦ cc none_found
  | inr (o, found) ↦ elim (Bool-cases (status_eq o.row.status from)) [
    | inl same ↦
        rw (found, same)
          (held-moved p id from to now items db.orders o found (status_eq→eq o.row.status from same)
            (let e : some o.items ≡ some items = rw found at h in cc e))
    | inr other ↦ absurd (false≢true (rw (found, other) at moved))
  ]
]

pub stays-transition :
    (id : ℕ) (from to : OrderStatus) (now : ℕ) (db : Db)
    → (transition id from to now db).0 ≡ false
    → (transition id from to now db).1 ≡ db
unfolding transition
stays-transition id from to now db h = ground arith

-- What moved was there.
pub exists-transition :
    (id : ℕ) (from to : OrderStatus) (now : ℕ) (db : Db)
    → (transition id from to now db).0 ≡ true
    → (items : List OrderItem) × HasItems id items db
unfolding transition
exists-transition id from to now db moved = elim (Option-cases (find_order id db.orders)) [
  | inl none_found ↦ cc none_found
  | inr (o, found) ↦ (o.items, rw found refl)
]

-- A compare-and-set between two statuses that hold stock, or two that do not, conserves.
pub transition-Conserves :
    (p id : ℕ) (from to : OrderStatus) (now : ℕ) (db : Db)
    → holds_stock from ≡ holds_stock to
    → Conserves p db (transition id from to now db).1
transition-Conserves p id from to now db same =
    let stock = ap (λ f. f p) (products-transition id from to now db) in
    record {
      listed = λ l. rw stock l;
      same_level = λ l. elim (Bool-cases (transition id from to now db).0) [
        | inl moved ↦
            let (items, h) = exists-transition id from to now db moved in
            omega (
              arith,
              ap on_hand stock,
              rw same at (held-transition p id from to now items db h moved),
            )
        | inr stays ↦ rw (stays-transition id from to now db stays) refl
      ];
      kept = λ j xs k. items_at-transition j id from to now db ∙ k;
      linked =
          Linked-kept db (transition id from to now db).1
            (λ j xs k. items_at-transition j id from to now db ∙ k)
            (payments-transition id from to now db);
    }
