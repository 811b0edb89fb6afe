-- ===== src/Orders/Conserve/NewOrder.antt =====
-- The row of a new order (`CreateOrder`).
use stora_ecommerce.Prelude.{
  ℕ, ◌≡◌, refl, sym, ap, ◌∙◌, All, All-map, true, none, some, List, [], ◌∷◌, ◌++◌, arith, ◌==◌,
  Bool-cases, Option-cases, inl, inr,
}
use mathlib.Core.Path.{subst}
use stora_ecommerce.Schema.{OrderItem, OrderEntry, OrderRow, Db}
use stora_ecommerce.Effect.{Env, World}
use stora_ecommerce.Effect.Rely.{Ends, Ends-stmt}
use stora_ecommerce.Orders.Table.{find_order}
use stora_ecommerce.Orders.Lookup.{find_order-append, find_order-append_kept}
use stora_ecommerce.Orders.Stock.{held-append, holds_stock}
use stora_ecommerce.Orders.Checkout.{amounts_fit, insert_order, numbered, tx_create_order}
use stora_ecommerce.Orders.Conserve.Table.{Conserves, Exists, items_at, items_in}
use stora_ecommerce.Orders.Conserve.Growth.{Own, Grows}

-- A step that only adds a new order.
new_order-Conserves :
    (p id : ℕ) (e : OrderEntry) (a : Db)
    → find_order id a.orders ≡ none
    → e.row.id ≡ id
    → e.items ≡ []
    → Conserves p a (record a { orders = a.orders ++ e ∷ [] })
new_order-Conserves p id e a fresh same empty = record {
  listed = λ l. l;
  same_level = λ l. rw (held-append p a.orders (e ∷ []), empty) (ground arith);
  kept = kept;
  linked = λ l. All-map a.payments (λ x k. (k.0, kept x.order_id k.0 k.1)) l;
}
  where
    kept :
        (j : ℕ) (xs : List OrderItem)
        → items_at j a ≡ some xs
        → items_in (find_order j (a.orders ++ e ∷ [])) ≡ some xs
    kept j xs k = elim (Option-cases (find_order j a.orders)) [
      | inl nothing ↦ cc nothing
      | inr (o, found) ↦ rw (find_order-append_kept j a.orders (e ∷ []) o found) (rw found at k)
    ]

-- Whose order was not there before is there now.
abbrev pub Began : ℕ → Db → OrderRow → Db → Type 0
Began p a row b = Conserves p a b × (Own row.id b × (find_order row.id a.orders ≡ none))

insert_order-Began :
    (p : ℕ) (row : OrderRow) (a : Db)
    → holds_stock row.status ≡ true
    → Ends
        (Began p a)
        (insert_order (find_order row.id a.orders) row a).0
        (insert_order (find_order row.id a.orders) row a).1
insert_order-Began p row a live = elim (Option-cases (find_order row.id a.orders)) [
  | inr (o, found) ↦ rw found tt
  | inl fresh ↦ elim (Bool-cases (amounts_fit row)) [
    | inr large ↦ rw (fresh, large) tt
    | inl fit ↦
        let e : OrderEntry = record { row = row; items = []; address = none } in
        let began : Began p a row (record a { orders = a.orders ++ e ∷ [] }) = (
          new_order-Conserves p row.id e a fresh refl refl,
          ((e, (find_order-append row.id a.orders e fresh refl, live)), fresh),
        ) in
        rw (fresh, fit) began
  ]
]

pub tx_create_order-Began :
    (p : ℕ) (row : OrderRow) (env : Env) (w : World)
    → holds_stock row.status ≡ true
    → Ends (Began p w.db) (tx_create_order row env w).0 (tx_create_order row env w).1.db
unfolding tx_create_order numbered
tx_create_order-Began p row env w live =
    Ends-stmt (Began p w.db)
      (λ env t db. insert_order (find_order (env.fresh_id t) db.orders) (numbered env t row) db) env
      w (insert_order-Began p (numbered env w.tick row) w.db live)

-- What grows an order that was not there keeps all others.
pub Began-Conserves :
    (p : ℕ) (row : OrderRow) (a b c : Db) → Began p a row b → Grows p row.id b c → Conserves p a c
Began-Conserves p row a b c (first, (own, fresh)) g = record {
  listed = λ l. g.listed (first.listed l);
  same_level = λ l. g.same_level (first.listed l) ∙ first.same_level l;
  kept = λ j xs k. elim (Bool-cases (j == row.id)) [
    | inl same ↦
        let e : j ≡ row.id = ground arith in absurd (gone (subst (λ i. items_at i a ≡ some xs) e k))
    | inr other ↦ g.others j other ∙ first.kept j xs k
  ];
  linked = λ l.
      subst (All (λ x. Exists x.order_id c)) (sym g.payments)
        (All-map b.payments (λ x k. g.exists x.order_id k) (first.linked l));
}
  where
    gone : {xs : List OrderItem} → items_at row.id a ≡ some xs → ⊥
    gone {xs} k = cc (ap items_in fresh, k)
