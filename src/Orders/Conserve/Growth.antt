-- ===== src/Orders/Conserve/Growth.antt =====
-- Steps on a single order of the checkout transaction.
use stora_ecommerce.Prelude.{
  ℕ, ◌+◌, ◌≡◌, refl, sym, ap, ◌∙◌, true, false, some, List, [], ◌∷◌, arith, ◌==◌, Bool-cases, inl,
  inr,
}
use mathlib.Core.Path.{subst}
use stora_ecommerce.Schema.{OrderItem, OrderEntry, Db}
use stora_ecommerce.Effect.Rely.{IsStep}
use stora_ecommerce.Orders.Table.{find_order, update_order}
use stora_ecommerce.Orders.Lookup.{find_order-update_order, find_order-update_order_other}
use stora_ecommerce.Orders.Stock.{
  level, on_hand, held, holds_stock, units, IsListed, held-update_order,
}
use stora_ecommerce.Orders.Conserve.Table.{Exists, items_at, items_in}

-- The order is there, in a status that holds its stock.
abbrev pub Own : ℕ → Db → Type 0
Own id db =
    (o : OrderEntry) × ((find_order id db.orders ≡ some o) × (holds_stock o.row.status ≡ true))

-- A step that only lets one order grow, and takes for it what it adds.
pub record Grows (p id : ℕ) (a b : Db) : Type 0 where
  pub listed : IsListed p a → IsListed p b
  pub same_level : IsListed p a → level p b ≡ level p a
  pub others : (j : ℕ) → (j == id) ≡ false → items_at j b ≡ items_at j a
  pub exists : (j : ℕ) → Exists j a → Exists j b
  pub payments : b.payments ≡ a.payments

pub Grows-IsStep : (p id : ℕ) → IsStep (Grows p id)
Grows-IsStep p id = record {
  stay = λ a. record {
    listed = λ h. h;
    same_level = λ h. refl;
    others = λ j h. refl;
    exists = λ j h. h;
    payments = refl;
  };
  join = λ a b c f g. record {
    listed = λ h. g.listed (f.listed h);
    same_level = λ h. g.same_level (f.listed h) ∙ f.same_level h;
    others = λ j h. g.others j h ∙ f.others j h;
    exists = λ j h. g.exists j (f.exists j h);
    payments = g.payments ∙ f.payments;
  };
}

-- A change of the order's own entry.
module _ (id : ℕ) (f : OrderEntry → OrderEntry) (keeps : (o : OrderEntry) → (f o).row ≡ o.row) where
  same_id_of : (o : OrderEntry) → (f o).row.id ≡ o.row.id
  same_id_of o = ap (λ r. r.id) (keeps o)

  exists-update_order :
      (j : ℕ) (os : List OrderEntry) (xs : List OrderItem)
      → items_in (find_order j os) ≡ some xs
      → (ys : List OrderItem) × (items_in (find_order j (update_order id f os)) ≡ some ys)
  unfolding find_order update_order
  exists-update_order j [] xs h = (xs, h)
  exists-update_order j (o ∷ os) xs h = elim (Bool-cases (o.row.id == id)) [
    | inl own ↦ elim (Bool-cases (o.row.id == j)) [
      | inl here ↦ ((f o).items, ground (arith, same_id_of o))
      | inr there ↦ (xs, ground (arith, same_id_of o))
    ]
    | inr other ↦ elim (Bool-cases (o.row.id == j)) [
      | inl here ↦ (o.items, ground arith)
      | inr there ↦
          let (ys, k) = exists-update_order j os xs (rw there at h) in (ys, ground (arith, k))
    ]
  ]

  pub edit-Grows :
      (p : ℕ) (a b : Db) (own : Own id a)
      → b.orders ≡ update_order id f a.orders
      → b.payments ≡ a.payments
      → (IsListed p a → IsListed p b)
      → (IsListed p a
          → on_hand (b.products p) + units p (f own.0).items
            ≡ on_hand (a.products p) + units p own.0.items)
      → Grows p id a b × Own id b
  edit-Grows p a b (o, (found, live)) orders payments listed moved = (
    record {
      listed = listed;
      same_level = λ l. omega (arith, moved l, ap (held p) orders, held_units);
      others = λ j other.
          ap (λ os. items_in (find_order j os)) orders
          ∙ ap items_in (find_order-update_order_other j id f a.orders same_id_of other);
      exists = λ j (xs, h).
          subst (λ os. (ys : List OrderItem) × (items_in (find_order j os) ≡ some ys)) (sym orders)
            (exists-update_order j a.orders xs h);
      payments = payments;
    },
    (
      f o,
      (
        ap (find_order id) orders ∙ find_order-update_order id f a.orders o same_id_of found,
        ap (λ r. holds_stock r.status) (keeps o) ∙ live,
      ),
    ),
  )
    where
      held_units :
          held p (update_order id f a.orders) + units p o.items
          ≡ held p a.orders + units p (f o).items
      held_units =
          let still : holds_stock (f o).row.status ≡ true =
            ap (λ r. holds_stock r.status) (keeps o) ∙ live in
          rw (live, still) at (held-update_order p id f a.orders o found)
