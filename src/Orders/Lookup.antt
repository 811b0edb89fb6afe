-- ===== src/Orders/Lookup.antt =====
-- What a lookup finds after an order is added or changed.
use stora_ecommerce.Prelude.{ℕ, ◌≡◌, refl, false, none, some, List, [], ◌∷◌, ◌++◌, arith, ◌==◌}
use stora_ecommerce.Schema.{OrderEntry}
use stora_ecommerce.Orders.Table.{find_order, update_order}

-- A new row is found under its id, if the id is new.
pub find_order-append :
    (id : ℕ) (os : List OrderEntry) (e : OrderEntry)
    → find_order id os ≡ none
    → e.row.id ≡ id
    → find_order id (os ++ e ∷ []) ≡ some e
unfolding find_order
find_order-append id [] e fresh same = ground arith
find_order-append id (o ∷ os) e fresh same = ground (arith, find_order-append id os e)

-- What was found still is.
pub find_order-append_kept :
    (id : ℕ) (os new : List OrderEntry) (o : OrderEntry)
    → find_order id os ≡ some o
    → find_order id (os ++ new) ≡ some o
unfolding find_order
find_order-append_kept id [] new o h = cc
find_order-append_kept id (x ∷ os) new o h = ground (arith, find_order-append_kept id os new o)

pub find_order-update_order :
    (id : ℕ) (f : OrderEntry → OrderEntry) (os : List OrderEntry) (o : OrderEntry)
    → ((o : OrderEntry) → (f o).row.id ≡ o.row.id)
    → find_order id os ≡ some o
    → find_order id (update_order id f os) ≡ some (f o)
unfolding find_order update_order
find_order-update_order id f [] o same h = cc
find_order-update_order id f (x ∷ os) o same h =
    ground (arith, same x, find_order-update_order id f os o same)

pub find_order-update_order_other :
    (j id : ℕ) (f : OrderEntry → OrderEntry) (os : List OrderEntry)
    → ((o : OrderEntry) → (f o).row.id ≡ o.row.id)
    → (j == id) ≡ false
    → find_order j (update_order id f os) ≡ find_order j os
unfolding find_order update_order
find_order-update_order_other j id f [] same h = refl
find_order-update_order_other j id f (x ∷ os) same h =
    ground (arith, same x, find_order-update_order_other j id f os same h)
