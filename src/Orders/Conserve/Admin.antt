-- ===== src/Orders/Conserve/Admin.antt =====
-- The status edits of internal/orders/admin.go as steps on the stock.
use stora_ecommerce.Prelude.{ℕ, ◌+◌, ◌≡◌, refl, ap, true, false, not, List, arith}
use stora_ecommerce.Schema.{OrderStatus, OrderItem, Db}
use stora_ecommerce.Schema.{pending_payment, cancelled}
use stora_ecommerce.Effect.{not_cancellable, invalid_status}
use stora_ecommerce.Effect.Rely.{Triple, Triple-raise_if}
use stora_ecommerce.Orders.Table.{transition, transition_status}
use stora_ecommerce.Orders.Stock.{holds_stock, level, units, on_hand}
use stora_ecommerce.Orders.Service.{load_by_id, release}
use stora_ecommerce.Orders.Admin.{cancel_unpaid, advance}
use stora_ecommerce.Orders.Conserve.Table.{
  Known, Linked, Runs, Conserves, Conserves-IsStep, HasItems, held-transition, products-transition,
}
use stora_ecommerce.Orders.Conserve.Release.{release-Body}
use stora_ecommerce.Orders.Conserve.Reads.{restock_then}
use stora_ecommerce.Orders.Conserve.Loads.{Runs-bind, Runs-load_by_id}
use stora_ecommerce.Orders.Conserve.Marks.{transition_status-Conserves}

module _ (p : ℕ) where
  pub cancel_unpaid-Conserves :
      (id : ℕ) → Triple (Conserves p) (Known id) (cancel_unpaid id) (λ _. Linked)
  unfolding cancel_unpaid
  cancel_unpaid-Conserves id =
      restock_then p id (release id pending_payment cancelled not_cancellable) (λ _. load_by_id id)
        (λ items. release-Body p id pending_payment cancelled not_cancellable items refl refl)
        (λ _. Runs-load_by_id p id)

  pub advance-Conserves :
      (id : ℕ) (from to : OrderStatus)
      → holds_stock from ≡ holds_stock to
      → Runs p (advance id from to)
  unfolding advance
  advance-Conserves id from to same =
      Runs-bind p (transition_status id from to) _ (transition_status-Conserves p id from to same)
        λ moved.
          Triple-raise_if (Conserves-IsStep p) (λ _. Linked) (not moved) invalid_status
            (load_by_id id) λ m. Runs-load_by_id p id

-- From a status whose stock was given back to one that holds stock, a compare-and-set that takes
-- place makes the units of the order appear from nowhere.
pub transition_resurrects :
    (p id : ℕ) (from to : OrderStatus) (now : ℕ) (items : List OrderItem) (db : Db)
    → holds_stock from ≡ false
    → holds_stock to ≡ true
    → HasItems id items db
    → (transition id from to now db).0 ≡ true
    → level p (transition id from to now db).1 ≡ level p db + units p items
transition_resurrects p id from to now items db hf ht h moved = omega (
  arith,
  ap on_hand (ap (λ f. f p) (products-transition id from to now db)),
  rw (hf, ht) at (held-transition p id from to now items db h moved),
)
