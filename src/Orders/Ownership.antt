-- ===== src/Orders/Ownership.antt =====
-- The ownership check of `GetByID` and `Cancel` (internal/orders/service.go).
use stora_ecommerce.Prelude.{
  ℕ, ⊤, ◌≡◌, refl, sym, Bool, true, false, not, Option, none, some, List, if◌then◌else◌,
}
use mathlib.Core.Bool.{false≢true}
use stora_ecommerce.Schema.{OrderEntry, Db, pending_payment, paid}
use stora_ecommerce.Effect.{
  Env, World, Result, ok, err, M, Message, pure, ◌>>=◌, ◌>>◌, raise_if, with_tx, rows_seen,
  orders_forbidden, not_cancellable,
}
use stora_ecommerce.Effect.Rely.{Ends}
use stora_ecommerce.Effect.Quiet.{Quiet, Still, Still-pure, Still-bind, Still-read}
use stora_ecommerce.Orders.Table.{find_order, status_eq}
use stora_ecommerce.Orders.Model.{ownership_ok}
use stora_ecommerce.Orders.Repository.{
  row_of, items_of, address_of, query_row, query_items, query_address, Loaded, get_by_id,
  items_for_restock,
}
use stora_ecommerce.Orders.Service.{
  Deps, respond, cancellable, refund_if, release, terminal_status, load_owned, reconcile_with,
  get_order, cancel,
}

-- Nobody of these two owns the order under the id, if there is one.
abbrev StrangerTo : Option ℕ → Option ℕ → Option OrderEntry → Type 0
StrangerTo user guest none = ⊤
StrangerTo user guest (some o) = ownership_ok o.row user guest ≡ false

abbrev pub IsStranger : Option ℕ → Option ℕ → ℕ → Db → Type 0
IsStranger user guest id db = StrangerTo user guest (find_order id db.orders)

module _ (env : Env) (quiet : Quiet env) (db : Db) (out : List Message) (user guest : Option ℕ)
    (id : ℕ) (stranger : IsStranger user guest id db) where
  query_row-Still : Still env db out (λ row. ownership_ok row user guest ≡ false) (query_row id)
  unfolding query_row
  query_row-Still =
      Still-read env quiet db out (λ row. ownership_ok row user guest ≡ false)
        (λ env t db. row_of (find_order id db.orders)) (λ t. go (find_order id db.orders) stranger)
    where
      go :
          (o : Option OrderEntry)
          → StrangerTo user guest o
          → Ends (λ row _. ownership_ok row user guest ≡ false) (row_of o) db
      go none h = tt
      go (some o) h = h

  query_items-Still : Still env db out (λ _. ⊤) (query_items id)
  unfolding query_items
  query_items-Still =
      Still-read env quiet db out (λ _. ⊤)
        (λ env t db. ok (rows_seen (env.cut t) (items_of (find_order id db.orders)))) (λ t. tt)

  query_address-Still : Still env db out (λ _. ⊤) (query_address id)
  unfolding query_address
  query_address-Still =
      Still-read env quiet db out (λ _. ⊤) (λ env t db. address_of (find_order id db.orders))
        (λ t. go (address_of (find_order id db.orders)))
    where
      go : {A : Type 0} (r : Result A) → Ends (λ _ _. ⊤) r db
      go (ok a) = tt
      go (err e) = tt

  get_by_id-Still : Still env db out (λ l. ownership_ok l.row user guest ≡ false) (get_by_id id)
  unfolding get_by_id
  get_by_id-Still =
      Still-bind env quiet db out (λ row. ownership_ok row user guest ≡ false) (query_row id) _
        query_row-Still
        λ row own.
          Still-bind env quiet db out (λ _. ⊤) (query_items id) _ query_items-Still
            λ items _.
              Still-bind env quiet db out (λ _. ⊤) (query_address id)
                (λ address. pure (record { row = row; items = items; address = address }))
                query_address-Still
                λ address _.
                  Still-pure env quiet db out (λ l. ownership_ok l.row user guest ≡ false)
                    (record { row = row; items = items; address = address }) own

  -- The check that follows the load refuses.
  refused :
      {A : Type 0} (b : Bool) (k : M A)
      → b ≡ false
      → Still env db out (λ _. ⊥) (raise_if (not b) orders_forbidden >>= λ _. k)
  refused false k h = record { run = λ w d o. (d, (o, tt)) }
  refused true k h = absurd (false≢true (sym h))

  load_refused :
      {A : Type 0} (k : Loaded → M A)
      → Still env db out
          (λ _. ⊥)
          (get_by_id id >>= λ l.
            raise_if (not (ownership_ok l.row user guest)) orders_forbidden >>= λ _. k l)
  load_refused k =
      Still-bind env quiet db out (λ l. ownership_ok l.row user guest ≡ false) (get_by_id id) _
        get_by_id-Still (λ l own. refused (ownership_ok l.row user guest) (k l) own)

  cancel-Still : (deps : Deps) → Still env db out (λ _. ⊥) (cancel deps user guest id)
  unfolding cancel
  cancel-Still deps = load_refused (λ l.
      raise_if (not (cancellable l.row.status)) not_cancellable
      >> (refund_if (status_eq l.row.status paid) deps.refunder id
          >> (items_for_restock id >>= λ items.
              with_tx (
                release id l.row.status (terminal_status (status_eq l.row.status paid))
                  not_cancellable items)
              >> get_order deps user guest id)))

  load_owned-Still : Still env db out (λ _. ⊥) (load_owned user guest id)
  unfolding load_owned
  load_owned-Still = load_refused respond

  get_order-Still : (deps : Deps) → Still env db out (λ _. ⊥) (get_order deps user guest id)
  unfolding get_order
  get_order-Still deps =
      Still-bind env quiet db out (λ _. ⊥) (load_owned user guest id)
        (λ resp.
          if status_eq resp.order.status pending_payment
          then reconcile_with deps.reconciler user guest id resp
          else pure resp)
        load_owned-Still (λ resp bad. absurd bad)

abbrev pub Denied : {A : Type 0} → M A → Env → World → Type 0
Denied m env w =
    ((m env w).1.db ≡ w.db) × (((m env w).1.outbox ≡ w.outbox) × Ends (λ _ _. ⊥) (m env w).0 w.db)

-- While no other request commits anything, who owns neither as a user nor as a guest the order
-- under an id gets an error for reading it and for cancelling it, and either leaves the tables and
-- the outside as they were.
pub stranger-Denied :
    (deps : Deps) (user guest : Option ℕ) (id : ℕ) (env : Env) (w : World)
    → Quiet env
    → IsStranger user guest id w.db
    → Denied (get_order deps user guest id) env w × Denied (cancel deps user guest id) env w
stranger-Denied deps user guest id env w quiet stranger = (
  (get_order-Still env quiet w.db w.outbox user guest id stranger deps).run w refl refl,
  (cancel-Still env quiet w.db w.outbox user guest id stranger deps).run w refl refl,
)
