-- ===== src/Orders/Conserve/Resurrected.antt =====
-- A status edit of a dead order (`AdminUpdateStatus` of internal/orders/admin.go) and the stock.
use stora_ecommerce.Prelude.{ℕ, ⊤, ◌+◌, ◌≡◌, refl, sym, ap, ◌∙◌, Bool, true, false, not, some, List}
use mathlib.Core.Path.{subst}
use stora_ecommerce.Schema.{OrderStatus, OrderItem, OrderEntry, OrderRow, AddressRow, Db, cancelled}
use stora_ecommerce.Effect.{
  Env, World, Result, ok, err, M, pure, ◌>>=◌, ◌>>◌, raise_if, query, rows_seen, invalid_status,
}
use stora_ecommerce.Effect.Rely.{Ends}
use stora_ecommerce.Effect.Quiet.{Quiet}
use stora_ecommerce.Effect.Hoare.{
  Holds, Keeps, Holds-pure, Holds-bind, Holds-raise_if, Holds-query, Holds-pre,
}
use stora_ecommerce.Orders.Table.{find_order, status_eq, transition, transition_status}
use stora_ecommerce.Orders.Stock.{holds_stock, level, units}
use stora_ecommerce.Orders.Model.{OrderResponse}
use stora_ecommerce.Orders.Repository.{
  row_of, items_of, address_of, query_row, query_items, query_address, Loaded, get_by_id,
}
use stora_ecommerce.Orders.Service.{respond, load_by_id}
use stora_ecommerce.Orders.Silent.{Silent-respond}
use stora_ecommerce.Orders.Admin.{settable, advance, set_from, admin_update_status}
use stora_ecommerce.Orders.Conserve.Table.{items_in}
use stora_ecommerce.Orders.Conserve.Admin.{transition_resurrects}

module _ (env : Env) (quiet : Quiet env) where
  keeps_any : (P : Db → Type 0) → Keeps env P
  keeps_any P = record { keep = λ t db p. subst P (sym (quiet.alone t db)) p }

  still : {A : Type 0} (P : Db → Type 0) (r : Result A) (db : Db) → P db → Ends (λ _. P) r db
  still P (ok a) db p = p
  still P (err e) db p = tt

  -- A read keeps what holds.
  Holds-look :
      {A : Type 0} (P : Db → Type 0) (f : Env → ℕ → Db → Result A)
      → Holds env P (query (λ env t db. (f env t db, db))) (λ _. P)
  Holds-look P f =
      Holds-query env (λ _. P) (λ env t db. (f env t db, db)) (keeps_any P)
        (λ t db p. still P (f env t db) db p)

  -- The order that `GetByID` returns, from what its first query reads.
  Holds-get_by_id :
      (id : ℕ) (P : Db → Type 0) (Q : OrderRow → Type 0)
      → ((db : Db) → P db → Ends (λ row _. Q row) (row_of (find_order id db.orders)) db)
      → Holds env P (get_by_id id) (λ l db. P db × Q l.row)
  unfolding get_by_id query_row query_items query_address
  Holds-get_by_id id P Q read =
      Holds-bind env (λ row db. P db × Q row)
        (query (λ env t db. (row_of (find_order id db.orders), db))) parts
        (Holds-query env (λ row db. P db × Q row)
          (λ env t db. (row_of (find_order id db.orders), db)) (keeps_any P)
          (λ t db p. both (row_of (find_order id db.orders)) db p (read db p)))
        (λ row.
          Holds-bind env (λ _ db. P db × Q row)
            (query
              (λ env t db. (ok (rows_seen (env.cut t) (items_of (find_order id db.orders))), db)))
            (λ items. address >>= end row items)
            (Holds-look (λ db. P db × Q row)
              (λ env t db. ok (rows_seen (env.cut t) (items_of (find_order id db.orders)))))
            (λ items.
              Holds-bind env (λ _ db. P db × Q row) address (end row items)
                (Holds-look (λ db. P db × Q row) (λ env t db. address_of (find_order id db.orders)))
                (λ a.
                  Holds-pure env (λ l db. P db × Q l.row)
                    (record { row = row; items = items; address = a }) (λ db p. p))))
    where
      address : M AddressRow
      address = query (λ env t db. (address_of (find_order id db.orders), db))

      end : OrderRow → List OrderItem → AddressRow → M Loaded
      end row items a = pure (record { row = row; items = items; address = a })

      parts : OrderRow → M Loaded
      parts row =
          query (λ env t db. (ok (rows_seen (env.cut t) (items_of (find_order id db.orders))), db))
          >>= λ items. address >>= end row items

      both :
          (r : Result OrderRow) (db : Db)
          → P db
          → Ends (λ row _. Q row) r db
          → Ends (λ row db. P db × Q row) r db
      both (ok row) db p q = (p, q)
      both (err e) db p q = tt

  Holds-load_by_id : (id : ℕ) (P : Db → Type 0) → Holds env P (load_by_id id) (λ _. P)
  unfolding load_by_id
  Holds-load_by_id id P =
      Holds-bind env (λ _. P) (get_by_id id) respond
        (record {
          run = λ w p. fst_of (get_by_id id env w).0 (get_by_id id env w).1.db (
              (Holds-get_by_id id P (λ _. ⊤)
                  (λ db p. any (row_of (find_order id db.orders)) db)).run
                w p);
        })
        (λ l. record {
          run = λ w p.
              still P (respond l env w).0 (respond l env w).1.db
                (subst P (sym ((Silent-respond l).same env w)) p);
        })
    where
      fst_of : (r : Result Loaded) (db : Db) → Ends (λ l db. P db × ⊤) r db → Ends (λ _. P) r db
      fst_of (ok l) db h = h.0
      fst_of (err e) db h = tt

      any : (r : Result OrderRow) (db : Db) → Ends (λ _ _. ⊤) r db
      any (ok row) db = tt
      any (err e) db = tt

  undo_not : (b : Bool) → not b ≡ false → b ≡ true
  undo_not true h = refl
  undo_not false h = cc h

  module _ (p id : ℕ) (to : OrderStatus) (o : OrderEntry) (n : ℕ) (alive : holds_stock to ≡ true)
      (dead : holds_stock o.row.status ≡ false) where
    abbrev Before : Db → Type 0
    Before db = (find_order id db.orders ≡ some o) × (level p db ≡ n)

    abbrev After : Db → Type 0
    After db = level p db ≡ n + units p o.items

    advance-resurrects :
        (from : OrderStatus)
        → Holds env (λ db. Before db × (from ≡ o.row.status)) (advance id from to) (λ _. After)
    unfolding advance transition_status
    advance-resurrects from =
        Holds-bind env (λ moved db. moved ≡ true → After db) (transition_status id from to)
          (λ moved. raise_if (not moved) invalid_status >> load_by_id id)
          (Holds-query env (λ moved db. moved ≡ true → After db)
            (λ env t db. let (moved, db') = transition id from to (env.now t) db in (ok moved, db'))
            (keeps_any (λ db. Before db × (from ≡ o.row.status)))
            (λ t db pre moved.
              transition_resurrects p id from to (env.now t) o.items db
                (ap holds_stock pre.1 ∙ dead) alive (ap items_in pre.0.0) moved
              ∙ ap (λ l. l + units p o.items) pre.0.1))
          (λ moved.
            Holds-raise_if env (λ _. After) (not moved) invalid_status (load_by_id id)
              (λ took.
                Holds-pre env (load_by_id id) (λ db q. q (undo_not moved took))
                  (Holds-load_by_id id After)))

    set_from-resurrects :
        (from : OrderStatus)
        → status_eq to cancelled ≡ false
        → Holds env (λ db. Before db × (from ≡ o.row.status)) (set_from id from to) (λ _. After)
    set_from-resurrects from other = rw other (advance-resurrects from)

    Holds-admin_update_status :
        settable to ≡ true
        → status_eq to cancelled ≡ false
        → Holds env Before (admin_update_status id (some to)) (λ _. After)
    unfolding admin_update_status
    Holds-admin_update_status may other =
        Holds-raise_if env (λ _. After) (not (settable to)) invalid_status
          (get_by_id id >>= λ l. set_from id l.row.status to)
          (λ allowed.
            Holds-bind env (λ l db. Before db × (l.row.status ≡ o.row.status)) (get_by_id id)
              (λ l. set_from id l.row.status to)
              (Holds-get_by_id id Before (λ row. row.status ≡ o.row.status)
                (λ db b.
                  subst (λ x. Ends (λ row _. row.status ≡ o.row.status) (row_of x) db) (sym b.0)
                    refl))
              (λ l. set_from-resurrects l.row.status other))

-- While no other request commits anything, an edit by `AdminUpdateStatus` that succeeds on an order
-- whose stock was given back, to a status that holds stock, makes the units of the order appear from
-- nowhere: units on hand and in live orders grow by those of its items.
pub admin_update_status-resurrects :
    (p id : ℕ) (to : OrderStatus) (o : OrderEntry) (resp : OrderResponse) (env : Env) (w w' : World)
    → Quiet env
    → find_order id w.db.orders ≡ some o
    → holds_stock o.row.status ≡ false
    → holds_stock to ≡ true
    → settable to ≡ true
    → status_eq to cancelled ≡ false
    → admin_update_status id (some to) env w ≡ (ok resp, w')
    → level p w'.db ≡ level p w.db + units p o.items
admin_update_status-resurrects p id to o resp env w w' quiet found dead alive may other done =
    subst
      (λ (x : Result OrderResponse × World).
        Ends (λ _ db. level p db ≡ level p w.db + units p o.items) x.0 x.1.db)
      done
      ((Holds-admin_update_status env quiet p id to o (level p w.db) alive dead may other).run w
        (found, refl))
