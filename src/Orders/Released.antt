-- ===== src/Orders/Released.antt =====
-- The transaction that gives the stock of an order back, on each outcome of its compare-and-set.
use stora_ecommerce.Prelude.{
  ℕ, ◌+◌, ◌≤◌, ◌≡◌, refl, sym, ap, ◌∙◌, true, false, not, Option, none, some, List, [], ◌∷◌, arith,
}
use mathlib.Core.Path.{subst}
use stora_ecommerce.Schema.{OrderStatus, OrderItem, OrderEntry, Db}
use stora_ecommerce.Effect.{
  Env, World, Err, Result, ok, err, M, ◌>>◌, raise_if, stmt, query, run_tx, finish_tx, with_tx,
}
use stora_ecommerce.Effect.Rely.{bind-ok, Ends}
use stora_ecommerce.Effect.Quiet.{Quiet}
use stora_ecommerce.Orders.Table.{
  find_order, set_status, status_eq, status_eq_refl, transition, tx_transition_status,
}
use stora_ecommerce.Orders.Lookup.{find_order-update_order}
use stora_ecommerce.Orders.Stock.{
  on_hand, units, item_units, IsListed, int4_max, increment, tx_increment_stock, restock_item,
  restock,
}
use stora_ecommerce.Orders.Service.{release}
use stora_ecommerce.Orders.Conserve.Release.{Returned, restock-Returned}
use stora_ecommerce.Orders.Conserve.Table.{products-transition}

-- Nothing fails.
pub record Faultless (env : Env) : Type 0 where
  pub fine : (t : ℕ) → env.fault t ≡ false

-- The stock that comes back fits into its column.
abbrev pub Fits : List OrderItem → Db → Type 0
Fits items db = (q : ℕ) → on_hand (db.products q) + units q items ≤ int4_max

increment-ok :
    (q p n : ℕ) (db : Db)
    → on_hand (db.products p) + n ≤ int4_max
    → ((increment p n db).0 ≡ ok tt)
      × (on_hand ((increment p n db).1.products q)
          ≤ on_hand (db.products q) + item_units q (some p) n)
unfolding increment
increment-ok q p n db h = ground (arith, h)

module _ (env : Env) (calm : Faultless env) where
  stmt-ok :
      {A : Type 0} (f : Env → ℕ → Db → Result A × Db) (a : A) (w : World)
      → (f env w.tick w.db).0 ≡ ok a
      → stmt f env w ≡ (ok a, record w { db = (f env w.tick w.db).1; tick = w.tick + 1 })
  stmt-ok f a w h = rw (calm.fine w.tick, h) refl

  restock_item_then :
      (product : Option ℕ) (n : ℕ) (items : List OrderItem) (w : World)
      → ((w : World) → Fits items w.db → (restock items env w).0 ≡ ok tt)
      → ((q : ℕ) → on_hand (w.db.products q) + (item_units q product n + units q items) ≤ int4_max)
      → ((restock_item product n >> restock items) env w).0 ≡ ok tt
  unfolding tx_increment_stock
  restock_item_then none n items w rest h = rest w (λ q. omega (arith, h q))
  restock_item_then (some p) n items w rest h =
      let room : on_hand (w.db.products p) + n ≤ int4_max = ground (arith, h p) in
      let w' : World = record w { db = (increment p n w.db).1; tick = w.tick + 1 } in
      ap (λ r. r.0)
        (bind-ok env (tx_increment_stock p n) (λ _. restock items) tt w w'
          (stmt-ok (λ env t db. increment p n db) tt w (increment-ok p p n w.db room).0))
      ∙ rest w' (λ q. omega (arith, h q, (increment-ok q p n w.db room).1))

  restock-ok :
      (items : List OrderItem) (w : World) → Fits items w.db → (restock items env w).0 ≡ ok tt
  unfolding restock
  restock-ok [] w fits = refl
  restock-ok (it ∷ items) w fits =
      restock_item_then it.product_id it.quantity items w (restock-ok items) fits

  -- The world after the compare-and-set.
  abbrev moved_to : ℕ → OrderStatus → OrderStatus → World → World
  moved_to id from to w = record w {
    db = (transition id from to (env.now w.tick) w.db).1;
    tick = w.tick + 1;
  }

  module _ (id : ℕ) (from to : OrderStatus) (lost : Err) (items : List OrderItem) (w : World) where
    release-restock :
        (transition id from to (env.now w.tick) w.db).0 ≡ true
        → release id from to lost items env w ≡ restock items env (moved_to id from to w)
    unfolding release tx_transition_status
    release-restock moved =
        bind-ok env (tx_transition_status id from to)
          (λ moved. raise_if (not moved) lost >> restock items) true w (moved_to id from to w)
          (stmt-ok
            (λ env t db. let (moved, db') = transition id from to (env.now t) db in (ok moved, db'))
            true w (ap ok moved))

    release-ok :
        (transition id from to (env.now w.tick) w.db).0 ≡ true
        → Fits items w.db
        → (release id from to lost items env w).0 ≡ ok tt
    release-ok moved fits =
        ap (λ r. r.0) (release-restock moved)
        ∙ restock-ok items (moved_to id from to w) (λ q.
          rw (ap (λ f. f q) (products-transition id from to (env.now w.tick) w.db)) (fits q))

    release-Returned :
        (p : ℕ)
        → (transition id from to (env.now w.tick) w.db).0 ≡ true
        → Fits items w.db
        → Returned p
            (units p items)
            (transition id from to (env.now w.tick) w.db).1
            (release id from to lost items env w).1.db
    release-Returned p moved fits =
        let e = release-restock moved in
        subst
          (λ r. Returned p (units p items) (transition id from to (env.now w.tick) w.db).1 r.1.db)
          (sym e)
          (subst
            (λ r.
              Ends (λ _ b. Returned p (units p items) (moved_to id from to w).db b) r
                (restock items env (moved_to id from to w)).1.db)
            (sym (ap (λ r. r.0) e) ∙ release-ok moved fits)
            (restock-Returned p items env (moved_to id from to w)))

  with_tx-begins :
      {A : Type 0} (quiet : Quiet env) (m : M A) (w : World)
      → with_tx m env w ≡ run_tx m env (record w { tick = w.tick + 1 })
  with_tx-begins quiet m w =
      bind-ok env (query (λ env t db. (ok tt, db))) (λ _. run_tx m) tt w
        (record w { tick = w.tick + 1 })
        (ap (λ b. stmt (λ env t db. (ok tt, db)) env (record w { db = b }))
            (quiet.alone w.tick w.db)
          ∙ stmt-ok (λ env t db. (ok tt, db)) tt w refl)

  -- A transaction whose body succeeds commits.
  with_tx-calm :
      {A : Type 0} (quiet : Quiet env) (m : M A) (a : A) (w : World)
      → (m env (record w { tick = w.tick + 1 })).0 ≡ ok a
      → ((with_tx m env w).0 ≡ ok a)
        × ((with_tx m env w).1.db ≡ (m env (record w { tick = w.tick + 1 })).1.db)
  with_tx-calm {A} quiet m a w h =
      let w' : World = record w { tick = w.tick + 1 } in
      let begun : with_tx m env w ≡ run_tx m env w' = with_tx-begins quiet m w in
      let ended : run_tx m env w' ≡ (ok a, record (m env w').1 { tick = (m env w').1.tick + 1 }) =
        ap (λ r. finish_tx w.db r env (m env w').1) h ∙ committed (m env w').1 in
      (ap (λ r. r.0) (begun ∙ ended), ap (λ r. r.1.db) (begun ∙ ended))
    where
      committed : (v : World) → finish_tx w.db (ok a) env v ≡ (ok a, record v { tick = v.tick + 1 })
      committed v = rw (calm.fine v.tick) refl

transition-true :
    (id : ℕ) (from to : OrderStatus) (now : ℕ) (db : Db) (o : OrderEntry)
    → find_order id db.orders ≡ some o
    → o.row.status ≡ from
    → ((transition id from to now db).0 ≡ true)
      × (find_order id (transition id from to now db).1.orders ≡ some (set_status to now o))
unfolding transition
transition-true id from to now db o found status =
    let same : status_eq o.row.status from ≡ true = rw status (status_eq_refl from) in
    rw (found, same)
      (
        refl,
        find_order-update_order id (set_status to now) db.orders o (unfold set_status in λ x. refl)
            found,
      )

transition-false :
    (id : ℕ) (from to : OrderStatus) (now : ℕ) (db : Db) (o : OrderEntry)
    → find_order id db.orders ≡ some o
    → status_eq o.row.status from ≡ false
    → transition id from to now db ≡ (false, db)
unfolding transition
transition-false id from to now db o found other = rw (found, other) refl

-- Where nothing fails and no other request commits anything, and the stock that comes back fits
-- into its column: the release of an order in the status that it was read in succeeds, leaves it
-- in the new status and puts exactly the units of its items back on hand.
pub release_done :
    (p id : ℕ) (from to : OrderStatus) (lost : Err) (items : List OrderItem) (o : OrderEntry)
    (env : Env) (w : World)
    → Faultless env
    → Quiet env
    → find_order id w.db.orders ≡ some o
    → o.row.status ≡ from
    → Fits items w.db
    → IsListed p w.db
    → let (r, w') = with_tx (release id from to lost items) env w in
      (r ≡ ok tt)
      × ((find_order id w'.db.orders ≡ some (set_status to (env.now (w.tick + 1)) o))
          × (on_hand (w'.db.products p) ≡ on_hand (w.db.products p) + units p items))
release_done p id from to lost items o env w calm quiet found status fits listed =
    let now = env.now (w.tick + 1) in
    let w1 : World = record w { tick = w.tick + 1 } in
    let (moved, set) = transition-true id from to now w.db o found status in
    let (fine, db) =
      with_tx-calm env calm quiet (release id from to lost items) tt w
        (release-ok env calm id from to lost items w1 moved fits) in
    let back = release-Returned env calm id from to lost items w1 p moved fits in
    let kept = ap (λ f. f p) (products-transition id from to now w.db) in
    (
      fine,
      (
        ap (λ b. find_order id b.orders) db ∙ ap (find_order id) back.orders ∙ set,
        ap (λ b. on_hand (b.products p)) db
            ∙ back.more (rw kept listed)
            ∙ ap (λ x. on_hand x + units p items) kept,
      ),
    )

-- Where nothing fails and no other request commits anything, the release of an order that has left
-- the status that it was read in is refused with the given error, and gives nothing back.
pub release_lost :
    (id : ℕ) (from to : OrderStatus) (lost : Err) (items : List OrderItem) (o : OrderEntry)
    (env : Env) (w : World)
    → Faultless env
    → Quiet env
    → find_order id w.db.orders ≡ some o
    → status_eq o.row.status from ≡ false
    → let (r, w') = with_tx (release id from to lost items) env w in (r ≡ err lost) × (w'.db ≡ w.db)
unfolding release tx_transition_status
release_lost id from to lost items o env w calm quiet found other =
    let w' : World = record w { tick = w.tick + 1 } in
    let stays = transition-false id from to (env.now w'.tick) w.db o found other in
    let refused : release id from to lost items env w'
        ≡ (err lost, record w' { tick = w'.tick + 1 }) =
      bind-ok env (tx_transition_status id from to)
        (λ moved. raise_if (not moved) lost >> restock items) false w'
        (record w' { tick = w'.tick + 1 })
        (stmt-ok env calm
            (λ env t db. let (moved, db') = transition id from to (env.now t) db in (ok moved, db'))
            false w' (ap (λ r. ok r.0) stays)
          ∙ ap (λ r. (ok false, record w' { db = r.1; tick = w'.tick + 1 })) stays) in
    let ended =
      with_tx-begins env calm quiet (release id from to lost items) w
      ∙ ap (λ r. finish_tx w.db r.0 env r.1) refused in
    (ap (λ r. r.0) ended, ap (λ r. r.1.db) ended)
