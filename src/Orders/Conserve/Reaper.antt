-- ===== src/Orders/Conserve/Reaper.antt =====
-- The reaper of abandoned checkouts (`ExpireStaleCheckouts`) as a step on the stock.
use stora_ecommerce.Effect.{Env, World}
use stora_ecommerce.Effect.Rely.{Rely}
use stora_ecommerce.Prelude.{
  ℕ, ◌+◌, ◌≡◌, refl, ⊤, Bool, true, false, Option, none, some, List, [], ◌∷◌, map, take, All,
  All-map, All-take, arith, ◌==◌, ltb, ◌&&◌, if◌then◌else◌, Bool-cases, inl, inr,
}
use stora_ecommerce.Schema.{OrderItem, OrderRow, OrderEntry, Db}
use stora_ecommerce.Schema.{pending_payment, cancelled}
use stora_ecommerce.Effect.{Result, ok, err, M, pure, ◌>>◌, attempt, rows_checked}
use stora_ecommerce.Effect.Rely.{
  Ends, Stable, Triple, Triple-bind, Triple-attempt, Triple-read, Triple-frame, Triple-pre,
}
use stora_ecommerce.Orders.Table.{find_order, status_eq}
use stora_ecommerce.Orders.Repository.{
  by_creation, keep_stale, stale_rows, stale_ids, stale_pending_orders,
}
use stora_ecommerce.Orders.Service.{
  Deps, release_if, release_stale, count_if, is_in_flight, reconcile_stuck, after_void,
  void_intents, expire_one, expire_each, expire_stale_checkouts,
}
use stora_ecommerce.Orders.Conserve.Table.{
  Known, Linked, Linked-Stable, Runs, Conserves, Conserves-IsStep, items_in,
}
use stora_ecommerce.Orders.Conserve.Release.{release_if-Body}
use stora_ecommerce.Orders.Conserve.Reads.{Known-Stable, restock_last}
use stora_ecommerce.Orders.Conserve.Loads.{
  DepsConserve, Runs-bind, Runs-pure, Runs-attempt, Triple-any,
}

abbrev Placed : List OrderEntry → OrderRow → Type 0
Placed os r = (items : List OrderItem) × (items_in (find_order r.id os) ≡ some items)

All-by_creation :
    (P : OrderRow → Type 0) (r : OrderRow) (rows : List OrderRow)
    → P r
    → All P rows
    → All P (by_creation r rows)
All-by_creation P r [] p h = (p, tt)
All-by_creation P r (q ∷ rows) p h =
    go (ltb q.created_at r.created_at) (All-by_creation P r rows p h.1)
  where
    go :
        (b : Bool)
        → All P (by_creation r rows)
        → All P (if b then (q ∷ by_creation r rows) else (r ∷ q ∷ rows))
    go true later = (h.0, later)
    go false later = (p, h)

All-keep_stale :
    (P : OrderRow → Type 0) (cutoff : ℕ) (r : OrderRow) (rest : List OrderRow)
    → P r
    → All P rest
    → All P (keep_stale cutoff r rest)
All-keep_stale P cutoff r rest p h =
    go (status_eq r.status pending_payment && ltb r.created_at cutoff)
  where
    go : (b : Bool) → All P (if b then by_creation r rest else rest)
    go true = All-by_creation P r rest p h
    go false = h

Placed-cons :
    (o : OrderEntry) (os : List OrderEntry) (r : OrderRow) → Placed os r → Placed (o ∷ os) r
unfolding find_order
Placed-cons o os r (items, h) = elim (Bool-cases (o.row.id == r.id)) [
  | inl same ↦ (o.items, rw same refl)
  | inr other ↦ (items, rw other h)
]

Placed-head : (o : OrderEntry) (os : List OrderEntry) → Placed (o ∷ os) o.row
unfolding find_order
Placed-head o os = (o.items, ground arith)

stale_rows-Placed : (cutoff : ℕ) (os : List OrderEntry) → All (Placed os) (stale_rows cutoff os)
stale_rows-Placed cutoff [] = tt
stale_rows-Placed cutoff (o ∷ os) =
    All-keep_stale (Placed (o ∷ os)) cutoff o.row (stale_rows cutoff os) (Placed-head o os)
      (All-map (stale_rows cutoff os) (λ r. Placed-cons o os r) (stale_rows-Placed cutoff os))

abbrev AllKnown : List ℕ → Db → Type 0
AllKnown [] db = Linked db
AllKnown (id ∷ ids) db = Known id db × AllKnown ids db

Placed-AllKnown :
    (db : Db) (rows : List OrderRow)
    → Linked db
    → All (Placed db.orders) rows
    → AllKnown (map (λ r. r.id) rows) db
Placed-AllKnown db [] l h = l
Placed-AllKnown db (r ∷ rows) l h = ((h.0.0, (h.0.1, l)), Placed-AllKnown db rows l h.1)

AllKnown-Linked : (ids : List ℕ) (db : Db) → AllKnown ids db → Linked db
AllKnown-Linked [] db h = h
AllKnown-Linked (id ∷ ids) db h = h.0.1.1

module _ (p : ℕ) where
  AllKnown-Stable : (ids : List ℕ) → Stable (Conserves p) (AllKnown ids)
  AllKnown-Stable [] a b step h = step.linked h
  AllKnown-Stable (id ∷ ids) a b step h =
      (Known-Stable p id a b step h.0, AllKnown-Stable ids a b step h.1)

  stale_pending_orders-Known :
      (cutoff limit : ℕ) → Triple (Conserves p) Linked (stale_pending_orders cutoff limit) AllKnown
  unfolding stale_pending_orders
  stale_pending_orders-Known cutoff limit =
      Triple-read (Conserves-IsStep p) AllKnown
        (λ env t db. rows_checked (env.cut t) (stale_ids cutoff limit db.orders)) (Linked-Stable p)
        (λ env t db rely x. go db x (env.cut t))
    where
      go :
          (db : Db) (l : Linked db) (c : Option ℕ)
          → Ends AllKnown (rows_checked c (stale_ids cutoff limit db.orders)) db
      go db l none = Placed-AllKnown db (take limit (stale_rows cutoff db.orders)) l (
          All-take (Placed db.orders) limit (stale_rows cutoff db.orders)
            (stale_rows-Placed cutoff db.orders))
      go db l (some n) = tt

  release_stale-Conserves :
      (id : ℕ) → Triple (Conserves p) (Known id) (release_stale id) (λ _. Linked)
  unfolding release_stale
  release_stale-Conserves id =
      let s = Conserves-IsStep p in
      Triple-bind s (λ r db. Known id db × Ends (λ _. Linked) r db) _ _
        (Triple-attempt s (λ _. Linked) _ (Known-Stable p id)
          (restock_last p id (release_if id pending_payment cancelled)
            (λ items. release_if-Body p id pending_payment cancelled items refl refl)))
        (λ r.
          Triple-pre s Linked (λ _. Linked) (pure (count_if r)) (λ db x. x.0.1.1)
            (Runs-pure p (count_if r)))

  module _ {deps : Deps} (injected : DepsConserve p deps) where
    void_intents-Runs :
        (canceller : Option (ℕ → M ⊤)) (id : ℕ)
        → ((f : ℕ → M ⊤) → canceller ≡ some f → (id : ℕ) → Runs p (f id))
        → Runs p (void_intents canceller id)
    void_intents-Runs none id h = Runs-pure p tt
    void_intents-Runs (some void) id h = h void refl id

    reconcile_stuck-Runs :
        (reconciler : Option (ℕ → M ⊤)) (id : ℕ)
        → ((f : ℕ → M ⊤) → reconciler ≡ some f → (id : ℕ) → Runs p (f id))
        → Runs p (reconcile_stuck reconciler id)
    reconcile_stuck-Runs none id h = Runs-pure p tt
    reconcile_stuck-Runs (some reconcile) id h =
        Runs-bind p (attempt (reconcile id)) (λ _. pure tt)
          (Runs-attempt p (reconcile id) (h reconcile refl id)) (λ _. Runs-pure p tt)

    after_void-Conserves :
        (id : ℕ) (r : Result ⊤)
        → Triple (Conserves p) (Known id) (after_void deps id r) (λ _. Linked)
    after_void-Conserves id (ok _) = release_stale-Conserves id
    after_void-Conserves id (err e) = go (is_in_flight e)
      where
        go :
            (b : Bool)
            → Triple {A = ℕ}
                (Conserves p)
                (Known id)
                (if b then (reconcile_stuck deps.reconciler id >> pure 0) else pure 0)
                (λ _. Linked)
        go true = Triple-any p id _ (
            Runs-bind p (reconcile_stuck deps.reconciler id) (λ _. pure 0)
              (reconcile_stuck-Runs deps.reconciler id injected.reconciler) (λ _. Runs-pure p 0))
        go false = Triple-any p id (pure 0) (Runs-pure p 0)

    expire_one-Conserves :
        (id : ℕ) → Triple (Conserves p) (Known id) (expire_one deps id) (λ _. Linked)
    unfolding expire_one
    expire_one-Conserves id =
        let s = Conserves-IsStep p in
        Triple-bind s (λ r db. Known id db × Ends (λ _. Linked) r db)
          (attempt (void_intents deps.canceller id)) (after_void deps id)
          (Triple-attempt s (λ _. Linked) (void_intents deps.canceller id) (Known-Stable p id)
            (Triple-any p id (void_intents deps.canceller id)
              (void_intents-Runs deps.canceller id injected.canceller)))
          (λ r.
            Triple-pre s (Known id) (λ _. Linked) (after_void deps id r) (λ db x. x.0)
              (after_void-Conserves id r))

    expire_each-Conserves :
        (ids : List ℕ) → Triple (Conserves p) (AllKnown ids) (expire_each deps ids) (λ _. Linked)
    unfolding expire_each
    expire_each-Conserves [] = Runs-pure p 0
    expire_each-Conserves (id ∷ ids) =
        let s = Conserves-IsStep p in
        Triple-bind s (λ n db. AllKnown (id ∷ ids) db × Linked db) (expire_one deps id) _
          (Triple-frame s (λ _. Linked) (expire_one deps id) (AllKnown-Stable (id ∷ ids))
            (Triple-pre s (Known id) (λ _. Linked) (expire_one deps id) (λ db x. x.0)
              (expire_one-Conserves id)))
          λ n.
            Triple-bind s (λ _. Linked) (expire_each deps ids) _
              (Triple-pre s (AllKnown ids) (λ _. Linked) (expire_each deps ids) (λ db x. x.0.1)
                (expire_each-Conserves ids))
              (λ rest. Runs-pure p (n + rest))

    pub expire_stale_checkouts-Runs :
        (older_than limit : ℕ) → Runs p (expire_stale_checkouts deps older_than limit)
    unfolding expire_stale_checkouts
    expire_stale_checkouts-Runs older_than limit =
        Triple-bind (Conserves-IsStep p) AllKnown (stale_pending_orders older_than limit)
          (expire_each deps) (stale_pending_orders-Known older_than limit) expire_each-Conserves

    -- A run of the reaper over stale checkouts conserves the stock of every product, whatever the
    -- batch and whatever call fails, among concurrent requests that conserve it, with no result set
    -- broken off and every payment with its order, if the injected services conserve it.
    pub expire_stale_checkouts-Conserves :
        (older_than limit : ℕ) (env : Env) (w : World)
        → Rely (Conserves p) env
        → Linked w.db
        → Conserves p w.db (expire_stale_checkouts deps older_than limit env w).1.db
    expire_stale_checkouts-Conserves older_than limit env w rely linked =
        ((expire_stale_checkouts-Runs older_than limit).run env w rely linked).0
