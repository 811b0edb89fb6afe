-- ===== src/Orders/Conserve/Reads.antt =====
-- The reads of the repository among concurrent requests.
use stora_ecommerce.Prelude.{ℕ, ◌≡◌, refl, Option, none, some, List}
use stora_ecommerce.Schema.{OrderItem, OrderEntry, Db}
use stora_ecommerce.Effect.{Result, ok, err, Env, M, ◌>>=◌, query, with_tx, rows_seen}
use stora_ecommerce.Effect.Rely.{
  Stable, Ends, Body, Triple, Triple-bind, Triple-read, Triple-pure, Triple-exists, Triple-known,
  Triple-with_tx,
}
use stora_ecommerce.Orders.Table.{find_order}
use stora_ecommerce.Orders.Repository.{
  row_of, items_of, address_of, query_row, query_items, query_address, get_by_id, with_product,
  items_for_restock,
}
use stora_ecommerce.Orders.Conserve.Table.{
  Known, Linked, Linked-Stable, Runs, Has, Has-Stable, Conserves, Conserves-IsStep, items_in,
}

items_of-HasItems :
    (o : Option OrderEntry) (items : List OrderItem) → items_in o ≡ some items → items_of o ≡ items
items_of-HasItems none items h = cc h
items_of-HasItems (some o) items h = cc h

module _ (p : ℕ) where
  pub Known-Stable : (id : ℕ) → Stable (Conserves p) (Known id)
  Known-Stable id a b step (items, h) = (items, Has-Stable p id items a b step h)

  query_row-Known : (id : ℕ) → Triple (Conserves p) Linked (query_row id) (λ row. Known id)
  unfolding query_row
  query_row-Known id =
      Triple-read (Conserves-IsStep p) (λ row. Known id)
        (λ env t db. row_of (find_order id db.orders)) (Linked-Stable p)
        (λ env t db rely h. go db h (find_order id db.orders) refl)
    where
      go :
          (db : Db) (h : Linked db) (o : Option OrderEntry)
          → find_order id db.orders ≡ o
          → Ends (λ row. Known id) (row_of o) db
      go db h none e = tt
      go db h (some o) e = (o.items, (rw e refl, h))

  still_Known :
      {A : Type 0} (id : ℕ) (f : Env → ℕ → Db → Result A)
      → Triple (Conserves p) (Known id) (query (λ env t db. (f env t db, db))) (λ _. Known id)
  still_Known id f =
      Triple-read (Conserves-IsStep p) (λ _. Known id) f (Known-Stable id)
        (λ env t db rely h. go db (f env t db) h)
    where
      go : {A : Type 0} (db : Db) (r : Result A) → Known id db → Ends (λ _. Known id) r db
      go db (ok a) h = h
      go db (err e) h = tt

  query_items-Known : (id : ℕ) → Triple (Conserves p) (Known id) (query_items id) (λ _. Known id)
  unfolding query_items
  query_items-Known id =
      still_Known id (λ env t db. ok (rows_seen (env.cut t) (items_of (find_order id db.orders))))

  query_address-Known :
      (id : ℕ) → Triple (Conserves p) (Known id) (query_address id) (λ _. Known id)
  unfolding query_address
  query_address-Known id = still_Known id (λ env t db. address_of (find_order id db.orders))

  -- Whoever has loaded an order knows that it exists from then on.
  pub get_by_id-Known : (id : ℕ) → Triple (Conserves p) Linked (get_by_id id) (λ l. Known id)
  unfolding get_by_id
  get_by_id-Known id =
      let s = Conserves-IsStep p in
      Triple-bind s (λ _. Known id) (query_row id) _ (query_row-Known id)
        λ row.
          Triple-bind s (λ _. Known id) (query_items id) _ (query_items-Known id)
            λ items.
              Triple-bind s (λ _. Known id) (query_address id) _ (query_address-Known id)
                λ address. Triple-pure s (λ _. Known id) _ (λ db h. h)

  items_for_restock-Known :
      (id : ℕ) (items : List OrderItem)
      → Triple
          (Conserves p)
          (Has id items)
          (items_for_restock id)
          (λ xs db. (xs ≡ with_product items) × (Has id items db))
  unfolding items_for_restock
  items_for_restock-Known id items =
      Triple-read (Conserves-IsStep p) (λ xs db. (xs ≡ with_product items) × (Has id items db))
        (λ env t db. ok (rows_seen (env.cut t) (with_product (items_of (find_order id db.orders)))))
        (Has-Stable p id items)
        (λ env t db rely h.
          (rw (rely.whole t, items_of-HasItems (find_order id db.orders) items h.0) refl, h))

  -- The items of an order, then a transaction that gives them back, then the rest.
  pub restock_then :
      {A B : Type 0} (id : ℕ) (tx : List OrderItem → M A) (k : A → M B)
      → ((items : List OrderItem)
          → Body (Conserves p) (Has id items) (tx (with_product items)) (λ _. Linked))
      → ((a : A) → Runs p (k a))
      → Triple
          (Conserves p)
          (Known id)
          (items_for_restock id >>= λ items. with_tx (tx items) >>= k)
          (λ _. Linked)
  restock_then id tx k body rest =
      let s = Conserves-IsStep p in
      Triple-exists s (λ _. Linked) _
        λ items.
          Triple-bind s (λ xs db. (xs ≡ with_product items) × (Has id items db))
            (items_for_restock id) _ (items_for_restock-Known id items)
            λ xs.
              Triple-known s (λ _. Linked) (λ xs. with_tx (tx xs) >>= k) xs (with_product items)
                (Triple-bind s (λ _. Linked) (with_tx (tx (with_product items))) k
                  (Triple-with_tx s (λ _. Linked) (tx (with_product items)) (Has-Stable p id items)
                    (body items))
                  rest)

  -- The same at the end of an action.
  pub restock_last :
      {A : Type 0} (id : ℕ) (tx : List OrderItem → M A)
      → ((items : List OrderItem)
          → Body (Conserves p) (Has id items) (tx (with_product items)) (λ _. Linked))
      → Triple
          (Conserves p)
          (Known id)
          (items_for_restock id >>= λ items. with_tx (tx items))
          (λ _. Linked)
  restock_last id tx body =
      let s = Conserves-IsStep p in
      Triple-exists s (λ _. Linked) _
        λ items.
          Triple-bind s (λ xs db. (xs ≡ with_product items) × (Has id items db))
            (items_for_restock id) _ (items_for_restock-Known id items)
            λ xs.
              Triple-known s (λ _. Linked) (λ xs. with_tx (tx xs)) xs (with_product items)
                (Triple-with_tx s (λ _. Linked) (tx (with_product items)) (Has-Stable p id items)
                  (body items))
