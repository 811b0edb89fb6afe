-- ===== src/Cart/Conserve/Statements.antt =====
-- The statements on the cart tables (internal/cart/repository.go) as steps on the stock.
use stora_ecommerce.Prelude.{
  Bool-cases, inl, inr, any_where, ◌&&◌, ◌==◌, ℕ, ◌≡◌, refl, sym, ⊤, Bool, true, false, Option,
  none, some, List, if◌then◌else◌,
}
use mathlib.Core.Path.{subst}
use stora_ecommerce.Schema.{Product, Cart, CartItem, Db}
use stora_ecommerce.Effect.{
  Env, Err, Result, ok, err, M, raise, ◌>>=◌, raise_if, attempt, query, stmt, rows_seen,
  cart_no_owner,
}
use stora_ecommerce.Effect.Rely.{
  Ends, Ends-bind, Ends-stmt, Body, Triple-raise, Triple-read, Triple-query, Triple-with_tx,
  Triple-raise_if,
}
use stora_ecommerce.Orders.Conserve.Table.{Conserves, Conserves-IsStep, Linked, Linked-Stable, Runs}
use stora_ecommerce.Orders.Conserve.Loads.{Runs-bind, Runs-pure, Runs-attempt}
use stora_ecommerce.Cart.Repository.{
  fits_line, upsert, quantity_in, by_user, by_guest, find_cart, or_cart_not_found, get_cart_by,
  insert_cart, create_cart, is_cart_not_found, or_create, get_or_create_by_user,
  get_or_create_by_guest, add_for, add_item, quantity_in, set_quantity, without_line, without_cart,
  check_stock, set_line, update_tx, update_item_quantity, remove_line, remove_item, clear_items,
  delete_items, delete_cart, cart_rows_without, details, get_items,
}
use stora_ecommerce.Cart.Service.{
  to_response, build_response, resolve_cart, get_cart, or_product_not_found, get_product,
}

-- A change of the carts alone.
abbrev with_carts : Db → List Cart → List CartItem → Db
with_carts db cs items = record db { carts = cs; cart_items = items }

pub carts-Conserves :
    (p : ℕ) (db : Db) (cs : List Cart) (items : List CartItem)
    → Conserves p db (with_carts db cs items)
carts-Conserves p db cs items = record {
  listed = λ l. l;
  same_level = λ l. refl;
  kept = λ id xs k. k;
  linked = λ l. l;
}

module _ (p : ℕ) where
  pub raises : {A : Type 0} (e : Err) → Runs p (raise {A = A} e)
  raises e = Triple-raise (Conserves-IsStep p) (λ _. Linked) e

  pub guarded :
      {A : Type 0} (b : Bool) (e : Err) (m : M A) → Runs p m → Runs p (raise_if b e >>= λ _. m)
  guarded b e m h = Triple-raise_if (Conserves-IsStep p) (λ _. Linked) b e m (λ _. h)

  pub reads :
      {A : Type 0} (f : Env → ℕ → Db → Result A) → Runs p (query (λ env t db. (f env t db, db)))
  reads f =
      Triple-read (Conserves-IsStep p) (λ _. Linked) f (Linked-Stable p)
        (λ env t db rely h. go db (f env t db) h)
    where
      go : {A : Type 0} (db : Db) (r : Result A) → Linked db → Ends (λ _. Linked) r db
      go db (ok a) h = h
      go db (err e) h = tt

  -- A statement that changes the carts, or fails and changes nothing.
  pub writes :
      {A : Type 0} (f : Env → ℕ → Db → Result A × Db)
      → ((env : Env) (t : ℕ) (db : Db) → Conserves p db (f env t db).1)
      → Runs p (query f)
  writes f h =
      Triple-query (Conserves-IsStep p) (λ _. Linked) f (Linked-Stable p)
        (λ env t db rely l. (h env t db, go (f env t db).1 (f env t db).0 ((h env t db).linked l)))
    where
      go : {A : Type 0} (db : Db) (r : Result A) → Linked db → Ends (λ _. Linked) r db
      go db (ok a) l = l
      go db (err e) l = tt

  pub get_cart_by-Runs : (test : Cart → Bool) → Runs p (get_cart_by test)
  unfolding get_cart_by
  get_cart_by-Runs test = reads (λ env t db. or_cart_not_found (find_cart test db.carts))

  pub get_items-Runs : (cart : ℕ) → Runs p (get_items cart)
  unfolding get_items
  get_items-Runs cart =
      reads (λ env t db. ok (rows_seen (env.cut t) (details cart db.products db.cart_items)))

  pub get_product-Runs : (id : ℕ) → Runs p (get_product id)
  unfolding get_product
  get_product-Runs id = reads (λ env t db. or_product_not_found (db.products id))

  pub insert_cart-Conserves :
      (o : Option Cart) (c : Cart) (db : Db) → Conserves p db (insert_cart o c db).1
  insert_cart-Conserves none c db = carts-Conserves p db _ db.cart_items
  insert_cart-Conserves (some other) c db = (Conserves-IsStep p).stay db

  pub create_cart-Runs :
      (test : Cart → Bool) (user guest : Option ℕ) → Runs p (create_cart test user guest)
  unfolding create_cart
  create_cart-Runs test user guest =
      writes
        (λ env t db.
          insert_cart (find_cart test db.carts)
            (record { id = env.fresh_id t; user_id = user; guest_session_id = guest }) db)
        (λ env t db.
          insert_cart-Conserves (find_cart test db.carts)
            (record { id = env.fresh_id t; user_id = user; guest_session_id = guest }) db)

  pub or_create-Runs :
      (test : Cart → Bool) (user guest : Option ℕ) (r : Result Cart)
      → Runs p (or_create test user guest r)
  or_create-Runs test user guest (ok c) = Runs-pure p c
  or_create-Runs test user guest (err e) = go (is_cart_not_found e)
    where
      go : (b : Bool) → Runs p (if b then create_cart test user guest else raise e)
      go true = create_cart-Runs test user guest
      go false = raises e

  pub get_or_create_by_user-Runs : (user : ℕ) → Runs p (get_or_create_by_user user)
  unfolding get_or_create_by_user
  get_or_create_by_user-Runs user =
      Runs-bind p (attempt (get_cart_by (by_user user))) _
        (Runs-attempt p _ (get_cart_by-Runs (by_user user)))
        (or_create-Runs (by_user user) (some user) none)

  pub resolve_cart-Runs : (user guest : Option ℕ) → Runs p (resolve_cart user guest)
  unfolding resolve_cart get_or_create_by_guest
  resolve_cart-Runs (some user) guest = get_or_create_by_user-Runs user
  resolve_cart-Runs none (some guest) =
      Runs-bind p (attempt (get_cart_by (by_guest guest))) _
        (Runs-attempt p _ (get_cart_by-Runs (by_guest guest)))
        (or_create-Runs (by_guest guest) none (some guest))
  resolve_cart-Runs none none = raises cart_no_owner

  pub build_response-Runs : (c : Cart) → Runs p (build_response c)
  unfolding build_response
  build_response-Runs c =
      Runs-bind p (get_items c.id) _ (get_items-Runs c.id)
        (λ items. Runs-pure p (to_response c.id items))

  pub get_cart-Conserves : (user guest : Option ℕ) → Runs p (get_cart user guest)
  unfolding get_cart
  get_cart-Conserves user guest =
      Runs-bind p (resolve_cart user guest) build_response (resolve_cart-Runs user guest)
        build_response-Runs

  pub add_for-Conserves :
      (o : Option Product) (id cart product n : ℕ) (db : Db)
      → Conserves p db (add_for o id cart product n db).1
  add_for-Conserves none id cart product n db = (Conserves-IsStep p).stay db
  add_for-Conserves (some x) id cart product n db =
      elim (Bool-cases (
        any_where (λ (c : Cart). c.id == cart) db.carts
        && fits_line (quantity_in cart product db.cart_items) n)) [
          | inl allowed ↦
              rw allowed (carts-Conserves p db db.carts (upsert id cart product n db.cart_items))
          | inr refused ↦ rw refused ((Conserves-IsStep p).stay db)
        ]

  pub add_item-Runs : (cart product n : ℕ) → Runs p (add_item cart product n)
  unfolding add_item
  add_item-Runs cart product n =
      writes (λ env t db. add_for (db.products product) (env.fresh_id t) cart product n db)
        (λ env t db. add_for-Conserves (db.products product) (env.fresh_id t) cart product n db)

  pub remove_line-Conserves :
      (o : Option ℕ) (cart product : ℕ) (db : Db) → Conserves p db (remove_line o cart product db).1
  remove_line-Conserves none cart product db = (Conserves-IsStep p).stay db
  remove_line-Conserves (some n) cart product db =
      carts-Conserves p db db.carts (without_line cart product db.cart_items)

  pub remove_item-Runs : (cart product : ℕ) → Runs p (remove_item cart product)
  unfolding remove_item
  remove_item-Runs cart product =
      writes (λ env t db. remove_line (quantity_in cart product db.cart_items) cart product db)
        (λ env t db. remove_line-Conserves (quantity_in cart product db.cart_items) cart product db)

  pub clear_items-Runs : (cart : ℕ) → Runs p (clear_items cart)
  unfolding clear_items
  clear_items-Runs cart =
      writes (λ env t db. (ok tt, delete_items cart db))
        (λ env t db. carts-Conserves p db db.carts (without_cart cart db.cart_items))

  pub delete_cart-Runs : (cart : ℕ) → Runs p (delete_cart cart)
  unfolding delete_cart
  delete_cart-Runs cart =
      writes
        (λ env t db.
          (ok tt, record (delete_items cart db) { carts = cart_rows_without cart db.carts }))
        (λ env t db.
          carts-Conserves p db (cart_rows_without cart db.carts) (without_cart cart db.cart_items))

  pub set_line-Ends :
      (o : Option ℕ) (cart product n : ℕ) (db : Db)
      → Linked db
      → Ends
          (λ _ b. Conserves p db b × Linked b)
          (set_line o cart product n db).0
          (set_line o cart product n db).1
  set_line-Ends none cart product n db l = tt
  set_line-Ends (some old) cart product n db l =
      (carts-Conserves p db db.carts (set_quantity cart product n db.cart_items), l)

  check_stock-Ends : (db : Db) (r : Result ⊤) → Ends (λ _ b. b ≡ db) r db
  check_stock-Ends db (ok a) = refl
  check_stock-Ends db (err e) = tt

  update_tx-Body :
      (cart product n : ℕ) → Body (Conserves p) Linked (update_tx cart product n) (λ _. Linked)
  unfolding update_tx
  update_tx-Body cart product n = record {
    run = λ env w l.
        Ends-bind (λ _ b. b ≡ w.db) (λ _ b. Conserves p w.db b × Linked b)
          (stmt (λ env t db. (check_stock (db.products product) n, db)))
          (λ _.
            stmt (λ env t db. set_line (quantity_in cart product db.cart_items) cart product n db))
          env w
          (Ends-stmt (λ _ b. b ≡ w.db) (λ env t db. (check_stock (db.products product) n, db)) env w
            (check_stock-Ends w.db (check_stock (w.db.products product) n)))
          (λ _ w' same.
            Ends-stmt (λ _ b. Conserves p w.db b × Linked b)
              (λ env t db. set_line (quantity_in cart product db.cart_items) cart product n db) env
              w'
              (subst
                (λ b.
                  let (r, c) = set_line (quantity_in cart product b.cart_items) cart product n b in
                  Ends (λ _ c. Conserves p w.db c × Linked c) r c)
                (sym same)
                (set_line-Ends (quantity_in cart product w.db.cart_items) cart product n w.db l)));
  }

  pub update_item_quantity-Runs :
      (cart product n : ℕ) → Runs p (update_item_quantity cart product n)
  unfolding update_item_quantity
  update_item_quantity-Runs cart product n =
      Triple-with_tx (Conserves-IsStep p) (λ _. Linked) (update_tx cart product n) (Linked-Stable p)
        (update_tx-Body cart product n)
