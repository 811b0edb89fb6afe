-- ===== src/Cart/Added.antt =====
-- Additions to a cart (`AddItem` of internal/cart/service.go) and the stock.
use stora_ecommerce.Prelude.{
  ℕ, ◌+◌, ◌≤◌, ◌≡◌, refl, sym, ap, ◌∙◌, Bool, true, false, not, ltb, Option-cases, Bool-cases,
  any_where, ◌&&◌, ◌==◌, inl, inr, Option, none, some, List, arith, if◌then◌else◌,
}
use stora_ecommerce.Schema.{Product, Cart, Db}
use stora_ecommerce.Effect.{
  Env, World, Result, ok, err, M, pure, raise, ◌>>=◌, ◌>>◌, raise_if, attempt, query, send,
  rows_seen, cart_add_logged, cart_no_owner, validation, out_of_stock,
}
use stora_ecommerce.Effect.Rely.{
  IsStep, Stable, Rely, Ends, Ends-bind, Ends-stmt, Ends-raise_if, Ends-weaken, Triple, Triple-bind,
  Triple-pure, Triple-raise, Triple-query, Triple-read, Triple-send, Triple-attempt, Triple-weaken,
}
use stora_ecommerce.Orders.Stock.{on_hand}
use stora_ecommerce.Cart.Repository.{
  CartItemDetail, by_user, by_guest, find_cart, or_cart_not_found, get_cart_by, insert_cart,
  create_cart, is_cart_not_found, or_create, get_or_create_by_user, get_or_create_by_guest,
  quantity_in, upsert, fits_line, add_for, add_item, details, get_items,
}
use stora_ecommerce.Cart.Service.{
  CartResponse, to_response, build_response, resolve_cart, valid_quantity, or_product_not_found,
  get_product, over_stock, add_to_cart,
}
use stora_ecommerce.Cart.Bounds.{over_stock-quantity_in, quantity_in-upsert, quantity_in-upsert_new}

-- A step that leaves the lines of carts and the products alone.
pub record SameLines (a b : Db) : Type 0 where
  pub lines : b.cart_items ≡ a.cart_items
  pub products : b.products ≡ a.products

pub SameLines-IsStep : IsStep SameLines
SameLines-IsStep = record {
  stay = λ a. record { lines = refl; products = refl };
  join = λ a b c f g. record { lines = g.lines ∙ f.lines; products = g.products ∙ f.products };
}

module _ (a : Db) where
  abbrev At : Db → Type 0
  At db = SameLines a db

  At-Stable : Stable SameLines At
  At-Stable b c step at_b = SameLines-IsStep.join a b c at_b step

  At-end : {A : Type 0} (r : Result A) (db : Db) → At db → Ends (λ _. At) r db
  At-end (ok x) db h = h
  At-end (err e) db h = tt

  At-read :
      {A : Type 0} (f : Env → ℕ → Db → Result A)
      → Triple SameLines At (query (λ env t db. (f env t db, db))) (λ _. At)
  At-read f =
      Triple-read SameLines-IsStep (λ _. At) f At-Stable
        (λ env t db rely h. At-end (f env t db) db h)

  get_product-At :
      (id : ℕ) → Triple SameLines At (get_product id) (λ x db. At db × (a.products id ≡ some x))
  unfolding get_product
  get_product-At id =
      Triple-read SameLines-IsStep (λ x db. At db × (a.products id ≡ some x))
        (λ env t db. or_product_not_found (db.products id)) At-Stable
        (λ env t db rely h. go db h (db.products id) (ap (λ f. f id) (sym h.products)))
    where
      go :
          (db : Db)
          → At db
          → (o : Option Product) → a.products id ≡ o
          → Ends (λ x db. At db × (a.products id ≡ some x)) (or_product_not_found o) db
      go db h none e = tt
      go db h (some x) e = (h, e)

  get_items-At :
      (cart : ℕ)
      → Triple SameLines At
          (get_items cart)
          (λ items db. At db × (items ≡ details cart a.products a.cart_items))
  unfolding get_items
  get_items-At cart =
      Triple-read SameLines-IsStep
        (λ items db. At db × (items ≡ details cart a.products a.cart_items))
        (λ env t db. ok (rows_seen (env.cut t) (details cart db.products db.cart_items))) At-Stable
        (λ env t db rely h. (h, rw (rely.whole t, h.products, h.lines) refl))

  insert_cart-At :
      (o : Option Cart) (c : Cart) (db : Db)
      → At db
      → SameLines db (insert_cart o c db).1
        × Ends (λ _. At) (insert_cart o c db).0 (insert_cart o c db).1
  insert_cart-At none c db h =
      (record { lines = refl; products = refl }, record { lines = h.lines; products = h.products })
  insert_cart-At (some other) c db h = (SameLines-IsStep.stay db, tt)

  or_create-At :
      (test : Cart → Bool) (user guest : Option ℕ) (r : Result Cart)
      → Triple SameLines At (or_create test user guest r) (λ _. At)
  unfolding create_cart
  or_create-At test user guest (ok c) = Triple-pure SameLines-IsStep (λ _. At) c (λ db h. h)
  or_create-At test user guest (err e) = go (is_cart_not_found e)
    where
      go :
          (b : Bool)
          → Triple SameLines At (if b then create_cart test user guest else raise e) (λ _. At)
      go true =
          Triple-query SameLines-IsStep (λ _. At)
            (λ env t db.
              insert_cart (find_cart test db.carts)
                (record { id = env.fresh_id t; user_id = user; guest_session_id = guest }) db)
            At-Stable
            (λ env t db rely h.
              insert_cart-At (find_cart test db.carts)
                (record { id = env.fresh_id t; user_id = user; guest_session_id = guest }) db h)
      go false = Triple-raise SameLines-IsStep (λ _. At) e

  get_or_create-At :
      (test : Cart → Bool) (user guest : Option ℕ)
      → Triple SameLines At (attempt (get_cart_by test) >>= or_create test user guest) (λ _. At)
  unfolding get_cart_by
  get_or_create-At test user guest =
      Triple-bind SameLines-IsStep (λ _. At) (attempt (get_cart_by test))
        (or_create test user guest)
        (Triple-weaken SameLines-IsStep (λ r db. At db × Ends (λ _. At) r db) (λ _. At)
          (attempt (get_cart_by test))
          (Triple-attempt SameLines-IsStep (λ _. At) (get_cart_by test) At-Stable
            (At-read (λ env t db. or_cart_not_found (find_cart test db.carts))))
          (λ r db h. h.0))
        (or_create-At test user guest)

  resolve_cart-At :
      (user guest : Option ℕ) → Triple SameLines At (resolve_cart user guest) (λ _. At)
  unfolding resolve_cart get_or_create_by_user get_or_create_by_guest
  resolve_cart-At (some user) guest = get_or_create-At (by_user user) (some user) none
  resolve_cart-At none (some guest) = get_or_create-At (by_guest guest) none (some guest)
  resolve_cart-At none none = Triple-raise SameLines-IsStep (λ _. At) cart_no_owner

  build_response-At :
      (c : Cart) → Triple SameLines At (build_response c) (λ resp db. At db × (resp.id ≡ c.id))
  unfolding build_response to_response
  build_response-At c =
      Triple-bind SameLines-IsStep
        (λ items db. At db × (items ≡ details c.id a.products a.cart_items)) (get_items c.id)
        (λ items. pure (to_response c.id items)) (get_items-At c.id)
        (λ items.
          Triple-pure SameLines-IsStep (λ resp db. At db × (resp.id ≡ c.id))
            (to_response c.id items) (λ db h. (h.0, refl)))

-- The line of the product, if there is one, is within the stock.
abbrev pub Within : ℕ → ℕ → Db → Type 0
Within cart product db =
    (q : ℕ) × ((quantity_in cart product db.cart_items ≡ some q)
      × (q ≤ on_hand (db.products product)))

module _ (env : Env) (rely : Rely SameLines env) where
  -- An action that leaves the lines alone, and what follows.
  seq :
      {A B : Type 0} {P : Db → Type 0} (Q : A → Db → Type 0) (S : B → Db → Type 0) (m : M A)
      (f : A → M B) (w : World)
      → Triple SameLines P m Q
      → P w.db
      → ((x : A) (w' : World) → Q x w'.db → Ends S (f x env w').0 (f x env w').1.db)
      → Ends S ((m >>= f) env w).0 ((m >>= f) env w).1.db
  seq Q S m f w t p rest = Ends-bind Q S m f env w (t.run env w rely p).1 rest

  Within-upsert :
      (a b : Db) (cart id product n : ℕ) (x : Product)
      → At a b
      → a.products product ≡ some x
      → n ≤ x.stock_quantity
      → over_stock product n x.stock_quantity (details cart a.products a.cart_items) ≡ false
      → Within cart product (record b { cart_items = upsert id cart product n b.cart_items })
  Within-upsert a b cart id product n x same listed few under =
      let stock : on_hand (b.products product) ≡ x.stock_quantity =
        ap (λ f. on_hand (f product)) same.products ∙ ap on_hand listed in
      elim (Option-cases (quantity_in cart product a.cart_items)) [
        | inl new ↦ (
          n,
          (
            ap (λ l. quantity_in cart product (upsert id cart product n l)) same.lines
                ∙ quantity_in-upsert_new id cart product n a.cart_items new,
            omega (arith, stock, few),
          ),
        )
        | inr (q, old) ↦ (
          q + n,
          (
            ap (λ l. quantity_in cart product (upsert id cart product n l)) same.lines
                ∙ quantity_in-upsert id cart product n a.cart_items q old,
            omega (
              arith,
              stock,
              over_stock-quantity_in cart product n a.products x a.cart_items q listed under old,
            ),
          ),
        )
      ]

  add_item-Within :
      (a : Db) (cart product n : ℕ) (x : Product) (w : World)
      → At a w.db
      → a.products product ≡ some x
      → n ≤ x.stock_quantity
      → over_stock product n x.stock_quantity (details cart a.products a.cart_items) ≡ false
      → Ends
          (λ _ b. Within cart product b)
          (add_item cart product n env w).0
          (add_item cart product n env w).1.db
  unfolding add_item
  add_item-Within a cart product n x w at_w listed few under =
      let b = env.others w.tick w.db in
      let same = At-Stable a w.db b (rely.step w.tick w.db) at_w in
      Ends-stmt (λ _ b. Within cart product b)
        (λ env t db. add_for (db.products product) (env.fresh_id t) cart product n db) env
        (record w { db = b }) (go (b.products product) b same)
    where
      go :
          (o : Option Product) (b : Db)
          → At a b
          → Ends
              (λ _ b. Within cart product b)
              (add_for o (env.fresh_id w.tick) cart product n b).0
              (add_for o (env.fresh_id w.tick) cart product n b).1
      go none b same = tt
      go (some y) b same =
          elim (Bool-cases (
            any_where (λ (c : Cart). c.id == cart) b.carts
            && fits_line (quantity_in cart product b.cart_items) n)) [
              | inl allowed ↦
                  rw allowed
                    (Within-upsert a b cart (env.fresh_id w.tick) product n x same listed few under)
              | inr refused ↦ rw refused tt
            ]

  -- What follows the addition reads only.
  after_add-Within :
      (user guest : Option ℕ) (c : Cart) (product : ℕ) (w : World)
      → Within c.id product w.db
      → let m = attempt (send (cart_add_logged user guest product)) >> build_response c in
        Ends (λ resp b. Within resp.id product b) (m env w).0 (m env w).1.db
  after_add-Within user guest c product w (q, (line, bound)) =
      seq (λ _. At w.db) (λ resp b. Within resp.id product b)
        (attempt (send (cart_add_logged user guest product))) (λ _. build_response c) w
        (Triple-weaken SameLines-IsStep (λ r db. At w.db db × Ends (λ _. At w.db) r db)
          (λ _. At w.db) (attempt (send (cart_add_logged user guest product)))
          (Triple-attempt SameLines-IsStep (λ _. At w.db)
            (send (cart_add_logged user guest product)) (At-Stable w.db)
            (Triple-send SameLines-IsStep (cart_add_logged user guest product)))
          (λ r db h. h.0))
        (SameLines-IsStep.stay w.db)
        (λ _ w' at_w.
          Ends-weaken (λ resp b. At w.db b × (resp.id ≡ c.id)) (λ resp b. Within resp.id product b)
            (build_response c env w').0 (build_response c env w').1.db
            (λ resp h. (q, (rw (h.1, h.0.lines) line, rw h.0.products bound)))
            ((build_response-At w.db c).run env w' rely at_w).1)

-- The parts of an addition, from the back.
module _ (user guest : Option ℕ) (product n : ℕ) where
  abbrev append_line : Product → Cart → List CartItemDetail → M CartResponse
  append_line x c items =
      raise_if (over_stock product n x.stock_quantity items) out_of_stock
      >> (add_item c.id product n
          >> (attempt (send (cart_add_logged user guest product)) >> build_response c))

  abbrev add_product : Product → M CartResponse
  add_product x =
      raise_if (ltb x.stock_quantity n) out_of_stock
      >> (resolve_cart user guest >>= λ c. get_items c.id >>= λ items. append_line x c items)

  -- If an addition to a cart is accepted, while other requests leave the lines of carts and the
  -- products alone and no result set breaks off, then the cart has a line of the product, whose
  -- quantity is within the stock.
  pub add_to_cart-Within :
      (env : Env) (w : World)
      → Rely SameLines env
      → Ends
          (λ resp b. Within resp.id product b)
          (add_to_cart user guest (some product) n env w).0
          (add_to_cart user guest (some product) n env w).1.db
  unfolding add_to_cart
  add_to_cart-Within env w rely =
      let a = w.db in
      let goal : CartResponse → Db → Type 0 = λ resp b. Within resp.id product b in
      Ends-raise_if goal (not (valid_quantity n)) validation (get_product product >>= add_product)
        env w
        λ valid.
          seq env rely (λ x db. At a db × (a.products product ≡ some x)) goal (get_product product)
            add_product w (get_product-At a product) (SameLines-IsStep.stay a)
            λ x w1 (at1, listed).
              Ends-raise_if goal (ltb x.stock_quantity n) out_of_stock
                (resolve_cart user guest >>= λ c. get_items c.id >>= λ items. append_line x c items)
                env w1
                λ few.
                  seq env rely (λ c. At a) goal (resolve_cart user guest)
                    (λ c. get_items c.id >>= λ items. append_line x c items) w1
                    (resolve_cart-At a user guest) at1
                    λ c w2 at2.
                      seq env rely
                        (λ items db. At a db × (items ≡ details c.id a.products a.cart_items)) goal
                        (get_items c.id) (λ items. append_line x c items) w2 (get_items-At a c.id)
                        at2
                        λ items w3 (at3, seen).
                          Ends-raise_if goal (over_stock product n x.stock_quantity items)
                            out_of_stock
                            (add_item c.id product n
                              >> (attempt (send (cart_add_logged user guest product))
                                  >> build_response c))
                            env w3
                            λ under.
                              Ends-bind (λ _ b. Within c.id product b) goal
                                (add_item c.id product n)
                                (λ _.
                                  attempt (send (cart_add_logged user guest product))
                                  >> build_response c)
                                env w3
                                (add_item-Within env rely a c.id product n x w3 at3 listed
                                  (ground (arith, few)) (rw seen at under))
                                (λ _ w4 within.
                                  after_add-Within env rely user guest c product w4 within)
