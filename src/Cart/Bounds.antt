-- ===== src/Cart/Bounds.antt =====
-- The quantity of a product in a cart: the check of `AddItem` against the upsert of the repository.
use stora_ecommerce.Prelude.{
  ℕ, ◌+◌, ◌≤◌, ◌≡◌, false, ◌==◌, ltb, Bool-cases, Option-cases, inl, inr, Option, none, some, List,
  [], ◌∷◌, arith,
}
use stora_ecommerce.Schema.{Product, CartItem}
use stora_ecommerce.Cart.Repository.{is_line, quantity_in, upsert, details}
use stora_ecommerce.Cart.Service.{over_stock}

-- The loop over the joined lines sees what the table has.
pub over_stock-quantity_in :
    (cart product n : ℕ) (products : ℕ → Option Product) (x : Product) (items : List CartItem)
    (q : ℕ)
    → products product ≡ some x
    → over_stock product n x.stock_quantity (details cart products items) ≡ false
    → quantity_in cart product items ≡ some q
    → q + n ≤ x.stock_quantity
unfolding over_stock details quantity_in
over_stock-quantity_in cart product n products x [] q listed under found = cc found
over_stock-quantity_in cart product n products x (it ∷ items) q listed under found =
    elim (Bool-cases (it.cart_id == cart)) [
      | inr other ↦
          over_stock-quantity_in cart product n products x items q listed (rw other at under)
            (rw other at found)
      | inl own ↦ elim (Bool-cases (it.product_id == product)) [
        | inl same ↦
            let e : products it.product_id ≡ some x = ground (arith, listed) in
            let u : ltb x.stock_quantity (it.quantity + n) ≡ false = rw (own, e, same) at under in
            let f : some it.quantity ≡ some q = rw (own, same) at found in ground (arith, u, f)
        | inr differs ↦ elim (Option-cases (products it.product_id)) [
          | inl gone ↦
              over_stock-quantity_in cart product n products x items q listed
                (rw (own, gone) at under) (rw (own, differs) at found)
          | inr (y, there) ↦
              over_stock-quantity_in cart product n products x items q listed
                (rw (own, there, differs) at under) (rw (own, differs) at found)
        ]
      ]
    ]

pub quantity_in-upsert :
    (id cart product n : ℕ) (items : List CartItem) (q : ℕ)
    → quantity_in cart product items ≡ some q
    → quantity_in cart product (upsert id cart product n items) ≡ some (q + n)
unfolding quantity_in upsert
quantity_in-upsert id cart product n [] q h = cc h
quantity_in-upsert id cart product n (it ∷ items) q h =
    elim (Bool-cases (is_line cart product it)) [
      | inl here ↦ ground (arith, h, here)
      | inr other ↦ ground (arith, h, other, quantity_in-upsert id cart product n items q)
    ]

pub quantity_in-upsert_new :
    (id cart product n : ℕ) (items : List CartItem)
    → quantity_in cart product items ≡ none
    → quantity_in cart product (upsert id cart product n items) ≡ some n
unfolding quantity_in upsert
quantity_in-upsert_new id cart product n [] h = ground arith
quantity_in-upsert_new id cart product n (it ∷ items) h =
    ground (arith, h, quantity_in-upsert_new id cart product n items)
