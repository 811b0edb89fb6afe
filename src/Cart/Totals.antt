-- ===== src/Cart/Totals.antt =====
-- The total of a cart.
use stora_ecommerce.Prelude.{
  ltb, ℕ, ◌+◌, ◌*◌, ◌^◌, ◌<◌, ◌≡◌, true, ap, pos, signed, refl, ◌∙◌, List, [], ◌∷◌, arith,
}
use stora_ecommerce.Cart.Repository.{CartItemDetail}
use stora_ecommerce.Cart.Service.{int64, total_from, to_response}

-- The sum of price times quantity, without a bound.
abbrev pub sum_of : List CartItemDetail → ℕ
sum_of [] = 0
sum_of (it ∷ items) = it.product_price * it.quantity + sum_of items

int64_add : (a b c : ℕ) → int64 (int64 a + int64 b + c) ≡ int64 (a + (b + c))
int64_add a b c = omega arith

total_from_lem :
    (a : ℕ) (items : List CartItemDetail) → total_from (int64 a) items ≡ int64 (a + sum_of items)
unfolding total_from
total_from_lem a [] = omega arith
total_from_lem a (it ∷ items) =
    total_from_lem (int64 a + int64 (it.product_price * it.quantity)) items
    ∙ int64_add a (it.product_price * it.quantity) (sum_of items)

-- The total of a cart, the `int64` that its pattern stands for, is the sum of price times quantity
-- over its lines if that is less than 2 ^ 63.
pub to_response-total :
    (cart : ℕ) (items : List CartItemDetail)
    → sum_of items < 2 ^ 63
    → signed (to_response cart items).total ≡ pos (sum_of items)
unfolding to_response
to_response-total cart items small =
    let e = total_from_lem 0 items in
    let t : (to_response cart items).total ≡ sum_of items = omega (arith, e, small) in
    let below : ltb (sum_of items) (2 ^ 63) ≡ true = ground (arith, small) in
    ap signed t ∙ rw below refl
