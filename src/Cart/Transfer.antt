-- ===== src/Cart/Transfer.antt =====
-- A line that a merge transfers (`transferItems` of internal/cart/service.go).
use stora_ecommerce.Prelude.{ℕ, ◌+◌, ◌≤◌, ◌≡◌, ◌⊎◌, Option, none, some}
use stora_ecommerce.Schema.{Cart}
use stora_ecommerce.Effect.Quiet.{Quiet}

-- How many units a cart has where it has a line, and where it has none.
abbrev pub in_cart : Option ℕ → ℕ
in_cart none = 0
in_cart (some q) = q

-- A line that has got what fits of `want` units beside the `have` units before: within the stock,
-- and either all of them went or the stock is full.
abbrev pub Topped : ℕ → ℕ → ℕ → Option ℕ → Type 0
Topped stock have want none = ⊥
Topped stock have want (some q) =
    (have ≤ q) × (q ≤ have + want) × (q ≤ stock) × ((q ≡ have + want) ⊎ (q ≡ stock))
