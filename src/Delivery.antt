-- ===== src/Delivery.antt =====
-- The delivery service as the checkout's rater (internal/delivery/service.go and repository.go).
use stora_ecommerce.Prelude.{ℕ, ◌&&◌, Option, none, some, List, [], ◌∷◌, if◌then◌else◌}
use stora_ecommerce.Schema.{Text, DeliveryOption}
use stora_ecommerce.Effect.{ok, M, query}
use stora_ecommerce.Strings.{text_eq}
use stora_ecommerce.Orders.Conserve.Table.{Runs}
use stora_ecommerce.Cart.Conserve.Statements.{reads}

unfoldable pub active_rate : Text → List DeliveryOption → Option ℕ
active_rate code [] = none
active_rate code (o ∷ os) =
    if text_eq o.code code && o.active then some o.price_cents else active_rate code os

-- `Rate`, `RateByCode`: no active row of that code is no error.
unfoldable pub rate_by_code : Text → M (Option ℕ)
rate_by_code code = query (λ env t db. (ok (active_rate code db.delivery_options), db))

pub rate_by_code-Conserves : (p : ℕ) (code : Text) → Runs p (rate_by_code code)
unfolding rate_by_code
rate_by_code-Conserves p code = reads p (λ env t db. ok (active_rate code db.delivery_options))
