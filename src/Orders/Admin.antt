-- ===== src/Orders/Admin.antt =====
-- Admin operations on orders (internal/orders/admin.go).
use stora_ecommerce.Prelude.{ℕ, Bool, true, false, not, Option, none, some, if◌then◌else◌}
use stora_ecommerce.Schema.{OrderStatus}
use stora_ecommerce.Schema.{
  pending_payment, paid, processing, shipped, delivered, cancelled, refunded,
}
use stora_ecommerce.Effect.{
  M, raise, ◌>>=◌, ◌>>◌, raise_if, with_tx, invalid_status, not_cancellable, not_refundable,
}
use stora_ecommerce.Orders.Table.{status_eq, transition_status}
use stora_ecommerce.Orders.Model.{OrderResponse}
use stora_ecommerce.Orders.Repository.{get_by_id, items_for_restock}
use stora_ecommerce.Orders.Service.{Deps, load_by_id, release, refund_through}

-- `adminSettableStatuses`
unfoldable pub settable : OrderStatus → Bool
settable processing = true
settable shipped = true
settable delivered = true
settable cancelled = true
settable _ = false

unfoldable pub cancel_unpaid : ℕ → M OrderResponse
cancel_unpaid id = do
  items ← items_for_restock id
  with_tx (release id pending_payment cancelled not_cancellable items)
  load_by_id id

unfoldable pub advance : ℕ → OrderStatus → OrderStatus → M OrderResponse
advance id from to = do
  moved ← transition_status id from to
  raise_if (not moved) invalid_status
  load_by_id id

abbrev pub set_from : ℕ → OrderStatus → OrderStatus → M OrderResponse
set_from id from to =
    if status_eq to cancelled
    then (raise_if (not (status_eq from pending_payment)) not_cancellable >> cancel_unpaid id)
    else advance id from to

-- `AdminUpdateStatus`; a request for a string that is no status is `none`.
unfoldable pub admin_update_status : ℕ → Option OrderStatus → M OrderResponse
admin_update_status id none = raise invalid_status
admin_update_status id (some to) = do
  raise_if (not (settable to)) invalid_status
  l ← get_by_id id
  set_from id l.row.status to

unfoldable pub refundable : OrderStatus → Bool
refundable paid = true
refundable processing = true
refundable shipped = true
refundable delivered = true
refundable _ = false

unfoldable pub admin_refund : Deps → ℕ → M OrderResponse
admin_refund deps id = do
  l ← get_by_id id
  raise_if (not (refundable l.row.status)) not_refundable
  refund_through deps.refunder id
  items ← items_for_restock id
  with_tx (release id l.row.status refunded not_refundable items)
  load_by_id id
