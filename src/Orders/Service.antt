-- ===== src/Orders/Service.antt =====
-- The order life cycle (internal/orders/service.go), less checkout.
use stora_ecommerce.Prelude.{
  ℕ, ◌+◌, ⊤, Bool, true, false, not, ◌&&◌, ◌||◌, Option, none, some, List, [], ◌∷◌, is_none,
  if◌then◌else◌,
}
use stora_ecommerce.Schema.{Text, OrderStatus, OrderItem, OrderRow}
use stora_ecommerce.Schema.{
  pending_payment, paid, payment_failed, processing, shipped, delivered, cancelled, refunded,
}
use stora_ecommerce.Effect.{
  Err, Result, ok, err, M, pure, raise, ◌>>=◌, ◌>>◌, raise_if, attempt, send, with_tx,
  purchase_logged, orders_forbidden, not_cancellable, refund_unavailable, payment_in_flight,
}
use stora_ecommerce.Orders.Table.{status_eq, transition_status, tx_transition_status}
use stora_ecommerce.Orders.Stock.{restock}
use stora_ecommerce.Orders.Model.{OrderResponse, ownership_ok, decrypt_order, decrypt_address}
use stora_ecommerce.Orders.Repository.{Loaded, get_by_id, items_for_restock, stale_pending_orders}

-- What main.go injects, each `none` where the field of the service is nil: `refunder`,
-- `reconciler`, `canceller` and `rater`. Whether there is an activity logger is an argument of
-- `mark_paid`.
pub record Deps : Type 0 where
  pub refunder : Option (ℕ → M ⊤)
  pub reconciler : Option (ℕ → M ⊤)
  pub canceller : Option (ℕ → M ⊤)
  pub rater : Option (Text → M (Option ℕ))

unfoldable pub respond : Loaded → M OrderResponse
respond l = do
  order ← decrypt_order l.row
  address ← decrypt_address l.address
  pure (record { order = order; items = l.items; address = address })

-- `loadOwned`
unfoldable pub load_owned : Option ℕ → Option ℕ → ℕ → M OrderResponse
load_owned user guest id = do
  l ← get_by_id id
  raise_if (not (ownership_ok l.row user guest)) orders_forbidden
  respond l

-- `LoadByID`, `AdminGet`
unfoldable pub load_by_id : ℕ → M OrderResponse
load_by_id id = do l ← get_by_id id; respond l

-- The fresh order, or the stale one where it cannot be read.
abbrev pub or_stale : OrderResponse → Result OrderResponse → OrderResponse
or_stale stale (ok fresh) = fresh
or_stale stale (err e) = stale

abbrev pub reload_after : Option ℕ → Option ℕ → ℕ → OrderResponse → Result ⊤ → M OrderResponse
reload_after user guest id stale (err e) = pure stale
reload_after user guest id stale (ok _) = do
  fresh ← attempt (load_owned user guest id)
  pure (or_stale stale fresh)

abbrev pub reconcile_with :
    Option (ℕ → M ⊤) → Option ℕ → Option ℕ → ℕ → OrderResponse → M OrderResponse
reconcile_with none user guest id resp = pure resp
reconcile_with (some reconcile) user guest id resp = do
  outcome ← attempt (reconcile id)
  reload_after user guest id resp outcome

-- `GetByID`: a pending order is reconciled first.
unfoldable pub get_order : Deps → Option ℕ → Option ℕ → ℕ → M OrderResponse
get_order deps user guest id = do
  resp ← load_owned user guest id
  if status_eq resp.order.status pending_payment
      then reconcile_with deps.reconciler user guest id resp
      else pure resp

unfoldable pub cancellable : OrderStatus → Bool
cancellable status = status_eq status pending_payment || status_eq status paid

-- The call of the injected refunder.
unfoldable pub refund_through : Option (ℕ → M ⊤) → ℕ → M ⊤
refund_through none id = raise refund_unavailable
refund_through (some refund) id = refund id

abbrev pub refund_if : Bool → Option (ℕ → M ⊤) → ℕ → M ⊤
refund_if true refunder id = refund_through refunder id
refund_if false refunder id = pure tt

-- The transaction of every way to give stock back: the compare-and-set first, then the items.
-- A lost race is the given error.
unfoldable pub release : ℕ → OrderStatus → OrderStatus → Err → List OrderItem → M ⊤
release id from to lost items = do
  moved ← tx_transition_status id from to
  raise_if (not moved) lost
  restock items

-- The same where a lost race is no error; the answer is whether this call moved the order.
abbrev pub restock_if : Bool → List OrderItem → M Bool
restock_if true items = restock items >> pure true
restock_if false items = pure false

unfoldable pub release_if : ℕ → OrderStatus → OrderStatus → List OrderItem → M Bool
release_if id from to items = do moved ← tx_transition_status id from to; restock_if moved items

abbrev pub terminal_status : Bool → OrderStatus
terminal_status was_paid = if was_paid then refunded else cancelled

unfoldable pub cancel : Deps → Option ℕ → Option ℕ → ℕ → M OrderResponse
cancel deps user guest id = do
  l ← get_by_id id
  raise_if (not (ownership_ok l.row user guest)) orders_forbidden
  raise_if (not (cancellable l.row.status)) not_cancellable
  refund_if (status_eq l.row.status paid) deps.refunder id
  items ← items_for_restock id
  with_tx (
      release id l.row.status (terminal_status (status_eq l.row.status paid)) not_cancellable items)
  get_order deps user guest id

-- `activity.record`: nothing without an owner, and a failure is swallowed.
abbrev pub log_purchase : OrderRow → Option ℕ → M ⊤
log_purchase row none = pure tt
log_purchase row (some p) =
    if is_none row.user_id && is_none row.guest_session_id
    then pure tt
    else (attempt (send (purchase_logged row.user_id row.guest_session_id p)) >> pure tt)

unfoldable pub log_items : OrderRow → List OrderItem → M ⊤
log_items row [] = pure tt
log_items row (it ∷ items) = log_purchase row it.product_id >> log_items row items

abbrev pub log_loaded : Result Loaded → M ⊤
log_loaded (err e) = pure tt
log_loaded (ok l) = log_items l.row l.items

unfoldable pub log_purchases : Bool → ℕ → M ⊤
log_purchases activity id = if activity then (attempt (get_by_id id) >>= log_loaded) else pure tt

-- `isPostPaymentStatus`
unfoldable pub is_post_payment : OrderStatus → Bool
is_post_payment paid = true
is_post_payment processing = true
is_post_payment shipped = true
is_post_payment delivered = true
is_post_payment _ = false

abbrev pub paid_or_check : Bool → ℕ → Bool → M Bool
paid_or_check activity id true = log_purchases activity id >> pure true
paid_or_check activity id false = do l ← get_by_id id; pure (is_post_payment l.row.status)

unfoldable pub mark_paid : Bool → ℕ → M Bool
mark_paid activity id = do
  moved ← transition_status id pending_payment paid
  paid_or_check activity id moved

unfoldable pub mark_payment_failed : ℕ → M ⊤
mark_payment_failed id = do
  items ← items_for_restock id
  with_tx (release_if id pending_payment payment_failed items)
  pure tt

abbrev pub is_in_flight : Err → Bool
is_in_flight payment_in_flight = true
is_in_flight _ = false

abbrev pub reconcile_stuck : Option (ℕ → M ⊤) → ℕ → M ⊤
reconcile_stuck none id = pure tt
reconcile_stuck (some reconcile) id = attempt (reconcile id) >> pure tt

abbrev pub count_if : Result Bool → ℕ
count_if (ok true) = 1
count_if (ok false) = 0
count_if (err e) = 0

-- One order of the reaper, once its intents are void: how many orders it released, 0 or 1.
unfoldable pub release_stale : ℕ → M ℕ
release_stale id = do
  outcome ←
      attempt
        (do items ← items_for_restock id; with_tx (release_if id pending_payment cancelled items))
  pure (count_if outcome)

abbrev pub after_void : Deps → ℕ → Result ⊤ → M ℕ
after_void deps id (ok _) = release_stale id
after_void deps id (err e) =
    if is_in_flight e then (reconcile_stuck deps.reconciler id >> pure 0) else pure 0

abbrev pub void_intents : Option (ℕ → M ⊤) → ℕ → M ⊤
void_intents none id = pure tt
void_intents (some void) id = void id

unfoldable pub expire_one : Deps → ℕ → M ℕ
expire_one deps id = do voided ← attempt (void_intents deps.canceller id); after_void deps id voided

unfoldable pub expire_each : Deps → List ℕ → M ℕ
expire_each deps [] = pure 0
expire_each deps (id ∷ ids) = do
  n ← expire_one deps id
  rest ← expire_each deps ids
  pure (n + rest)

unfoldable pub expire_stale_checkouts : Deps → ℕ → ℕ → M ℕ
expire_stale_checkouts deps older_than limit = do
  ids ← stale_pending_orders older_than limit
  expire_each deps ids
