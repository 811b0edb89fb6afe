-- ===== src/Orders/Conserve/Marks.antt =====
-- The entry points that the payments service calls (`MarkPaid`, `MarkPaymentFailed`) as steps on the
-- stock.
use stora_ecommerce.Prelude.{
  ℕ, ◌≡◌, refl, ⊤, Bool, true, false, Option, none, some, List, [], ◌∷◌, is_none, ◌&&◌,
  if◌then◌else◌,
}
use stora_ecommerce.Schema.{OrderStatus, OrderItem, OrderRow}
use stora_ecommerce.Schema.{pending_payment, paid, payment_failed}
use stora_ecommerce.Effect.{Result, ok, err, M, pure, ◌>>=◌, ◌>>◌, attempt, send, purchase_logged}
use stora_ecommerce.Effect.Rely.{Triple, Triple-query, Triple-weaken}
use stora_ecommerce.Effect.Silent.{
  Silent, Silent-pure, Silent-bind, Silent-attempt, Silent-send, Triple-Silent,
}
use stora_ecommerce.Orders.Table.{transition, transition_status}
use stora_ecommerce.Orders.Stock.{holds_stock}
use stora_ecommerce.Orders.Repository.{Loaded, get_by_id}
use stora_ecommerce.Orders.Service.{
  log_purchase, log_items, log_loaded, log_purchases, is_post_payment, paid_or_check, mark_paid,
  mark_payment_failed, release_if,
}
use stora_ecommerce.Orders.Conserve.Table.{
  Known, Linked, Linked-Stable, Runs, Conserves, Conserves-IsStep, transition-Conserves,
}
use stora_ecommerce.Orders.Conserve.Release.{release_if-Body}
use stora_ecommerce.Orders.Conserve.Reads.{get_by_id-Known, restock_then}
use stora_ecommerce.Orders.Conserve.Loads.{Runs-bind, Runs-pure, Runs-attempt}

Silent-log_purchase : (row : OrderRow) (product : Option ℕ) → Silent (log_purchase row product)
Silent-log_purchase row none = Silent-pure tt
Silent-log_purchase row (some p) = go (is_none row.user_id && is_none row.guest_session_id)
  where
    msg : M ⊤
    msg = send (purchase_logged row.user_id row.guest_session_id p)

    go : (b : Bool) → Silent (if b then pure tt else (attempt msg >> pure tt))
    go true = Silent-pure tt
    go false =
        Silent-bind (attempt msg) (λ _. pure tt) (Silent-attempt msg (Silent-send _))
          (λ _. Silent-pure tt)

Silent-log_items : (row : OrderRow) (items : List OrderItem) → Silent (log_items row items)
unfolding log_items
Silent-log_items row [] = Silent-pure tt
Silent-log_items row (it ∷ items) =
    Silent-bind (log_purchase row it.product_id) (λ _. log_items row items)
      (Silent-log_purchase row it.product_id) (λ _. Silent-log_items row items)

module _ (p : ℕ) where
  Runs-get_by_id : (id : ℕ) → Runs p (get_by_id id)
  Runs-get_by_id id =
      Triple-weaken (Conserves-IsStep p) (λ l. Known id) (λ _. Linked) (get_by_id id)
        (get_by_id-Known p id) (λ l db h. h.1.1)

  Runs-log_loaded : (r : Result Loaded) → Runs p (log_loaded r)
  Runs-log_loaded (ok l) =
      Triple-Silent (Conserves-IsStep p) (log_items l.row l.items) (Silent-log_items l.row l.items)
  Runs-log_loaded (err e) = Runs-pure p tt

  Runs-log_purchases : (activity : Bool) (id : ℕ) → Runs p (log_purchases activity id)
  unfolding log_purchases
  Runs-log_purchases activity id = go activity
    where
      go : (b : Bool) → Runs p (if b then (attempt (get_by_id id) >>= log_loaded) else pure tt)
      go true =
          Runs-bind p (attempt (get_by_id id)) log_loaded
            (Runs-attempt p (get_by_id id) (Runs-get_by_id id)) Runs-log_loaded
      go false = Runs-pure p tt

  pub transition_status-Conserves :
      (id : ℕ) (from to : OrderStatus)
      → holds_stock from ≡ holds_stock to
      → Runs p (transition_status id from to)
  unfolding transition_status
  transition_status-Conserves id from to same =
      Triple-query (Conserves-IsStep p) (λ _. Linked)
        (λ env t db. let (moved, db') = transition id from to (env.now t) db in (ok moved, db'))
        (Linked-Stable p)
        (λ env t db rely x.
          let step = transition-Conserves p id from to (env.now t) db same in (step, step.linked x))

  paid_or_check-Runs :
      (activity : Bool) (id : ℕ) (moved : Bool) → Runs p (paid_or_check activity id moved)
  paid_or_check-Runs activity id true =
      Runs-bind p (log_purchases activity id) (λ _. pure true) (Runs-log_purchases activity id)
        (λ _. Runs-pure p true)
  paid_or_check-Runs activity id false =
      Runs-bind p (get_by_id id) (λ l. pure (is_post_payment l.row.status)) (Runs-get_by_id id)
        (λ l. Runs-pure p (is_post_payment l.row.status))

  pub mark_paid-Conserves : (activity : Bool) (id : ℕ) → Runs p (mark_paid activity id)
  unfolding mark_paid
  mark_paid-Conserves activity id =
      Runs-bind p (transition_status id pending_payment paid) (paid_or_check activity id)
        (transition_status-Conserves id pending_payment paid refl) (paid_or_check-Runs activity id)

  pub mark_payment_failed-Conserves :
      (id : ℕ) → Triple (Conserves p) (Known id) (mark_payment_failed id) (λ _. Linked)
  unfolding mark_payment_failed
  mark_payment_failed-Conserves id =
      restock_then p id (release_if id pending_payment payment_failed) (λ _. pure tt)
        (λ items. release_if-Body p id pending_payment payment_failed items refl refl)
        (λ _. Runs-pure p tt)
