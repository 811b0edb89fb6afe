-- ===== src/Orders/Conserve/Loads.antt =====
-- Loading an order, with the reconciliation of a pending one, as a step on the stock.
use stora_ecommerce.Prelude.{ℕ, ◌≡◌, refl, sym, ⊤, not, Option, none, some}
use stora_ecommerce.Schema.{Text}
use stora_ecommerce.Schema.{pending_payment}
use stora_ecommerce.Effect.{
  Result, ok, err, M, pure, ◌>>=◌, attempt, refund_unavailable, orders_forbidden,
}
use stora_ecommerce.Effect.Rely.{
  Ends, Triple, Triple-bind, Triple-raise, Triple-pure, Triple-pre, Triple-weaken, Triple-frame,
  Triple-attempt, Triple-raise_if, Triple-if,
}
use stora_ecommerce.Effect.Silent.{Triple-Silent}
use stora_ecommerce.Orders.Table.{status_eq}
use stora_ecommerce.Orders.Model.{OrderResponse, ownership_ok}
use stora_ecommerce.Orders.Repository.{Loaded, get_by_id}
use stora_ecommerce.Orders.Service.{
  Deps, respond, load_owned, load_by_id, reload_after, reconcile_with, or_stale, get_order,
  refund_through,
}
use stora_ecommerce.Orders.Silent.{Silent-respond}
use stora_ecommerce.Orders.Conserve.Table.{
  Known, Linked, Linked-Stable, Runs, Conserves, Conserves-IsStep,
}
use stora_ecommerce.Orders.Conserve.Reads.{Known-Stable, get_by_id-Known}

-- What the injected services promise: each conserves.
pub record DepsConserve (p : ℕ) (deps : Deps) : Type 0 where
  pub refunder : (f : ℕ → M ⊤) → deps.refunder ≡ some f → (id : ℕ) → Runs p (f id)
  pub reconciler : (f : ℕ → M ⊤) → deps.reconciler ≡ some f → (id : ℕ) → Runs p (f id)
  pub canceller : (f : ℕ → M ⊤) → deps.canceller ≡ some f → (id : ℕ) → Runs p (f id)
  pub rater : (f : Text → M (Option ℕ)) → deps.rater ≡ some f → (code : Text) → Runs p (f code)

module _ (p : ℕ) where
  pub Runs-bind :
      {A B : Type 0} (m : M A) (f : A → M B)
      → Runs p m
      → ((a : A) → Runs p (f a))
      → Runs p (m >>= f)
  Runs-bind m f = Triple-bind (Conserves-IsStep p) (λ _. Linked) m f

  pub Runs-pure : {A : Type 0} (a : A) → Runs p (pure a)
  Runs-pure a = Triple-pure (Conserves-IsStep p) (λ _. Linked) a (λ _ h. h)

  pub Runs-attempt : {A : Type 0} (m : M A) → Runs p m → Runs p (attempt m)
  Runs-attempt m h =
      let s = Conserves-IsStep p in
      Triple-weaken s (λ r db. Linked db × Ends (λ _. Linked) r db) (λ _. Linked) (attempt m)
        (Triple-attempt s (λ _. Linked) m (Linked-Stable p) h) (λ a db x. x.0)

  -- Forget what is known of an order.
  pub Triple-any :
      {A : Type 0} (id : ℕ) (m : M A) → Runs p m → Triple (Conserves p) (Known id) m (λ _. Linked)
  Triple-any id m h = Triple-pre (Conserves-IsStep p) Linked (λ _. Linked) m (λ _ x. x.1.1) h

  Runs-respond : (l : Loaded) → Runs p (respond l)
  Runs-respond l = Triple-Silent (Conserves-IsStep p) (respond l) (Silent-respond l)

  pub Runs-load_by_id : (id : ℕ) → Runs p (load_by_id id)
  unfolding load_by_id
  Runs-load_by_id id =
      Triple-bind (Conserves-IsStep p) (λ l. Known id) (get_by_id id) respond (get_by_id-Known p id)
        (λ l. Triple-any id (respond l) (Runs-respond l))

  Runs-load_owned : (user guest : Option ℕ) (id : ℕ) → Runs p (load_owned user guest id)
  unfolding load_owned
  Runs-load_owned user guest id =
      let s = Conserves-IsStep p in
      Triple-bind s (λ l. Known id) (get_by_id id) _ (get_by_id-Known p id)
        λ l.
          Triple-raise_if s (λ _. Linked) (not (ownership_ok l.row user guest)) orders_forbidden
            (respond l) λ own. Triple-any id (respond l) (Runs-respond l)

  reload_after-Runs :
      (user guest : Option ℕ) (id : ℕ) (stale : OrderResponse) (r : Result ⊤)
      → Runs p (reload_after user guest id stale r)
  reload_after-Runs user guest id stale (err e) = Runs-pure stale
  reload_after-Runs user guest id stale (ok _) =
      Runs-bind (attempt (load_owned user guest id)) (λ fresh. pure (or_stale stale fresh))
        (Runs-attempt (load_owned user guest id) (Runs-load_owned user guest id))
        (λ fresh. Runs-pure (or_stale stale fresh))

  reconcile_with-Runs :
      (reconciler : Option (ℕ → M ⊤)) (user guest : Option ℕ) (id : ℕ) (resp : OrderResponse)
      → ((f : ℕ → M ⊤) → reconciler ≡ some f → (id : ℕ) → Runs p (f id))
      → Runs p (reconcile_with reconciler user guest id resp)
  reconcile_with-Runs none user guest id resp h = Runs-pure resp
  reconcile_with-Runs (some reconcile) user guest id resp h =
      Runs-bind (attempt (reconcile id)) (reload_after user guest id resp)
        (Runs-attempt (reconcile id) (h reconcile refl id)) (reload_after-Runs user guest id resp)

  module _ {deps : Deps} (injected : DepsConserve p deps) where
    pub get_order-Runs : (user guest : Option ℕ) (id : ℕ) → Runs p (get_order deps user guest id)
    unfolding get_order
    get_order-Runs user guest id =
        Runs-bind (load_owned user guest id) _ (Runs-load_owned user guest id) λ resp.
          Triple-if (Conserves-IsStep p) (λ _. Linked) (status_eq resp.order.status pending_payment)
            (reconcile_with deps.reconciler user guest id resp) (pure resp)
            (λ _. reconcile_with-Runs deps.reconciler user guest id resp injected.reconciler)
            (λ _. Runs-pure resp)

    -- A call of the refunder, with what is known kept.
    pub refund_through-Known :
        (refunder : Option (ℕ → M ⊤)) (id : ℕ)
        → refunder ≡ deps.refunder
        → Triple (Conserves p) (Known id) (refund_through refunder id) (λ _. Known id)
    unfolding refund_through
    refund_through-Known none id e =
        Triple-raise (Conserves-IsStep p) (λ _. Known id) refund_unavailable
    refund_through-Known (some f) id e =
        let s = Conserves-IsStep p in
        Triple-weaken s (λ _ db. Known id db × Linked db) (λ _. Known id) (f id)
          (Triple-frame s (λ _. Linked) (f id) (Known-Stable p id)
            (Triple-any id (f id) (injected.refunder f (sym e) id)))
          (λ a db x. x.0)
