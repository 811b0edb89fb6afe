-- ===== src/Payments/Recorded.antt =====
-- The row of a failed payment (`applyFailed` of internal/payments/service.go).
use stora_ecommerce.Prelude.{⊤, ◌≡◌, refl, ◌∙◌}
use stora_ecommerce.Schema.{Text, Payment, Db}
use stora_ecommerce.Effect.{Result, ok, err, M, ◌>>◌, send, failed_published}
use stora_ecommerce.Effect.Rely.{IsStep, Rely, Ends}
use stora_ecommerce.Orders.Service.{mark_payment_failed}
use stora_ecommerce.Payments.Service.{backoffs, publish_with_retry}

-- A step that leaves the payments alone.
abbrev pub SamePayments : Db → Db → Type 0
SamePayments a b = b.payments ≡ a.payments

pub SamePayments-IsStep : IsStep SamePayments
SamePayments-IsStep = record { stay = λ a. refl; join = λ a b c f g. g ∙ f }

abbrev Anything : {A : Type 0} → A → Db → Type 0
Anything a db = ⊤

Anything-Ends : {A : Type 0} (r : Result A) (db : Db) → Ends Anything r db
Anything-Ends (ok a) db = tt
Anything-Ends (err e) db = tt

-- What follows the update of the row.
after_update : Payment → Text → Text → M ⊤
after_update x code message =
    mark_payment_failed x.order_id
    >> publish_with_retry backoffs
        (send (failed_published x.order_id x.stripe_payment_intent_id x.amount_cents code message))
