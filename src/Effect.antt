-- ===== src/Effect.antt =====
-- How a service runs: what it returns (`error` values of every internal/ package), what it asks of
-- the outside, and the state that it changes. The outside is a record of answers indexed by the
-- number of the call, so a theorem over every `Env` holds for every fault, every answer of Stripe
-- and every interleaving with other requests.
pub mod Rely
pub mod Silent
pub mod Quiet
pub mod Hoare
pub mod Moves
use stora_ecommerce.Prelude.{
  ℕ, ◌+◌, ⊤, Bool, true, false, Option, none, some, take, List, [], ◌∷◌, ◌++◌, if◌then◌else◌,
}
use stora_ecommerce.Schema.{Text, Bytes, Db}

-- The sentinel errors of internal/orders, internal/payments, internal/cart, internal/user,
-- internal/auth, internal/address and internal/review. `infra` is any
-- other error: a database, network or driver failure. Wrapping with `%w` keeps what `errors.Is`
-- sees, so a wrapped error is the error itself.
pub data Err : Type 0 where
  order_not_found cart_empty stock_changed not_cancellable orders_forbidden orders_no_owner : Err
  invalid_shipping refund_unavailable invalid_status not_refundable payment_in_flight : Err
  address_not_verifiable address_verification_unavailable validation : Err
  payment_not_found invalid_order_status payments_forbidden signature_mismatch cannot_refund : Err
  intent_not_cancellable unmarshal : Err
  cart_not_found item_not_found out_of_stock cart_no_owner invalid_strategy product_not_found : Err
  email_exists user_not_found captcha_invalid invalid_role last_admin wrong_password : Err
  no_password name_too_long weak_password : Err
  invalid_credentials invalid_token expired_token token_revoked token_used token_not_found : Err
  reset_token_not_found reset_token_used reset_token_expired : Err
  two_factor_not_enabled two_factor_already_enabled invalid_two_factor_code : Err
  two_factor_required bad_hex unknown_routing_key address_not_found : Err
  review_not_found already_reviewed not_purchased invalid_review_status : Err
  ciphertext_too_short decrypt_failed infra : Err

pub data Result (A : Type 0) : Type 0 where
  ok : A → Result A
  err : Err → Result A

-- What Stripe reports of a PaymentIntent (its `status` string).
pub data IntentState : Type 0 where
  succeeded canceled requires_payment_method requires_confirmation requires_action : IntentState
  processing other_state : IntentState

pub record IntentStatus : Type 0 where
  pub state : IntentState
  pub last_error_code : Text
  pub last_error_msg : Text
  pub client_secret : Text

-- What the JWT library makes of a token: its subject, or one of the two errors that the code tells
-- apart.
pub data JwtCheck : Type 0 where
  subject : ℕ → JwtCheck
  jwt_expired jwt_invalid : JwtCheck

-- The mails, without their wording: the link of a password reset, and what internal/notifications
-- writes of an order, by its number, with the code and the message of a failure.
pub data Mail : Type 0 where
  reset_link payment_received : Text → Mail
  payment_failed_mail : Text → Text → Text → Mail

-- What leaves the process, in order.
pub data Message : Type 0 where
  -- a purchase row of user_activity: user, guest session, product
  purchase_logged : Option ℕ → Option ℕ → ℕ → Message
  cart_add_logged : Option ℕ → Option ℕ → ℕ → Message
  -- order, intent, amount
  succeeded_published : ℕ → ℕ → ℕ → Message
  failed_published : ℕ → ℕ → ℕ → Text → Text → Message
  -- intent, idempotency key
  refund_requested : ℕ → ℕ → Message
  -- order, amount
  intent_requested : ℕ → ℕ → Message
  cancel_requested : ℕ → Message
  -- recipient, content
  mail_sent : Text → Mail → Message

-- What the outside answers to the call with a given number. `others` is what concurrent requests
-- commit just before the call; `cut` says after how many rows a result set breaks off, which a
-- reader sees only if it asks `rows.Err()`.
pub record Env : Type 0 where
  pub fault : ℕ → Bool
  pub others : ℕ → Db → Db
  pub cut : ℕ → Option ℕ
  pub now : ℕ → ℕ
  pub fresh_id : ℕ → ℕ
  -- the default of an id column
  pub default_id : ℕ → ℕ
  pub order_number : ℕ → Text
  pub nonce : ℕ → Bytes
  pub seal : Bytes → Bytes → Bytes
  pub open_sealed : Bytes → Bytes → Option Bytes
  pub intent : ℕ → ℕ → IntentStatus
  pub cancel_refused : ℕ → Bool
  pub new_intent_id : ℕ → ℕ
  pub new_client_secret : ℕ → Text
  pub refund_id : ℕ → ℕ
  -- SHA-256 in hexadecimal, and the keyed index of internal/crypto
  pub digest : Text → Bytes
  pub hmac : Text → Bytes
  -- bcrypt, TOTP and JWT
  pub password_matches : Text → Text → Bool
  pub password_hash : ℕ → Text → Option Text
  pub totp_valid : ℕ → Text → Text → Bool
  pub totp_secret : ℕ → Option Text
  pub access_token : ℕ → ℕ → Text → Text → Option Text
  pub refresh_token : ℕ → ℕ → Option Text
  pub refresh_claims : ℕ → Text → JwtCheck
  pub random : ℕ → Bytes
  pub captcha_ok : ℕ → Text → Bool
  -- whether the process is shutting down
  pub stopped : ℕ → Bool
  -- Whether a commit that reports a failure has taken place all the same.
  pub committed : ℕ → Bool

pub record World : Type 0 where
  pub db : Db
  pub tick : ℕ
  pub outbox : List Message

abbrev pub M : Type 0 → Type 0
M A = Env → World → Result A × World

module _ {A : Type 0} where
  abbrev pub pure : A → M A
  pure a env w = (ok a, w)

  abbrev pub raise : Err → M A
  raise e env w = (err e, w)

  abbrev pub lift : Result A → M A
  lift r env w = (r, w)

infixl 5 ◌>>=◌ ◌>>◌
abbrev pub ◌>>=◌ : {A B : Type 0} → M A → (A → M B) → M B
◌>>=◌ m f env w = let (r, w') = m env w in elim r [ ok a ↦ f a env w' | err e ↦ (err e, w') ]

abbrev pub ◌>>◌ : {A B : Type 0} → M A → M B → M B
m >> k = m >>= λ _. k

-- `if cond { return err }`
abbrev pub raise_if : Bool → Err → M ⊤
raise_if true e = raise e
raise_if false e = pure tt

-- `a, err := m`, for code that looks at the error.
abbrev pub attempt : {A : Type 0} → M A → M (Result A)
attempt m env w = let (r, w') = m env w in (ok r, w')

-- A statement inside a transaction, or a call that reads no table. A fault leaves no trace.
abbrev pub stmt : {A : Type 0} → (Env → ℕ → Db → Result A × Db) → M A
stmt f env w =
    if env.fault w.tick
    then (err infra, record w { tick = w.tick + 1 })
    else (let (r, db') = f env w.tick w.db in (r, record w { db = db'; tick = w.tick + 1 }))

-- What other requests have committed by now.
abbrev pub interleave : M ⊤
interleave env w = (ok tt, record w { db = env.others w.tick w.db })

-- A statement of its own on the pool.
abbrev pub query : {A : Type 0} → (Env → ℕ → Db → Result A × Db) → M A
query f = interleave >> stmt f

-- The rows that a loop over `rows.Next()` sees.
abbrev pub rows_seen : {A : Type 0} → Option ℕ → List A → List A
rows_seen none rows = rows
rows_seen (some n) rows = take n rows

-- The same, closed by `rows.Err()`.
abbrev pub rows_checked : {A : Type 0} → Option ℕ → List A → Result (List A)
rows_checked none rows = ok rows
rows_checked (some n) rows = err infra

-- A message to the outside; a fault means that it was not accepted.
abbrev pub send : Message → M ⊤
send msg env w =
    if env.fault w.tick
    then (err infra, record w { tick = w.tick + 1 })
    else (ok tt, record w { tick = w.tick + 1; outbox = w.outbox ++ msg ∷ [] })

-- How a transaction ends: committed, or rolled back to what it began with; of a commit that reports a
-- failure the program does not know which.
abbrev pub finish_tx : {A : Type 0} → Db → Result A → M A
finish_tx before (ok a) env w =
    if env.fault w.tick
    then (
      err infra,
      record w { db = if env.committed w.tick then w.db else before; tick = w.tick + 1 },
    )
    else (ok a, record w { tick = w.tick + 1 })
finish_tx before (err e) env w = (err e, record w { db = before })

-- `WithTx`: begin, run, commit; an error of the body rolls back. The statements of a transaction lock the
-- rows that they use, so other requests are seen before it and not inside it.
abbrev pub run_tx : {A : Type 0} → M A → M A
run_tx body env w = let (r, w') = body env w in finish_tx w.db r env w'

abbrev pub with_tx : {A : Type 0} → M A → M A
with_tx body = query (λ env t db. (ok tt, db)) >> run_tx body

-- A look at the outside that is no call of its own.
abbrev pub here : {A : Type 0} → (Env → ℕ → A) → M A
here f env w = (ok (f env w.tick), w)

-- A request to the outside, made while others are at work.
abbrev pub request : Message → M ⊤
request msg = interleave >> send msg
