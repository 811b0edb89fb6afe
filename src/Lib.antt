-- ===== src/Lib.antt =====
-- Stora's orders, payments, carts and accounts: the parts of the shop that move stock and money and
-- that guard its users, modelled from its Go sources, with the theorems on them.
--
-- The program. `internal/cart` keeps carts of users and guests. `internal/orders` turns a cart into
-- an order: checkout locks every product, takes the stock and writes the order in one transaction;
-- cancellation, a failed payment, a refund and the reaper of abandoned checkouts give the stock back,
-- each after a compare-and-set on the status of the order. `internal/payments` creates Stripe intents
-- and hears of their outcome by webhook or by asking Stripe; it calls orders to mark an order paid or
-- failed, and orders calls it, through adapters that `cmd/api/main.go` injects, to refund, to
-- reconcile and to void intents; its events reach `internal/notifications` through the broker and the
-- consumer of `internal/messaging`. `internal/auth` signs users in, with a second factor, rotates
-- their refresh tokens and resets passwords; `internal/user` keeps the accounts and calls auth to
-- revoke sessions. `internal/crypto` encrypts personal data at rest. Around these stand saved
-- addresses, delivery rates, reviews, recommendations, the cache and the rate limiter.
--
-- The files.
--   Prelude         names and lemmas that all share; Strings has the text functions of Go's library
--                   that several services call
--   Schema          the rows of the tables (the model.go files)
--   Effect          results, errors, the outside, transactions (`WithTx`); Effect/Rely has the rules
--                   for actions among concurrent requests, Effect/Hoare those for what results an
--                   action can end with and Effect/Moves those for what its writes do; Effect/Silent
--                   and Effect/Quiet those for actions that write nothing
--   Crypto          internal/crypto/aes.go: `Encrypt` is `encrypt`, `Decrypt` is `decrypt`
--   Cart            internal/cart: Repository and Service; AddItem is `add_to_cart`, UpdateItem
--                   `update_cart_item`, RemoveItem `remove_from_cart`. The files under Conserve,
--                   and Totals, Bounds, Added and Transfer, hold proofs
--   Orders          internal/orders: Table, Stock and Repository are repository.go; Model, Service
--                   and Checkout are model.go and service.go; Admin is admin.go; GetByID of the
--                   service is `get_order`, of the repository `get_by_id`. The files under Conserve,
--                   and Released, Ownership, Pricing, Lookup and Checkout/Normal, hold
--                   proofs
--   Payments        internal/payments: Repository, Service and Intent (`CreateIntent`); Publish,
--                   Replay, Recorded and the files under Conserve hold proofs
--   Auth            internal/auth: Fields has the hexadecimal columns and base32, Repository and
--                   TwoFactorRows the statements, Service `Login`, `RefreshTokens` and `Logout`,
--                   Reset `ForgotPassword` and `ResetPassword`, TwoFactor `Setup2FA`, `Enable2FA`
--                   and `Disable2FA`, Requests all of these with the requests on accounts. The
--                   other files hold proofs
--   User            internal/user: Repository, and Service with `Register`, `UpdateProfile`,
--                   `ChangePassword`, `AdminListUsers` and `AdminSetRole`; Registered and LastAdmin
--                   hold proofs
--   PasswordPolicy  internal/passwordpolicy
--   Address         internal/address, with normalisation and repository in one file
--   Review          internal/review: `Create` and `Eligibility`; Votes, Listing and Moderation have the
--                   other operations, Eligible holds a proof
--   Recommend       the ranking of internal/recommend after the scores
--   Messaging       the attempts of internal/messaging/consumer.go and the e-mail consumer of
--                   internal/notifications
--   Cache           internal/cache/memory.go
--   RateLimit       the token bucket script of internal/middleware/ratelimit_redis.go
--   Delivery        the `Rate` of internal/delivery
--   App             the wiring of cmd/api/main.go and sequences of requests
--   Tests           a small shop, on which the theorems are applied and whole requests evaluated
--
-- How it is modelled. An action `M A` takes the outside (`Env`) and a `World`: the tables, the
-- number of the next call, and what was sent to Stripe, to the broker, by mail and to the activity
-- log. It ends with a result or an error, and a new world. The outside answers by the number of the
-- call: whether it fails, what concurrent requests have committed just before, the time, new ids,
-- the state of an intent at Stripe, whether a result set breaks off; bcrypt, TOTP, SHA-256, the
-- HMAC and the JWT library are functions of it. A theorem over every `Env` therefore holds for
-- every fault and every interleaving of statements outside transactions. Inside a transaction no
-- other request is seen: the transactions of orders and carts lock the rows that they use, the
-- COUNT(*) of a new saved address does not. A transaction whose body fails is rolled back, its
-- statements being all that the body does to the tables; of one whose commit reports a failure the
-- outside decides whether it has taken place. What concurrent requests may do is a relation on
-- tables that theorems assume of them and prove of the action (`Rely`, `Triple`, `Moves`);
-- `Conserves p` is the one for the stock of product `p`: `level`, the units on hand and in orders
-- whose status holds stock, stays, no order loses an item, and every payment keeps its order. Edits
-- of a product's stock by an administrator are not among the concurrent steps.
--
-- Identifiers, Stripe ids and times are numbers; text and ciphertext are lists of bytes, a password
-- that the policy reads is a list of code points of valid UTF-8; an `int64` amount is its 64-bit
-- pattern, which `signed` reads, and the `int` columns have their check and their bound. The rate
-- limiter counts in whole parts of a token and of a second, at a rate that is a fraction, without
-- the rounding of floating point; scores of recommendations are numbers that are given. Loops are
-- structural on their lists; the publishing loop is structural on the number of backoffs that are
-- left, which is 3, and so are the attempts of a delivery. No fuel is used.
--
-- Not modelled: the functions of Strings know the blanks and the case of ASCII only, where Go's
-- know those of Unicode; the struct validator, the geocoder and the cipher are arguments; HTTP,
-- metrics, logging and tracing are left out; so are the lists of orders, the trigger that copies
-- ratings into products, the QR image of two-factor set-up, the scoring of recommendations, the
-- text of mails, the catalogue and the other packages of internal/. The payment columns that the
-- program encrypts and looks up by HMAC hold their plain values.
pub mod Prelude
pub mod Schema
pub mod Effect
pub mod Strings
pub mod Crypto
pub mod PasswordPolicy
pub mod Auth
pub mod User
pub mod Cache
pub mod RateLimit
pub mod Messaging
pub mod Address
pub mod Review
pub mod Recommend
pub mod Cart
pub mod Orders
pub mod Payments
pub mod Delivery
pub mod App
pub mod Tests
