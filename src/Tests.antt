-- ===== src/Tests.antt =====
-- A small shop: tables, an outside without faults, and requests on them.
pub mod Conserve
pub mod Behaviour
pub mod Runs
pub mod Auth
pub mod Services
use stora_ecommerce.Prelude.{
  ℕ, ◌+◌, ◌==◌, if◌then◌else◌, ⊤, Bool, true, false, Option, none, some, List, [], ◌∷◌,
}
use stora_ecommerce.Schema.{
  Text, Bytes, OrderStatus, PaymentStatus, Product, OrderItem, AddressRow, OrderRow, OrderEntry,
  Payment, Cart, CartItem, DeliveryOption, Db, UserRow, RefreshToken, PasswordResetToken,
  TwoFactorAuth, SavedAddress, Review, approved, pending_payment, paid, PaymentStatus.pending,
  PaymentStatus.succeeded,
}
use stora_ecommerce.Effect.{Env, World, IntentState, M, pure, subject}
use stora_ecommerce.Strings.{text_eq}
use stora_ecommerce.Auth.Fields.{to_hex}
use stora_ecommerce.User.Repository.{customer}
use stora_ecommerce.Orders.Model.{CheckoutRequest, ShippingAddress}
use stora_ecommerce.Orders.Checkout.{standard}

abbrev pub calm_env : Env
calm_env = record {
  fault = λ t. false;
  others = λ t db. db;
  cut = λ t. none;
  now = λ t. t;
  fresh_id = λ t. 1000 + t;
  default_id = λ t. 2000 + t;
  order_number = λ t. b'N' ∷ [];
  nonce = λ t. 0 ∷ 1 ∷ 2 ∷ 3 ∷ 4 ∷ 5 ∷ 6 ∷ 7 ∷ 8 ∷ 9 ∷ 10 ∷ t ∷ [];
  seal = λ nonce text. text;
  open_sealed = λ nonce bytes. some bytes;
  intent = λ t intent. record {
    state = IntentState.requires_payment_method;
    last_error_code = [];
    last_error_msg = [];
    client_secret = b's' ∷ [];
  };
  cancel_refused = λ t. false;
  new_intent_id = λ t. 500 + t;
  new_client_secret = λ t. b's' ∷ [];
  refund_id = λ t. 700 + t;
  digest = λ token. b'd' ∷ token;
  hmac = λ email. b'h' ∷ email;
  password_matches = λ hash password. text_eq hash password;
  password_hash = λ t password. some password;
  totp_valid = λ t code secret. text_eq code secret;
  totp_secret = λ t. some (b't' ∷ []);
  access_token = λ t user email role. some (b'a' ∷ t ∷ []);
  refresh_token = λ t user. some (b'r' ∷ t ∷ []);
  refresh_claims = λ t token. subject 3;
  random = λ t. 17 ∷ 34 ∷ 51 ∷ 68 ∷ 85 ∷ [];
  captcha_ok = λ t token. true;
  stopped = λ t. false;
  committed = λ t. false;
}

-- What `calm_env` seals under its first nonce.
abbrev pub seal_text : Text → Bytes
seal_text text = 0 ∷ 1 ∷ 2 ∷ 3 ∷ 4 ∷ 5 ∷ 6 ∷ 7 ∷ 8 ∷ 9 ∷ 10 ∷ 0 ∷ text

abbrev pub row : ℕ → OrderStatus → OrderRow
row id status = record {
  id = id;
  order_number = b'N' ∷ [];
  user_id = some 3;
  guest_session_id = none;
  status = status;
  email_enc = [];
  phone_enc = [];
  subtotal_cents = 200;
  shipping_cents = 500;
  total_cents = 700;
  shipping_method = standard;
  created_at = 0;
  updated_at = 0;
}

abbrev pub item : ℕ → ℕ → OrderItem
item order_id n = record {
  id = 20 + order_id;
  order_id = order_id;
  product_id = some 7;
  product_name = b'p' ∷ [];
  unit_price_cents = 100;
  quantity = n;
  created_at = 0;
}

abbrev pub no_address : AddressRow
no_address = record {
  recipient_name_enc = [];
  line1_enc = [];
  line2_enc = [];
  city_enc = [];
  region_enc = [];
  postal_code_enc = [];
  country_enc = [];
}

abbrev pub order : ℕ → OrderStatus → ℕ → OrderEntry
order id status n = record {
  row = row id status;
  items = item id n ∷ [];
  address = some no_address;
}

abbrev pub payment : ℕ → ℕ → PaymentStatus → Payment
payment order_id intent status = record {
  id = 60 + order_id;
  order_id = order_id;
  stripe_payment_intent_id = intent;
  status = status;
  amount_cents = 700;
  currency = [];
  error_code = [];
  error_message = [];
  stripe_refund_id = none;
  refunded_at = none;
  created_at = 0;
}

-- Five units of product 7.
abbrev pub stocked : ℕ → Option Product
stocked q =
    if q == 7
    then some (record { name = b'p' ∷ []; price = 100; sale_price = none; stock_quantity = 5 })
    else none

-- Customer 3 with the password "w", a refresh token, a reset token and two-factor authentication.
abbrev pub member : ℕ → UserRow
member id = record {
  id = id;
  email_encrypted = seal_text (b'e' ∷ []);
  email_hmac = b'h' ∷ b'e' ∷ [];
  name_encrypted = none;
  password_hash = b'w' ∷ [];
  role = customer;
  created_at = 0;
  updated_at = 0;
}

abbrev pub token : ℕ → Text → RefreshToken
token id text = record {
  id = id;
  token = b'd' ∷ text;
  user_id = 3;
  revoked = false;
  used = false;
  expires_at = 1000000;
}

abbrev pub reset : ℕ → Text → PasswordResetToken
reset id text = record {
  id = id;
  user_id = 3;
  token = b'd' ∷ text;
  used = false;
  expires_at = 1000000;
}

abbrev pub two_factor : TwoFactorAuth
two_factor = record {
  id = 51;
  user_id = 3;
  secret_key = to_hex (seal_text (b't' ∷ []));
  is_enabled = true;
  recovery_codes = to_hex (seal_text (b'A' ∷ [])) ∷ to_hex (seal_text (b'B' ∷ [])) ∷ [];
}

abbrev pub saved : ℕ → SavedAddress
saved id = record {
  id = id;
  user_id = 3;
  label = none;
  fields = no_address;
  is_default = true;
  created_at = 0;
}

-- Of product 8, which the shop no longer has.
abbrev pub review : ℕ → Review
review id = record {
  id = id;
  user_id = 3;
  product_id = 8;
  rating = 4;
  comment = none;
  status = approved;
  created_at = 0;
}

-- A pending order of two units and a paid one of one unit, each with its payment, and a cart of one.
abbrev pub shop : Db
shop = record {
  products = stocked;
  orders = order 1 pending_payment 2 ∷ order 2 paid 1 ∷ [];
  payments = payment 1 40 pending ∷ payment 2 41 succeeded ∷ [];
  carts = record { id = 9; user_id = some 3; guest_session_id = none } ∷ [];
  cart_items = record { id = 10; cart_id = 9; product_id = 7; quantity = 1 } ∷ [];
  delivery_options = record { code = standard; price_cents = 500; active = true } ∷ [];
  users = member 3 ∷ [];
  refresh_tokens = token 31 (b'r' ∷ []) ∷ [];
  password_reset_tokens = reset 41 (b'p' ∷ []) ∷ [];
  two_factor_auth = two_factor ∷ [];
  saved_addresses = saved 71 ∷ [];
  reviews = review 81 ∷ [];
  review_votes = [];
}

-- The same before the first order.
abbrev pub new_shop : Db
new_shop = record shop { orders = []; payments = [] }

abbrev pub world : Db → World
world db = record { db = db; tick = 0; outbox = [] }

abbrev pub somewhere : ShippingAddress
somewhere = record {
  recipient_name = b'r' ∷ [];
  line1 = b'l' ∷ [];
  line2 = [];
  city = b'c' ∷ [];
  region = [];
  postal_code = b'1' ∷ [];
  country = b' ' ∷ b'e' ∷ b'e' ∷ [];
}

abbrev pub checkout_request : CheckoutRequest
checkout_request = record {
  email = b'e' ∷ [];
  phone = b'1' ∷ [];
  shipping_method = standard;
  address = somewhere;
  address_override = false;
}

abbrev pub accept_all : CheckoutRequest → Bool
accept_all req = true

abbrev pub accept_address : ShippingAddress → M ⊤
accept_address a = pure tt
