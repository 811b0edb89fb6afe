-- ===== src/Schema.antt =====
-- The rows of the database (migrations/, internal/orders/model.go, internal/payments/model.go,
-- internal/cart/model.go, internal/user/model.go, internal/auth/model.go). Identifiers (uuid values, Stripe ids) are only compared, so they are
-- numbers; text and ciphertext are lists of bytes; times are numbers.
use stora_ecommerce.Prelude.{ℕ, Bool, Option, none, some, List}

abbrev pub Text : Type 0
Text = List ℕ

abbrev pub Bytes : Type 0
Bytes = List ℕ

pub data OrderStatus : Type 0 where
  pending_payment paid payment_failed processing shipped delivered cancelled refunded : OrderStatus

pub data PaymentStatus : Type 0 where
  pending succeeded failed cancelled refunded : PaymentStatus

pub record Product : Type 0 where
  pub name : Text
  pub price : ℕ
  pub sale_price : Option ℕ
  pub stock_quantity : ℕ

-- `COALESCE(sale_price, price)`
abbrev pub coalesce : Option ℕ → ℕ → ℕ
coalesce none price = price
coalesce (some sale) price = sale

pub record OrderItem : Type 0 where
  pub id : ℕ
  pub order_id : ℕ
  pub product_id : Option ℕ
  pub product_name : Text
  pub unit_price_cents : ℕ
  pub quantity : ℕ
  pub created_at : ℕ

pub record AddressRow : Type 0 where
  pub recipient_name_enc : Bytes
  pub line1_enc : Bytes
  pub line2_enc : Bytes
  pub city_enc : Bytes
  pub region_enc : Bytes
  pub postal_code_enc : Bytes
  pub country_enc : Bytes

pub record OrderRow : Type 0 where
  pub id : ℕ
  pub order_number : Text
  pub user_id : Option ℕ
  pub guest_session_id : Option ℕ
  pub status : OrderStatus
  pub email_enc : Bytes
  pub phone_enc : Bytes
  pub subtotal_cents : ℕ
  pub shipping_cents : ℕ
  pub total_cents : ℕ
  pub shipping_method : Text
  pub created_at : ℕ
  pub updated_at : ℕ

-- A row of `orders` with the rows of `order_items` and `shipping_addresses` that refer to it. Both
-- tables are only ever read and written through their order.
pub record OrderEntry : Type 0 where
  pub row : OrderRow
  pub items : List OrderItem
  pub address : Option AddressRow

pub record Payment : Type 0 where
  pub id : ℕ
  pub order_id : ℕ
  pub stripe_payment_intent_id : ℕ
  pub status : PaymentStatus
  pub amount_cents : ℕ
  pub currency : Text
  pub error_code : Text
  pub error_message : Text
  pub stripe_refund_id : Option ℕ
  pub refunded_at : Option ℕ
  pub created_at : ℕ

pub record Cart : Type 0 where
  pub id : ℕ
  pub user_id : Option ℕ
  pub guest_session_id : Option ℕ

pub record CartItem : Type 0 where
  pub id : ℕ
  pub cart_id : ℕ
  pub product_id : ℕ
  pub quantity : ℕ

pub record DeliveryOption : Type 0 where
  pub code : Text
  pub price_cents : ℕ
  pub active : Bool

-- internal/user/model.go and internal/auth/model.go, with the columns as they are stored: an email
-- as ciphertext and blind index, a token as its digest.
pub record UserRow : Type 0 where
  pub id : ℕ
  pub email_encrypted : Bytes
  pub email_hmac : Bytes
  pub name_encrypted : Option Bytes
  pub password_hash : Text
  pub role : Text
  pub created_at : ℕ
  pub updated_at : ℕ

pub record RefreshToken : Type 0 where
  pub id : ℕ
  pub token : Bytes
  pub user_id : ℕ
  pub revoked : Bool
  pub used : Bool
  pub expires_at : ℕ

pub record PasswordResetToken : Type 0 where
  pub id : ℕ
  pub user_id : ℕ
  pub token : Bytes
  pub used : Bool
  pub expires_at : ℕ

pub record TwoFactorAuth : Type 0 where
  pub id : ℕ
  pub user_id : ℕ
  pub secret_key : Bytes
  pub is_enabled : Bool
  pub recovery_codes : List Bytes

-- A row of `saved_addresses` (internal/address).
pub record SavedAddress : Type 0 where
  pub id : ℕ
  pub user_id : ℕ
  pub label : Option Text
  pub fields : AddressRow
  pub is_default : Bool
  pub created_at : ℕ

-- internal/review/model.go
pub data ReviewStatus : Type 0 where
  pending approved hidden : ReviewStatus

pub record Review : Type 0 where
  pub id : ℕ
  pub user_id : ℕ
  pub product_id : ℕ
  pub rating : ℕ
  pub comment : Option Text
  pub status : ReviewStatus
  pub created_at : ℕ

-- A row of `review_votes`.
pub record Vote : Type 0 where
  pub review_id : ℕ
  pub user_id : ℕ

-- The tables. Lists are in the order of insertion.
pub record Db : Type 0 where
  pub products : ℕ → Option Product
  pub orders : List OrderEntry
  pub payments : List Payment
  pub carts : List Cart
  pub cart_items : List CartItem
  pub delivery_options : List DeliveryOption
  pub users : List UserRow
  pub refresh_tokens : List RefreshToken
  pub password_reset_tokens : List PasswordResetToken
  pub two_factor_auth : List TwoFactorAuth
  pub saved_addresses : List SavedAddress
  pub reviews : List Review
  pub review_votes : List Vote
