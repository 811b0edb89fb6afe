-- ===== src/Orders/Model.antt =====
-- Orders as the API shows them, and their encryption (internal/orders/model.go and the helpers at
-- the end of internal/orders/service.go).
use stora_ecommerce.Prelude.{ℕ, Bool, Option, List, ◌||◌, same_id}
use stora_ecommerce.Schema.{Text, OrderStatus, OrderItem, OrderRow, AddressRow}
use stora_ecommerce.Effect.{M, pure, ◌>>=◌}
use stora_ecommerce.Crypto.{encrypt, decrypt}

pub record Order : Type 0 where
  pub id : ℕ
  pub order_number : Text
  pub user_id : Option ℕ
  pub guest_session_id : Option ℕ
  pub status : OrderStatus
  pub email : Text
  pub phone : Text
  pub subtotal_cents : ℕ
  pub shipping_cents : ℕ
  pub total_cents : ℕ
  pub shipping_method : Text
  pub created_at : ℕ
  pub updated_at : ℕ

pub record ShippingAddress : Type 0 where
  pub recipient_name : Text
  pub line1 : Text
  pub line2 : Text
  pub city : Text
  pub region : Text
  pub postal_code : Text
  pub country : Text

pub record OrderResponse : Type 0 where
  pub order : Order
  pub items : List OrderItem
  pub address : ShippingAddress

pub record CheckoutRequest : Type 0 where
  pub email : Text
  pub phone : Text
  pub shipping_method : Text
  pub address : ShippingAddress
  pub address_override : Bool

unfoldable pub ownership_ok : OrderRow → Option ℕ → Option ℕ → Bool
ownership_ok row user guest = same_id user row.user_id || same_id guest row.guest_session_id

unfoldable pub decrypt_order : OrderRow → M Order
decrypt_order row = do
  email ← decrypt row.email_enc
  phone ← decrypt row.phone_enc
  pure (record {
    id = row.id;
    order_number = row.order_number;
    user_id = row.user_id;
    guest_session_id = row.guest_session_id;
    status = row.status;
    email = email;
    phone = phone;
    subtotal_cents = row.subtotal_cents;
    shipping_cents = row.shipping_cents;
    total_cents = row.total_cents;
    shipping_method = row.shipping_method;
    created_at = row.created_at;
    updated_at = row.updated_at;
  })

unfoldable pub encrypt_address : ShippingAddress → M AddressRow
encrypt_address a = do
  rec ← encrypt a.recipient_name
  l1 ← encrypt a.line1
  l2 ← encrypt a.line2
  city ← encrypt a.city
  region ← encrypt a.region
  postal ← encrypt a.postal_code
  country ← encrypt a.country
  pure (record {
    recipient_name_enc = rec;
    line1_enc = l1;
    line2_enc = l2;
    city_enc = city;
    region_enc = region;
    postal_code_enc = postal;
    country_enc = country;
  })

unfoldable pub decrypt_address : AddressRow → M ShippingAddress
decrypt_address a = do
  rec ← decrypt a.recipient_name_enc
  l1 ← decrypt a.line1_enc
  l2 ← decrypt a.line2_enc
  city ← decrypt a.city_enc
  region ← decrypt a.region_enc
  postal ← decrypt a.postal_code_enc
  country ← decrypt a.country_enc
  pure (record {
    recipient_name = rec;
    line1 = l1;
    line2 = l2;
    city = city;
    region = region;
    postal_code = postal;
    country = country;
  })
