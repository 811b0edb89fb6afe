-- ===== src/Orders/Silent.antt =====
-- The parts of internal/orders that write nothing: decryption and activity logging.
use stora_ecommerce.Schema.{OrderRow, AddressRow}
use stora_ecommerce.Effect.Silent.{Silent, silent_rules}
use stora_ecommerce.Crypto.Silent.{Silent-encrypt, Silent-decrypt}
use stora_ecommerce.Orders.Model.{decrypt_order, decrypt_address, encrypt_address, ShippingAddress}
use stora_ecommerce.Orders.Repository.{Loaded}
use stora_ecommerce.Orders.Service.{respond}

pub Silent-decrypt_order : (row : OrderRow) → Silent (decrypt_order row)
unfolding decrypt_order
Silent-decrypt_order row = search (silent_rules, Silent-decrypt)

pub Silent-decrypt_address : (a : AddressRow) → Silent (decrypt_address a)
unfolding decrypt_address
Silent-decrypt_address a = search (silent_rules, Silent-decrypt) depth 10

pub Silent-encrypt_address : (a : ShippingAddress) → Silent (encrypt_address a)
unfolding encrypt_address
Silent-encrypt_address a = search (silent_rules, Silent-encrypt) depth 10

pub Silent-respond : (l : Loaded) → Silent (respond l)
unfolding respond
Silent-respond l = search (silent_rules, Silent-decrypt_order, Silent-decrypt_address)
