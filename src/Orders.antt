-- ===== src/Orders.antt =====
-- internal/orders.
pub mod Table
pub mod Stock
pub mod Model
pub mod Repository
pub mod Service
pub mod Admin
pub mod Checkout
pub mod Conserve
pub mod Silent
pub mod Lookup
pub mod Ownership
pub mod Pricing
pub mod Released
