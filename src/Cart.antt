-- ===== src/Cart.antt =====
-- internal/cart.
pub mod Repository
pub mod Service
pub mod Conserve
pub mod Totals
pub mod Transfer
pub mod Bounds
pub mod Added
