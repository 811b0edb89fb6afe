-- ===== src/Orders/Conserve.antt =====
-- The operations of internal/orders as steps on the stock, among concurrent requests.
pub mod Table
pub mod Release
pub mod Reads
pub mod Loads
pub mod Cancel
pub mod Marks
pub mod Reaper
pub mod Admin
pub mod Resurrected
pub mod Growth
pub mod Placing
pub mod NewOrder
pub mod Checkout
