-- ===== src/User.antt =====
-- Accounts (internal/user).
pub mod Repository
pub mod Service
pub mod Registered
pub mod LastAdmin
