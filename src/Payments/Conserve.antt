-- ===== src/Payments/Conserve.antt =====
-- The payments service (internal/payments/service.go) as steps on the stock: webhooks,
-- reconciliation, refunds, intents.
pub mod Rows
pub mod Settle
pub mod Events
pub mod Void
pub mod Intents
