-- ===== src/Payments.antt =====
-- internal/payments.
pub mod Repository
pub mod Service
pub mod Intent
pub mod Conserve
pub mod Publish
pub mod Replay
pub mod Recorded
