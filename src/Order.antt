-- ===== src/Order.antt =====
-- The order services: src/services/order and src/jobs/expire-stale-orders.job.ts.
pub mod Status
pub mod Cancellation
pub mod Payment
pub mod Return
pub mod Admin
pub mod Create
pub mod Ledger
