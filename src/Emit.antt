-- ===== src/Emit.antt =====
-- internal/usage and the emitter of internal/server: what a machine has used, and what is published of it.
pub mod Usage
pub mod Alerts
pub mod Grouping
pub mod Highest
pub mod Pending
pub mod Publish
pub mod Ledger
pub mod Delivery
pub mod Complete
mod Tests
