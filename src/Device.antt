-- ===== src/Device.antt =====
-- internal/server/device.go: authorizations of devices that wait for a person's approval.
pub mod Store
pub mod Wellformed
pub mod History
pub mod Once
pub mod Settled
pub mod Approval
pub mod Answers
mod Tests
