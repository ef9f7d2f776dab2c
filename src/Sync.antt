-- ===== src/Sync.antt =====
-- internal/sync and the file routes of internal/server/sync_api.go: two trees kept alike.
pub mod Types
pub mod Remote
pub mod Disk
pub mod Manifest
pub mod Conflict
pub mod Reconcile
pub mod Force
pub mod Frame
pub mod Sums
pub mod Converge
pub mod NoLoss
pub mod Wins
pub mod Elsewhere
pub mod Paths
pub mod Whole
pub mod Synced
pub mod Outcome
pub mod Deletions
pub mod Guard
pub mod Deleted
mod Tests
