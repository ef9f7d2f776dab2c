-- ===== src/Sessions.antt =====
-- internal/sessions: what a machine's transcripts record, as blocks of work.
pub mod Types
pub mod Fold
pub mod Collect
pub mod Claude
pub mod Nacelle
pub mod Scan
pub mod Conserved
pub mod Resume
pub mod Requests
pub mod Reread
pub mod Scans
pub mod Proper
pub mod Unended
mod Tests
pub mod Shards
