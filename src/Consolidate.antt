-- ===== src/Consolidate.antt =====
-- internal/consolidate: how candidates from session logs become findings of the wiki.
pub mod Gate
pub mod Judge
pub mod Dedupe
pub mod Apply
pub mod Cursor
pub mod Secrets
pub mod Counts
pub mod Retract
pub mod Watermark
pub mod Write
pub mod Strike
pub mod Block
mod Tests
mod WriteTests
