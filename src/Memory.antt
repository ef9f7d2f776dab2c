-- ===== src/Memory.antt =====
-- internal/memory: pages of the wiki, and the ratification of those that are standards.
pub mod Frontmatter
pub mod Struck
pub mod Fuel
pub mod Refusal
pub mod Ratify
pub mod Pinned
pub mod Listing
mod Tests
