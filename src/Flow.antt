-- ===== src/Flow.antt =====
-- internal/flow: steps with dependencies, run in parallel.
pub mod Types
pub mod Needs
pub mod Graph
pub mod Schedule
pub mod Validate
pub mod Sound
pub mod Filing
pub mod Sweep
pub mod Drive
pub mod Complete
pub mod Finish
pub mod Chain
pub mod Topology
pub mod Accepted
pub mod Promise
pub mod Verdict
pub mod Sizes
pub mod Masking
pub mod Trust
pub mod Pins
pub mod Stream
pub mod Kept
pub mod Run
pub mod Environment
pub mod Steps
pub mod Lines
pub mod Mirror
mod Tests
mod TrustTests
mod RunTests
