-- ===== src/Nexus.antt =====
-- The nexus: mayastor/src/bdev/nexus.
pub mod Channel
pub mod Child
pub mod ChildStates
pub mod Offline
pub mod Io
pub mod Refresh
pub mod Mirror
pub mod Ended
pub mod Submission
pub mod Partial
pub mod Account
mod Tests
mod ChildTests
pub mod Members
pub mod Opening
pub mod Online
pub mod Recovery
pub mod Changes
pub mod Refreshed
pub mod StillOpen
pub mod Healthy
mod FaultTests
pub mod Recovered
pub mod MemberTests
pub mod Sources
