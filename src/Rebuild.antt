-- ===== src/Rebuild.antt =====
-- The rebuild component: mayastor/src/rebuild/rebuild_api.rs and rebuild_impl.rs.
pub mod State
pub mod Job
pub mod Ops
pub mod Tasks
pub mod Registry
pub mod Jobs
pub mod Run
pub mod Pending
pub mod Work
pub mod Invariant
pub mod Messages
pub mod Steps
pub mod Coverage
pub mod Delivery
pub mod Frame
pub mod Completion
pub mod Outcome
pub mod Stuck
pub mod Liveness
pub mod Drain
pub mod Tests
