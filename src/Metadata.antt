-- ===== src/Metadata.antt =====
-- The objects that are kept on the metadata partition of a child:
-- mayastor/src/bdev/nexus/nexus_metadata.rs and nexus_metadata_content.rs.
pub mod Layout
pub mod Read
pub mod Write
pub mod Store
pub mod Laws
pub mod Slices
pub mod Signed
pub mod Synced
pub mod RoundTrip
pub mod Probed
pub mod Objects
pub mod Moved
pub mod Compacted
pub mod Placed
pub mod Pushed
pub mod Appended
pub mod Represented
pub mod Refinement
pub mod Removed
pub mod Grown
pub mod Run
pub mod Stale
pub mod Created
pub mod Instance
pub mod Tests
pub mod GapTests
