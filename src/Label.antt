-- ===== src/Label.antt =====
-- The GPT label of the children of a nexus: mayastor/src/bdev/nexus/nexus_label.rs.
pub mod Layout
pub mod Format
pub mod Validate
pub mod Disk
pub mod Update
pub mod Geometry
pub mod Bytes
pub mod Laws
pub mod Entries
pub mod Table
pub mod Probe
pub mod Found
pub mod Statuses
pub mod Writes
pub mod Stores
pub mod RoundTrip
pub mod Generated
pub mod Created
pub mod Interrupt
pub mod Forms
pub mod LittleEndian
pub mod Room
pub mod Sizes
pub mod Tests
pub mod DamageTests
