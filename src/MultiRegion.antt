-- ===== src/MultiRegion.antt =====
-- src/multi-region.js: the replicated data types and clocks of the regions.
pub mod Hlc
pub mod VectorClock
pub mod OrSet
pub mod LwwElementSet
pub mod LwwMap
pub mod Rga
pub mod Coordinator
pub mod Merkle
mod Tests
mod ReplicaTests
mod CoordinatorTests
