-- ===== src/DataPlane.antt =====
-- control-plane/dataplane/store.go: the sample data plane. The modules below model its records, its
-- memory stores, and the operations on them, each beside the proofs about it.
mod Tests
pub mod Types
pub mod Blobs
pub mod Put
pub mod Metadata
pub mod Finish
pub mod Claim
pub mod Exclusive
pub mod Invariant
pub mod Reachable
pub mod Settled
