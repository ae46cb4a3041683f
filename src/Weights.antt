-- ===== src/Weights.antt =====
-- control-plane/weights/service.go: the weight publication service. The modules below model its data,
-- its stores and its operations, each beside the proofs about it.
mod Tests
pub mod Types
pub mod Stores
pub mod Publish
pub mod Materialize
pub mod Delta
pub mod Acknowledge
pub mod Lifecycle
pub mod Collect
pub mod Invariant
