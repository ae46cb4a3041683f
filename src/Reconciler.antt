-- ===== src/Reconciler.antt =====
-- control-plane/rlservice/reconciler.go: the loop that drives a reinforcement learning run to the
-- state that its owner asked for, over the tables of control-plane/state/state.go.
pub mod Types
pub mod Store
pub mod Monad
pub mod Environment
pub mod Ownership
pub mod Attempts
pub mod Evaluation
pub mod Passes
pub mod Logic
pub mod Frame
pub mod Steady
pub mod Machine
pub mod Requests
pub mod Refinement
pub mod Deletion
pub mod Cancellation
pub mod Promotion
pub mod Admission
mod Tests
