-- ===== src/RlService.antt =====
-- control-plane/rlservice: the RL run service.
pub mod FairQueue
pub mod Tests
pub mod Staleness
pub mod Autoscale
pub mod Gates
pub mod Quota
