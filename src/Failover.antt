-- ===== src/Failover.antt =====
-- pgcluster/src/failover: replacing a primary that has failed.
pub mod Candidate
pub mod Promote
pub mod Trigger
