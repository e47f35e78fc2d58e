-- ===== src/Raft.antt =====
-- pgcluster/src/raft: the replicated topology and what keeps it.
pub mod Topology
pub mod Command
pub mod Apply
pub mod Machine
pub mod Lease
pub mod Storage
