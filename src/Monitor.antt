-- ===== src/Monitor.antt =====
-- pgcluster/src/node_monitor: what the leader remembers about the nodes, and what it does on a tick.
pub mod Failures
pub mod Fallback
pub mod Stale
pub mod Check
pub mod Setup
pub mod Reconcile
pub mod Poll
