-- ===== src/Switchover.antt =====
-- pgcluster/src/switchover: handing the role of the primary over as planned.
pub mod LagWait
pub mod Handoff
pub mod Planned
pub mod Rolling
