-- ===== src/Admin.antt =====
-- The admin service: pgcluster-admin/src.
pub mod Scheduler
