-- ===== src/NodeAgent.antt =====
-- The agent beside each Postgres: vk-agent/src.
pub mod Heartbeat
