-- ===== src/Tests.antt =====
-- The theorems applied to concrete inputs.
mod Data
mod Raft
mod Failover
mod Switchover
mod Proxy
mod Wire
mod Monitor
mod Database
mod Rolling
mod Scheduler
mod Storage
mod Poll
mod Backup
mod Config
mod Connection
mod Heartbeat
