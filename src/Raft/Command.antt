-- ===== src/Raft/Command.antt =====
-- pgcluster/src/raft/commands.rs: every change of the topology, as a log entry.
use pgcluster.Prelude.{ℕ, String, Bool}
use pgcluster.Raft.Topology.{NodeConfig, ReplicationMode, BackupManifest}

pub data TopologyCommand : Type 0 where
  -- node, position, new timeline
  set_primary : String → ℕ → ℕ → TopologyCommand
  mark_offline : String → TopologyCommand
  -- node, flush position
  mark_replica : String → ℕ → TopologyCommand
  mark_maintenance : String → TopologyCommand
  -- node, conninfo
  update_primary_conninfo : String → String → TopologyCommand
  -- node, flush position, replay position
  update_flush_lsn : String → ℕ → ℕ → TopologyCommand
  add_node : NodeConfig → TopologyCommand
  remove_node : String → TopologyCommand
  -- old primary, new primary, time, duration, reason, whether sync had degraded
  record_failover : String → String → ℕ → ℕ → String → Bool → TopologyCommand
  set_replication_mode : ReplicationMode → TopologyCommand
  set_sync_degraded : Bool → TopologyCommand
  set_needs_reseed : String → Bool → TopologyCommand
  set_replication_slot : String → String → TopologyCommand
  add_backup_manifest : BackupManifest → TopologyCommand
  remove_backup_manifest : String → TopologyCommand
