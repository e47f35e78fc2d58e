-- ===== src/Raft/Apply.antt =====
-- `TopologyStateMachine::apply_command` of pgcluster/src/raft/state_machine.rs.
pub mod Primary
pub mod History
pub mod Backups
pub mod Invariant
pub mod Keyed
pub mod Clock
use pgcluster.Prelude.{
  ℕ, ◌+◌, ◌-◌, ◌%◌, ◌^◌, String, Bool, false, not, ◌&&◌, [], ◌∷◌, ◌++◌, str_eq, leb, if◌then◌else◌,
  unwrap_or, take, filter, is_empty, sort_by,
}
use pgcluster.Dict.{get, insert, remove, or_insert}
use pgcluster.Raft.Topology.{
  NodeRole, primary, replica, offline, maintenance, unknown, NodeConfig, BackupManifest,
  ClusterTopology, flush_lsn_of,
}
use pgcluster.Raft.Topology
use pgcluster.Raft.Command.{
  TopologyCommand, set_primary, mark_offline, mark_replica, mark_maintenance,
  update_primary_conninfo, update_flush_lsn, add_node, remove_node, record_failover,
  set_replication_mode, set_sync_degraded, set_needs_reseed, set_replication_slot,
  add_backup_manifest, remove_backup_manifest,
}

-- `SetPrimary`: the old primary becomes a replica.
pub apply_set_primary : ClusterTopology → String → ℕ → ClusterTopology
apply_set_primary t node_id at_lsn =
    let demoted =
      if not (is_empty t.primary_node_id) && not (str_eq t.primary_node_id node_id)
      then insert t.node_roles t.primary_node_id replica
      else t.node_roles in
    record t {
      primary_node_id = node_id;
      node_roles = insert demoted node_id primary;
      last_flush_lsns = insert t.last_flush_lsns node_id at_lsn;
    }

-- `UpdateFlushLsn`: the lag is counted against the primary's position, and never of the primary.
pub apply_update_flush_lsn : ClusterTopology → String → ℕ → ℕ → ClusterTopology
apply_update_flush_lsn t node_id flush_lsn replay_lsn =
    let flushes = insert t.last_flush_lsns node_id flush_lsn in
    let replays = insert t.last_replay_lsns node_id replay_lsn in
    let primary_lsn = unwrap_or (get flushes t.primary_node_id) 0 in
    record t {
      last_flush_lsns = flushes;
      last_replay_lsns = replays;
      replica_lag_bytes =
          (if not (is_empty t.primary_node_id) && not (str_eq node_id t.primary_node_id)
            then insert t.replica_lag_bytes node_id (primary_lsn - flush_lsn)
            else t.replica_lag_bytes);
    }

abbrev pub newest_first : BackupManifest → BackupManifest → Bool
newest_first a b = leb b.completed_at a.completed_at

abbrev pub backups_max : ℕ
backups_max = 1000

-- `AddBackupManifest`: push, a stable sort by `Reverse(completed_at)`, and a cap.
pub apply_add_backup : ClusterTopology → BackupManifest → ClusterTopology
apply_add_backup t manifest = record t {
  backups = take backups_max (sort_by newest_first (t.backups ++ manifest ∷ []));
}

-- The `match` of `apply_command`.
apply_body : ClusterTopology → TopologyCommand → ClusterTopology
unfolding apply_set_primary apply_update_flush_lsn apply_add_backup Topology.record_failover
apply_body t (set_primary node_id at_lsn new_timeline) = apply_set_primary t node_id at_lsn
apply_body t (mark_offline node_id) = record t { node_roles = insert t.node_roles node_id offline }
apply_body t (mark_replica node_id flush_lsn) = record t {
  node_roles = insert t.node_roles node_id replica;
  last_flush_lsns = insert t.last_flush_lsns node_id flush_lsn;
}
apply_body t (mark_maintenance node_id) = record t {
  node_roles = insert t.node_roles node_id maintenance;
}
apply_body t (update_primary_conninfo node_id conninfo) = record t {
  primary_conninfos = insert t.primary_conninfos node_id conninfo;
}
apply_body t (update_flush_lsn node_id flush_lsn replay_lsn) =
    apply_update_flush_lsn t node_id flush_lsn replay_lsn
apply_body t (add_node cfg) = record t {
  node_roles = or_insert t.node_roles cfg.node_id unknown;
  node_configs = insert t.node_configs cfg.node_id cfg;
}
apply_body t (remove_node node_id) = record t {
  node_roles = remove t.node_roles node_id;
  node_configs = remove t.node_configs node_id;
  last_flush_lsns = remove t.last_flush_lsns node_id;
  last_replay_lsns = remove t.last_replay_lsns node_id;
  replica_lag_bytes = remove t.replica_lag_bytes node_id;
}
apply_body t (record_failover old_primary new_primary triggered_at duration_ms reason degraded) =
    Topology.record_failover t (record {
      old_primary = old_primary;
      new_primary = new_primary;
      triggered_at = triggered_at;
      duration_ms = duration_ms;
      reason = reason;
      ran_degraded = degraded;
    })
apply_body t (set_replication_mode mode) = record t {
  replication_mode = mode;
  sync_degraded = false;
}
apply_body t (set_sync_degraded degraded) = record t { sync_degraded = degraded }
apply_body t (set_needs_reseed node_id needs) = record t {
  needs_reseed =
      (if needs then insert t.needs_reseed node_id tt else remove t.needs_reseed node_id);
}
apply_body t (set_replication_slot node_id slot_name) = record t {
  replica_slots = insert t.replica_slots node_id slot_name;
}
apply_body t (add_backup_manifest manifest) = apply_add_backup t manifest
apply_body t (remove_backup_manifest backup_id) = record t {
  backups = filter (λ b. not (str_eq b.backup_id backup_id)) t.backups;
}

abbrev pub u64_mod : ℕ
u64_mod = 2 ^ 64

-- The version and the time stamp change first, whatever the command; `now` is the clock's reading.
unfoldable pub apply_command : ℕ → ClusterTopology → TopologyCommand → ClusterTopology
unfolding apply_body
apply_command now t cmd =
    apply_body (record t { version = (t.version + 1) % u64_mod; last_changed_at = now }) cmd
