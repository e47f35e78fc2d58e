-- ===== src/Raft/Apply/Keyed.antt =====
-- No map of the topology holds a key twice: pgcluster/src/raft/state_machine.rs.
use pgcluster.Prelude.{ℕ, String, Bool, true, false, if◌then◌else◌}
use pgcluster.Dict.{Dict, insert, IsMap, insert-IsMap, remove-IsMap, or_insert-IsMap}
use pgcluster.Raft.Topology.{
  NodeRole, replica, offline, maintenance, unknown, primary, ClusterTopology, empty_topology,
}
use pgcluster.Raft.Command.{
  TopologyCommand, set_primary, mark_offline, mark_replica, mark_maintenance, update_flush_lsn,
  update_primary_conninfo, add_node, remove_node, set_needs_reseed, set_replication_slot,
}
use pgcluster.Raft.Apply.{apply_command}

-- Each map of the topology holds a key once.
pub record IsKeyed (t : ClusterTopology) : Type 0 where
  pub roles : IsMap t.node_roles
  pub configs : IsMap t.node_configs
  pub flushes : IsMap t.last_flush_lsns
  pub replays : IsMap t.last_replay_lsns
  pub lags : IsMap t.replica_lag_bytes
  pub slots : IsMap t.replica_slots
  pub conninfos : IsMap t.primary_conninfos
  pub reseeds : IsMap t.needs_reseed

demoted-IsMap :
    (b : Bool) (roles : Dict NodeRole) (p : String)
    → IsMap roles
    → IsMap (if b then insert roles p replica else roles)
demoted-IsMap true roles p h = insert-IsMap roles p replica h
demoted-IsMap false roles p h = h

lags-IsMap :
    (b : Bool) (lags : Dict ℕ) (k : String) (v : ℕ)
    → IsMap lags
    → IsMap (if b then insert lags k v else lags)
lags-IsMap true lags k v h = insert-IsMap lags k v h
lags-IsMap false lags k v h = h

-- Every command keeps every map free of a second entry for a key.
pub apply_command-IsKeyed :
    (now : ℕ) (t : ClusterTopology) (cmd : TopologyCommand)
    → IsKeyed t
    → IsKeyed (apply_command now t cmd)
unfolding apply_command
apply_command-IsKeyed now t (set_primary k l tl) h = record {
  roles = insert-IsMap _ k primary (demoted-IsMap _ t.node_roles t.primary_node_id h.roles);
  configs = h.configs;
  flushes = insert-IsMap t.last_flush_lsns k l h.flushes;
  lags = h.lags;
  replays = h.replays;
  slots = h.slots;
  conninfos = h.conninfos;
  reseeds = h.reseeds;
}
apply_command-IsKeyed now t (mark_offline k) h = record {
  roles = insert-IsMap t.node_roles k offline h.roles;
  configs = h.configs;
  flushes = h.flushes;
  lags = h.lags;
  replays = h.replays;
  slots = h.slots;
  conninfos = h.conninfos;
  reseeds = h.reseeds;
}
apply_command-IsKeyed now t (mark_replica k l) h = record {
  roles = insert-IsMap t.node_roles k replica h.roles;
  configs = h.configs;
  flushes = insert-IsMap t.last_flush_lsns k l h.flushes;
  lags = h.lags;
  replays = h.replays;
  slots = h.slots;
  conninfos = h.conninfos;
  reseeds = h.reseeds;
}
apply_command-IsKeyed now t (mark_maintenance k) h = record {
  roles = insert-IsMap t.node_roles k maintenance h.roles;
  configs = h.configs;
  flushes = h.flushes;
  lags = h.lags;
  replays = h.replays;
  slots = h.slots;
  conninfos = h.conninfos;
  reseeds = h.reseeds;
}
apply_command-IsKeyed now t (update_flush_lsn k l r) h = record {
  roles = h.roles;
  configs = h.configs;
  flushes = insert-IsMap t.last_flush_lsns k l h.flushes;
  lags = lags-IsMap _ t.replica_lag_bytes k _ h.lags;
  replays = insert-IsMap t.last_replay_lsns k r h.replays;
  slots = h.slots;
  conninfos = h.conninfos;
  reseeds = h.reseeds;
}
apply_command-IsKeyed now t (add_node c) h = record {
  roles = or_insert-IsMap t.node_roles c.node_id unknown h.roles;
  configs = insert-IsMap t.node_configs c.node_id c h.configs;
  flushes = h.flushes;
  lags = h.lags;
  replays = h.replays;
  slots = h.slots;
  conninfos = h.conninfos;
  reseeds = h.reseeds;
}
apply_command-IsKeyed now t (remove_node k) h = record {
  roles = remove-IsMap t.node_roles k h.roles;
  configs = remove-IsMap t.node_configs k h.configs;
  flushes = remove-IsMap t.last_flush_lsns k h.flushes;
  lags = remove-IsMap t.replica_lag_bytes k h.lags;
  replays = remove-IsMap t.last_replay_lsns k h.replays;
  slots = h.slots;
  conninfos = h.conninfos;
  reseeds = h.reseeds;
}
apply_command-IsKeyed now t (set_needs_reseed k true) h = record {
  roles = h.roles;
  configs = h.configs;
  flushes = h.flushes;
  lags = h.lags;
  replays = h.replays;
  slots = h.slots;
  conninfos = h.conninfos;
  reseeds = insert-IsMap t.needs_reseed k tt h.reseeds;
}
apply_command-IsKeyed now t (set_needs_reseed k false) h = record {
  roles = h.roles;
  configs = h.configs;
  flushes = h.flushes;
  lags = h.lags;
  replays = h.replays;
  slots = h.slots;
  conninfos = h.conninfos;
  reseeds = remove-IsMap t.needs_reseed k h.reseeds;
}
apply_command-IsKeyed now t (update_primary_conninfo k info) h = record {
  roles = h.roles;
  configs = h.configs;
  flushes = h.flushes;
  replays = h.replays;
  lags = h.lags;
  slots = h.slots;
  conninfos = insert-IsMap t.primary_conninfos k info h.conninfos;
  reseeds = h.reseeds;
}
apply_command-IsKeyed now t (set_replication_slot k slot) h = record {
  roles = h.roles;
  configs = h.configs;
  flushes = h.flushes;
  replays = h.replays;
  lags = h.lags;
  slots = insert-IsMap t.replica_slots k slot h.slots;
  conninfos = h.conninfos;
  reseeds = h.reseeds;
}
apply_command-IsKeyed now t _ h = record {
  roles = h.roles;
  configs = h.configs;
  flushes = h.flushes;
  lags = h.lags;
  replays = h.replays;
  slots = h.slots;
  conninfos = h.conninfos;
  reseeds = h.reseeds;
}

pub empty_topology-IsKeyed : IsKeyed empty_topology
empty_topology-IsKeyed = record {
  roles = tt;
  configs = tt;
  flushes = tt;
  replays = tt;
  lags = tt;
  slots = tt;
  conninfos = tt;
  reseeds = tt;
}
