-- ===== src/Raft/Topology.antt =====
-- pgcluster/src/raft/topology.rs: the data that the cluster agrees on.
pub mod Standbys
use pgcluster.Prelude.{
  ℕ, String, Bool, true, false, Option, none, some, List, [], ◌∷◌, ◌++◌, str_eq, ltb, if◌then◌else◌,
  unwrap_or, length,
}
use pgcluster.Dict.{Dict, get}

pub data NodeRole : Type 0 where
  primary replica offline maintenance unknown : NodeRole

-- `==` on roles.
abbrev pub role_eq : NodeRole → NodeRole → Bool
role_eq primary primary = true
role_eq replica replica = true
role_eq offline offline = true
role_eq maintenance maintenance = true
role_eq unknown unknown = true
role_eq _ _ = false

pub data ReplicationMode : Type 0 where
  async sync sync_strict : ReplicationMode

pub record NodeConfig : Type 0 where
  pub node_id : String
  pub agent_addr : String
  pub postgres_addr : String
  pub priority : ℕ
  pub tags : Dict String

abbrev pub external_role : String
external_role = "external"

-- A standby that follows from outside the cluster, by its `role` tag.
unfoldable pub is_external : NodeConfig → Bool
is_external cfg = elim (get cfg.tags "role") [ none ↦ false | some r ↦ str_eq r external_role ]

pub data BackupStatus : Type 0 where
  completed failed : BackupStatus

-- Times are seconds since 1970, which the program takes from a clock that is never before it.
pub record BackupManifest : Type 0 where
  pub backup_id : String
  pub label : String
  pub frequency : String
  pub source_node : String
  pub started_at : ℕ
  pub completed_at : ℕ
  pub size_bytes : ℕ
  pub location : String
  pub status : BackupStatus

pub record FailoverEvent : Type 0 where
  pub old_primary : String
  pub new_primary : String
  pub triggered_at : ℕ
  pub duration_ms : ℕ
  pub reason : String
  pub ran_degraded : Bool

-- A `BTreeSet<String>`, which is a map to the unit type.
abbrev pub StringSet : Type 0
StringSet = Dict (Unit {0})

pub record ClusterTopology : Type 0 where
  pub primary_node_id : String
  pub node_roles : Dict NodeRole
  pub replica_slots : Dict String
  pub primary_conninfos : Dict String
  pub last_flush_lsns : Dict ℕ
  pub last_replay_lsns : Dict ℕ
  pub replica_lag_bytes : Dict ℕ
  pub node_configs : Dict NodeConfig
  pub failover_history : List FailoverEvent
  pub backups : List BackupManifest
  pub replication_mode : ReplicationMode
  pub sync_degraded : Bool
  pub needs_reseed : StringSet
  pub version : ℕ
  pub last_changed_at : ℕ

-- `ClusterTopology::default()`
abbrev pub empty_topology : ClusterTopology
empty_topology = record {
  primary_node_id = "";
  node_roles = [];
  replica_slots = [];
  primary_conninfos = [];
  last_flush_lsns = [];
  last_replay_lsns = [];
  replica_lag_bytes = [];
  node_configs = [];
  failover_history = [];
  backups = [];
  replication_mode = async;
  sync_degraded = false;
  needs_reseed = [];
  version = 0;
  last_changed_at = 0;
}

-- The flush position of a node, 0 if none is recorded.
abbrev pub flush_lsn_of : ClusterTopology → String → ℕ
flush_lsn_of t id = unwrap_or (get t.last_flush_lsns id) 0

-- `ClusterTopology::FAILOVER_HISTORY_MAX`
abbrev pub failover_history_max : ℕ
failover_history_max = 100

-- The `while` loop of `record_failover`: the oldest events leave until the history fits. Each round
-- removes one event, so recursion on the list makes all the rounds.
unfoldable pub trim_history : List FailoverEvent → List FailoverEvent
trim_history [] = []
trim_history (e ∷ es) =
    let rest = trim_history es in
    if ltb failover_history_max (length (e ∷ es)) then rest else e ∷ es

unfoldable pub record_failover : ClusterTopology → FailoverEvent → ClusterTopology
record_failover t event = record t {
  failover_history = trim_history (t.failover_history ++ event ∷ []);
}

-- `primary_postgres_addr`, which `Router::primary_addr` repeats.
unfoldable pub primary_postgres_addr : ClusterTopology → Option String
primary_postgres_addr t = elim (get t.node_configs t.primary_node_id) [
  | none ↦ none
  | some c ↦ some c.postgres_addr
]
