-- ===== src/Config.antt =====
-- The configuration of an instance: pgcluster/src/config/mod.rs.
pub mod Validate
use pgcluster.Prelude.{
  ℕ, zero, suc, ◌+◌, ◌-◌, ◌*◌, ◌/◌, ◌%◌, ◌^◌, ◌≤◌, ◌<◌, min, max, String, ◌≡◌, refl, sym, ap, subst,
  ◌∙◌, ◌≢◌, ◌↔◌, ◌⊎◌, inl, inr, Bool, true, false, not, ◌&&◌, ◌||◌, Option, none, some, List, [],
  ◌∷◌, ◌++◌, map, arith, str_eq, eq_iff, ltb, leb, ◌==◌, if◌then◌else◌, ltb→lt, lt→ltb, leb→le,
  le→leb, Bool-cases, Option-cases, is_some, unwrap_or, if-case, if-case_when, length, take, drop,
  filter, any, length-append, length-drop, length-filter-le, All, In, All-In, All-of-In, In-filter,
  In-filter-of, is_empty, sort_by, sort_by-IsSorted, In-sort_by, sort_by-In, IsSorted,
  length-sort_by, max_by, min_by, max_by-IsMax, max_by-In, min_by-IsMin, min_by-In, max_by-none,
  min_by-none, In-append, append-In, In-take, In-drop, In-split, take-append-drop, length-take,
  take-IsSorted, filter-IsSorted, take-le-drop, length-filter-and, length-filter_mono, Distinct,
  pigeonhole, In-map, map-In, length-map, filter_map, In-filter_map, filter_map-In,
}
use pgcluster.Dict.{
  Dict, get, insert, remove, or_insert, contains_key, IsMap, get-insert, get-remove, get-or_insert,
  insert-IsMap, remove-IsMap, or_insert-IsMap, In-get, get-In,
}
use pgcluster.Raft.Topology.{ReplicationMode}

pub data ClusterMode : Type 0 where
  cluster coordinator : ClusterMode

pub record ClusterConfig : Type 0 where
  pub name : String
  pub data_dir : String
  pub mode : ClusterMode
  pub secrets_file : Option String

pub record RaftPeer : Type 0 where
  pub id : ℕ
  pub addr : String

pub record RaftConfig : Type 0 where
  pub node_id : ℕ
  pub peers : List RaftPeer
  pub heartbeat_interval_ms : ℕ
  pub election_timeout_ms : ℕ
  pub bootstrap : Bool

-- A `[[nodes.node]]` table; the topology has its own record of a node.
pub record NodeEntry : Type 0 where
  pub id : String
  pub agent_addr : String
  pub postgres_addr : String
  pub priority : ℕ
  pub tags : Dict String

pub record ReplicationConfig : Type 0 where
  pub replication_user : String
  pub replication_password_env : String
  pub slot_prefix : String
  pub replication_mode : ReplicationMode
  pub sync_degrade_timeout_seconds : ℕ
  pub max_slot_wal_keep_size_mb : ℕ

pub record PoolConfig : Type 0 where
  pub max_connections_per_db_user : ℕ
  pub idle_timeout_seconds : ℕ
  pub connect_timeout_seconds : ℕ

pub record ReadRoutingConfig : Type 0 where
  pub enabled : Bool
  pub max_replica_lag_bytes : ℕ

pub record ProxyConfig : Type 0 where
  pub listen_addr : String
  pub admin_listen_addr : String
  pub health_listen_addr : String
  pub pool : PoolConfig
  pub read_routing : ReadRoutingConfig
  pub auth_user : String
  pub auth_password_env : String
  pub quorum_lease_ms : ℕ
  pub allowed_cidrs : Option (List String)
  pub require_tls : Bool
  pub max_client_connections : ℕ
  pub max_pending_logins : ℕ
  pub max_pending_logins_per_address : ℕ
  pub login_timeout_ms : ℕ

pub record FailoverConfig : Type 0 where
  pub health_check_interval_ms : ℕ
  pub health_check_failures_before_failover : ℕ
  pub agent_heartbeat_timeout_seconds : ℕ
  pub promote_timeout_secs : ℕ
  pub repoint_timeout_secs : ℕ

pub record TlsConfig : Type 0 where
  pub ca_cert : Option String
  pub cert : Option String
  pub key : Option String
  pub insecure_plaintext : Bool
  pub proxy_cert : Option String
  pub proxy_key : Option String

pub record ApiConfig : Type 0 where
  pub listen_addr : String
  pub api_keys : List String
  pub public_read_endpoints : Bool
  pub insecure_no_auth : Bool

pub record S3Config : Type 0 where
  pub bucket : String
  pub prefix : String
  pub region : Option String
  pub endpoint : Option String
  pub path_style : Bool

-- `PosixConfig` has one field, the path.
pub record BackupConfig : Type 0 where
  pub enabled : Bool
  pub s3 : Option S3Config
  pub posix : Option String
  pub prefer_replica : Bool
  pub interval_seconds : ℕ
  pub delta_steps : ℕ
  pub retain_full : ℕ
  pub encryption_key_env : Option String

-- `MetricsConfig` has one field, its address.
pub record PgClusterConfig : Type 0 where
  pub cluster : ClusterConfig
  pub raft : RaftConfig
  pub nodes : List NodeEntry
  pub replication : ReplicationConfig
  pub proxy : ProxyConfig
  pub failover : FailoverConfig
  pub tls : TlsConfig
  pub metrics_addr : String
  pub api : ApiConfig
  pub backup : Option BackupConfig

-- The values of the keys that a file leaves out.
abbrev pub default_heartbeat : ℕ
default_heartbeat = 150

abbrev pub default_election_timeout : ℕ
default_election_timeout = 500

abbrev pub default_failover : FailoverConfig
default_failover = record {
  health_check_interval_ms = 500;
  health_check_failures_before_failover = 3;
  agent_heartbeat_timeout_seconds = 10;
  promote_timeout_secs = 30;
  repoint_timeout_secs = 60;
}

abbrev pub default_pool : PoolConfig
default_pool = record {
  max_connections_per_db_user = 25;
  idle_timeout_seconds = 600;
  connect_timeout_seconds = 5;
}

abbrev pub default_read_routing : ReadRoutingConfig
default_read_routing = record { enabled = false; max_replica_lag_bytes = 10 * 1024 * 1024 }

abbrev pub default_proxy : ProxyConfig
default_proxy = record {
  listen_addr = "0.0.0.0:5432";
  admin_listen_addr = "0.0.0.0:5433";
  health_listen_addr = "0.0.0.0:8008";
  pool = default_pool;
  read_routing = default_read_routing;
  auth_user = "pgcluster_auth";
  auth_password_env = "PGCLUSTER_AUTH_PASSWORD";
  quorum_lease_ms = 1000;
  allowed_cidrs = none;
  require_tls = false;
  max_client_connections = 10000;
  max_pending_logins = 512;
  max_pending_logins_per_address = 64;
  login_timeout_ms = 10000;
}
