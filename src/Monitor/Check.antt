-- ===== src/Monitor/Check.antt =====
-- One health check: pgcluster/src/node_monitor/health_check.rs.
use pgcluster.Prelude.{ℕ, String, Bool, true, false, List, [], map, str_eq, if◌then◌else◌, filter}
use pgcluster.Dict.{Dict}

-- What an agent reports.
pub record AgentStatus : Type 0 where
  pub is_in_recovery : Bool
  pub received_lsn : ℕ
  pub sent_lsn : ℕ
  pub replayed_lsn : ℕ
  pub timeline : ℕ
  pub postgres_running : Bool
  pub replication_conninfo : String
  -- The standbys that it knows: application name and state.
  pub replicas : List (String × String)
  pub parameters : Dict String
  pub lost_slots : List String
  pub has_data : Bool
  pub backup_config_version : String
  pub proxy_auth_version : String

pub record HealthCheckResult : Type 0 where
  pub node_id : String
  pub reachable : Bool
  pub in_recovery : Bool
  pub flush_lsn : ℕ
  pub replay_lsn : ℕ
  pub timeline : ℕ
  pub pg_running : Bool
  pub replication_conninfo : String
  pub streaming_standbys : List String
  pub parameters : Dict String
  pub lost_slots : List String
  pub has_data : Bool
  pub backup_config_version : String
  pub proxy_auth_version : String

-- How the calls of one check end.
pub data Probe : Type 0 where
  timed_out not_connected status_failed : Probe
  answered : AgentStatus → Probe

unfoldable pub unreachable_result : String → HealthCheckResult
unreachable_result id = record {
  node_id = id;
  reachable = false;
  in_recovery = false;
  flush_lsn = 0;
  replay_lsn = 0;
  timeline = 0;
  pg_running = false;
  replication_conninfo = "";
  streaming_standbys = [];
  parameters = [];
  lost_slots = [];
  has_data = true;
  backup_config_version = "";
  proxy_auth_version = "";
}

abbrev pub streaming_names : List (String × String) → List String
streaming_names replicas = map (λ r. r.0) (filter (λ r. str_eq r.1 "streaming") replicas)

unfoldable pub reached_result : String → AgentStatus → HealthCheckResult
reached_result id status = record {
  node_id = id;
  reachable = true;
  in_recovery = status.is_in_recovery;
  flush_lsn = if status.is_in_recovery then status.received_lsn else status.sent_lsn;
  replay_lsn = status.replayed_lsn;
  timeline = status.timeline;
  pg_running = status.postgres_running;
  replication_conninfo = status.replication_conninfo;
  streaming_standbys = streaming_names status.replicas;
  parameters = status.parameters;
  lost_slots = status.lost_slots;
  has_data = status.has_data;
  backup_config_version = status.backup_config_version;
  proxy_auth_version = status.proxy_auth_version;
}

-- The result, and whether the cached channel is evicted.
unfoldable pub check_node : String → Probe → HealthCheckResult × Bool
unfolding unreachable_result reached_result
check_node id timed_out = (unreachable_result id, true)
check_node id not_connected = (unreachable_result id, true)
check_node id status_failed = (unreachable_result id, true)
check_node id (answered status) = (reached_result id status, false)
