-- ===== src/Tests/Data.antt =====
-- A cluster of three nodes, `a` its primary, in which the agent of `b` does its part.
use pgcluster.Prelude.{ℕ, String, refl, true, false, some, [], ◌∷◌, str_eq, if◌then◌else◌}
use pgcluster.Raft.Topology.{
  ClusterTopology, NodeConfig, primary, replica, empty_topology, sync_strict,
}
use pgcluster.Failover.Candidate.{NodeStatus, Replies, Arrival}
use pgcluster.Failover.Trigger.{Setting}
use pgcluster.Agents.{World}

abbrev pub node : String → NodeConfig
node id = record { node_id = id; agent_addr = id; postgres_addr = id; priority = 1; tags = [] }

abbrev pub cluster : ClusterTopology
cluster = record empty_topology {
  primary_node_id = "a";
  node_roles = ("a", primary) ∷ ("b", replica) ∷ ("c", replica) ∷ [];
  node_configs = ("a", node "a") ∷ ("b", node "b") ∷ ("c", node "c") ∷ [];
}

abbrev pub strict_cluster : ClusterTopology
strict_cluster = record cluster { replication_mode = sync_strict }

abbrev pub standby_at : ℕ → NodeStatus
standby_at lsn = record {
  postgres_running = true;
  is_in_recovery = true;
  received_lsn = lsn;
  replayed_lsn = lsn;
}

abbrev pub primary_at : ℕ → NodeStatus
primary_at lsn = record (standby_at lsn) { is_in_recovery = false }

-- `b` is ahead of `c`.
abbrev pub reply : Replies
reply id addr = if str_eq id "b" then some (standby_at 20) else some (standby_at 10)

abbrev pub in_order : Arrival
in_order = record {
  arrange = λ ps. ps;
  arranged = λ p ps i. i;
  arrives = λ p ps i. i;
  same_length = λ ps. refl;
}

abbrev pub willing : World
willing = record {
  connects = λ log id addr. true;
  promotes = λ log id. some true;
  statuses = λ log id. some (primary_at 20);
  demotes = λ log id conninfo slot. some true;
  stops = λ log id. some true;
  commits = λ log command. true;
}

abbrev pub setting : Setting
setting = record {
  world = willing;
  host_port = λ cfg. (cfg.postgres_addr, "5432");
  clock = record { now_unix = 0; elapsed_ms = 0 };
  repl_user = "u";
  repl_password = "p";
  slot_prefix = "s_";
}
