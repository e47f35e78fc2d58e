-- ===== src/Tests/Config.antt =====
-- The theorems about the configuration, on one with three peers and the default times.
use pgcluster.Prelude.{
  ◌+◌, ◌*◌, ◌≤◌, ◌<◌, ◌≡◌, refl, true, false, none, some, [], ◌∷◌, map, arith, ◌==◌, In, Distinct,
}
use pgcluster.Raft.Topology.{async}
use pgcluster.Config.{
  PgClusterConfig, RaftPeer, NodeEntry, cluster, default_heartbeat, default_election_timeout,
  default_failover, default_proxy,
}
use pgcluster.Config.Validate.{
  Parsers, validate, validate_cluster, validate_raft, validate_nodes, check_nodes,
  validate_addresses, validate_replication, validate_timing, validate_tls, validate_api,
  validate_backup, parse_host_port,
}
use pgcluster.Config.Validate.Accepted.{validate-Distinct}
use pgcluster.Config.Validate.Timing.{FitsU64, validate_orders_times}

abbrev parsers : Parsers
parsers = record { is_socket_addr = λ s. true; is_net = λ s. true; is_whitespace = λ c. c == 32 }

abbrev three_peers : PgClusterConfig
three_peers = record {
  cluster = record { name = "test"; data_dir = "/tmp"; mode = cluster; secrets_file = none };
  raft = record {
    node_id = 1;
    peers =
        record { id = 1; addr = "127.0.0.1:7000" }
        ∷ record { id = 2; addr = "127.0.0.1:7001" }
        ∷ record { id = 3; addr = "127.0.0.1:7002" }
        ∷ [];
    heartbeat_interval_ms = default_heartbeat;
    election_timeout_ms = default_election_timeout;
    bootstrap = true;
  };
  nodes =
      record {
        id = "pg1";
        agent_addr = "127.0.0.1:7010";
        postgres_addr = "127.0.0.1:5432";
        priority = 100;
        tags = [];
      }
      ∷ [];
  replication = record {
    replication_user = "replicator";
    replication_password_env = "PG_REPLICATION_PASSWORD";
    slot_prefix = "pgcluster_";
    replication_mode = async;
    sync_degrade_timeout_seconds = 30;
    max_slot_wal_keep_size_mb = 1024;
  };
  proxy = default_proxy;
  failover = default_failover;
  tls = record {
    ca_cert = some "/certs/ca.crt";
    cert = some "/certs/node.crt";
    key = some "/certs/node.key";
    insecure_plaintext = false;
    proxy_cert = none;
    proxy_key = none;
  };
  metrics_addr = "0.0.0.0:9190";
  api = record {
    listen_addr = "0.0.0.0:8009";
    api_keys = "k" ∷ [];
    public_read_endpoints = false;
    insecure_no_auth = false;
  };
  backup = none;
}

three_peers_accepted : validate parsers three_peers ≡ none
unfolding validate validate_cluster validate_raft validate_nodes check_nodes validate_addresses
    validate_replication validate_timing validate_tls validate_api validate_backup parse_host_port
three_peers_accepted = refl

three_peers-FitsU64 : FitsU64 three_peers
three_peers-FitsU64 = record {
  heartbeat = omega arith;
  detection = omega arith;
  needed = omega arith;
  timeout = omega arith;
}

validate-Distinct_example :
    In 1 (map (λ (p : RaftPeer). p.id) three_peers.raft.peers)
    × Distinct (map (λ (p : RaftPeer). p.id) three_peers.raft.peers)
    × Distinct (map (λ (n : NodeEntry). n.id) three_peers.nodes)
validate-Distinct_example = validate-Distinct parsers three_peers three_peers_accepted

validate_orders_times_example :
    (150 * 2 ≤ 500) × (200 ≤ 1000) × (1000 < 500 * 3) × (500 * 2 + 500 < 10 * 1000)
validate_orders_times_example =
    validate_orders_times parsers three_peers three_peers_accepted three_peers-FitsU64
