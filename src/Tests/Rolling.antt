-- ===== src/Tests/Rolling.antt =====
-- A rolling restart of the three nodes, whose primary sees both standbys stream.
use pgcluster.Prelude.{◌*◌, ◌≡◌, refl, true, false, [], ◌∷◌, str_eq, if◌then◌else◌}
use pgcluster.Agents.{Log, IsOrdered}
use pgcluster.Monitor.Check.{AgentStatus, answered, check_node, reached_result}
use pgcluster.Switchover.Rolling.Restart.{
  Restart, look_interval, restart_standbys, restart_standby, restart_node, wait_until_streaming,
  look_rounds, look_once, look_at, check_primary,
}
use pgcluster.Switchover.Rolling.OneDown.{Phases, down, rolling_restart-Phases}
use pgcluster.Tests.Data.{cluster, willing, setting, in_order, reply}

abbrev primary_status : AgentStatus
primary_status = record {
  is_in_recovery = false;
  received_lsn = 0;
  sent_lsn = 20;
  replayed_lsn = 0;
  timeline = 1;
  postgres_running = true;
  replication_conninfo = "";
  replicas = ("b", "streaming") ∷ ("c", "streaming") ∷ [];
  parameters = [];
  lost_slots = [];
  has_data = true;
  backup_config_version = "";
  proxy_auth_version = "";
}

abbrev restart : Restart
restart = record {
  world = willing;
  le = λ a b. if str_eq a "b" then true else str_eq b "c";
  current = λ log. cluster;
  start = λ log. 0;
  look = λ log n. record {
    now = n * look_interval;
    topology = cluster;
    probe = answered primary_status;
  };
  arrivals = λ log. in_order;
  replies = λ log. reply;
  switchover = λ log. record {
    setting = setting;
    seen = λ n. record { now = n; topology = cluster };
    start = 0;
    current = cluster;
    new_primary_id = "";
    max_lag_bytes = 5;
    timeout = 1000000000;
    proxied = true;
  };
}

-- Both standbys are restarted, and none is down at the end.
all_back :
    (down (restart_standbys restart cluster ("b" ∷ "c" ∷ []) []).0 ≡ [])
    × ((restart_standbys restart cluster ("b" ∷ "c" ∷ []) []).1 ≡ true)
unfolding restart_standbys restart_standby restart_node wait_until_streaming look_rounds look_once
    look_at check_primary check_node reached_result
all_back = (refl, refl)

rolling_restart-Phases_example : (log1 : Log) × Phases restart [] log1
unfolding IsOrdered
rolling_restart-Phases_example = rolling_restart-Phases restart [] refl tt
