-- ===== src/Tests/Poll.antt =====
-- The theorems about the monitor's ticks, on a cluster whose primary does not answer.
use pgcluster.Prelude.{
  String, ◌≡◌, refl, ◌≢◌, true, false, none, some, List, [], ◌∷◌, arith, eq_iff, if◌then◌else◌,
}
use pgcluster.Raft.Topology.{ClusterTopology, sync}
use pgcluster.Agents.{IsOrdered}
use pgcluster.Monitor.Failures.{failure_count}
use pgcluster.Monitor.Stale.{none_stale}
use pgcluster.Monitor.Check.{
  AgentStatus, HealthCheckResult, Probe, timed_out, not_connected, answered, unreachable_result,
  reached_result,
}
use pgcluster.Monitor.Setup.{Surroundings, NodeMonitor}
use pgcluster.Monitor.Reconcile.{reconcile_replication}
use pgcluster.Monitor.Reconcile.Order.{sync_needs, reconcile_replication-IsOrdered}
use pgcluster.Monitor.Poll.{Tick, poll_result, on_tick}
use pgcluster.Monitor.Poll.Guarded.{guard_needs, is_held, on_tick-IsGuarded}
use pgcluster.Monitor.Poll.Attempts.{
  attempts, calls_for_failover, poll_result-attempts, failing_replica_is_ignored,
}
use pgcluster.Tests.Data.{cluster, in_order, reply, setting}

abbrev around : Surroundings
around = record {
  sets_parameters = λ log id params. some true;
  sets_proxy_auth = λ log id. some true;
  configures = λ log id. some true;
  current = λ log. cluster;
  now = λ log. 0;
  busy = λ log. false;
  arrivals = λ log. in_order;
  replies = λ log. reply;
}

abbrev monitor : NodeMonitor
monitor = record {
  setting = setting;
  around = around;
  words = λ s. s ∷ [];
  show = λ n. "1024";
  threshold = 1;
  sync_degrade_timeout_seconds = 30;
  max_slot_wal_keep_size_mb = 1024;
  auth_version = "v1";
  backup_version = none;
}

abbrev first_tick : Tick
first_tick = record {
  log = [];
  memory = record {
    tracker = [];
    degrade_timer = none;
    stale_primaries = none_stale;
    unseeded = none_stale;
  };
}

abbrev standby_status : AgentStatus
standby_status = record {
  is_in_recovery = true;
  received_lsn = 20;
  sent_lsn = 0;
  replayed_lsn = 20;
  timeline = 1;
  postgres_running = true;
  replication_conninfo = "host=a";
  replicas = [];
  parameters = [];
  lost_slots = [];
  has_data = true;
  backup_config_version = "";
  proxy_auth_version = "";
}

abbrev probes : List (String × Probe)
probes = ("a", timed_out) ∷ ("b", answered standby_status) ∷ ("c", not_connected) ∷ []

on_tick-IsGuarded_example :
    IsOrdered (guard_needs "a") (on_tick monitor cluster first_tick 1 (some 1) 1 true probes).log
    × (is_held (on_tick monitor cluster first_tick 1 (some 1) 1 true probes).log ≡ false)
unfolding IsOrdered
on_tick-IsGuarded_example =
    on_tick-IsGuarded monitor cluster first_tick 1 (some 1) 1 true probes tt refl

poll_result-attempts_example :
    attempts (poll_result monitor cluster first_tick (unreachable_result "a")).log
    ≡ (if calls_for_failover monitor cluster first_tick (unreachable_result "a") then 1 else 0)
poll_result-attempts_example =
    poll_result-attempts monitor cluster first_tick (unreachable_result "a")

c_gone : (unreachable_result "c").reachable ≡ false
unfolding unreachable_result
c_gone = refl

c_not_a : (unreachable_result "c").node_id ≢ cluster.primary_node_id
unfolding unreachable_result
c_not_a e = ground (arith, eq_iff "c" "a", e)

failing_replica_is_ignored_example :
    ((poll_result monitor cluster first_tick (unreachable_result "c")).log ≡ [])
    × ((poll_result monitor cluster first_tick (unreachable_result "c")).memory.degrade_timer
        ≡ none)
    × ((poll_result monitor cluster first_tick (unreachable_result "c")).memory.stale_primaries
        ≡ none_stale)
    × ((poll_result monitor cluster first_tick (unreachable_result "c")).memory.unseeded
        ≡ none_stale)
    × ((j : String)
        → j ≢ (unreachable_result "c").node_id
        → failure_count
            (poll_result monitor cluster first_tick (unreachable_result "c")).memory.tracker
            j
          ≡ failure_count [] j)
failing_replica_is_ignored_example =
    failing_replica_is_ignored monitor cluster first_tick (unreachable_result "c") c_gone c_not_a

-- Sync had fallen back, and a standby streams again.
abbrev degraded_cluster : ClusterTopology
degraded_cluster = record cluster { replication_mode = sync; sync_degraded = true }

abbrev primary_result : HealthCheckResult
primary_result =
    reached_result "a"
      (record standby_status { is_in_recovery = false; replicas = ("b", "streaming") ∷ [] })

reconcile_replication-IsOrdered_example :
    IsOrdered
      (sync_needs degraded_cluster primary_result)
      (reconcile_replication monitor degraded_cluster [] none primary_result).0
unfolding IsOrdered
reconcile_replication-IsOrdered_example =
    reconcile_replication-IsOrdered monitor degraded_cluster primary_result [] none tt
