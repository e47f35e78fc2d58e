-- ===== src/Monitor/Setup.antt =====
-- What `NodeMonitor` of pgcluster/src/node_monitor is built from, and what it remembers between ticks.
use pgcluster.Prelude.{ℕ, ◌*◌, String, Bool, Option, List}
use pgcluster.Dict.{Dict}
use pgcluster.Raft.Topology.{ClusterTopology}
use pgcluster.Failover.Candidate.{Arrival, Replies}
use pgcluster.Failover.Trigger.{Setting}
use pgcluster.Agents.{Log}
use pgcluster.Monitor.Failures.{FailureTracker}
use pgcluster.Monitor.Fallback.{DegradeTimer}
use pgcluster.Monitor.Stale.{StalePrimaries}

-- What answers the monitor beside the `World` of the failover, each in terms of the log before.
pub record Surroundings : Type 0 where
  pub sets_parameters : Log → String → Dict String → Option Bool
  pub sets_proxy_auth : Log → String → Option Bool
  pub configures : Log → String → Option Bool
  -- The topology that this instance has applied last.
  pub current : Log → ClusterTopology
  -- Nanoseconds
  pub now : Log → ℕ
  -- An API handler holds `op_in_progress`.
  pub busy : Log → Bool
  pub arrivals : Log → Arrival
  pub replies : Log → Replies

-- `words` is `str::split_whitespace` and `show` the decimal `u64::to_string`.
pub record NodeMonitor : Type 0 where
  pub setting : Setting
  pub around : Surroundings
  pub words : String → List String
  pub show : ℕ → String
  -- `health_check_failures_before_failover`
  pub threshold : ℕ
  pub sync_degrade_timeout_seconds : ℕ
  pub max_slot_wal_keep_size_mb : ℕ
  -- The versions of what the agents are to have.
  pub auth_version : String
  pub backup_version : Option String

pub record Memory : Type 0 where
  pub tracker : FailureTracker
  pub degrade_timer : DegradeTimer
  pub stale_primaries : StalePrimaries
  pub unseeded : StalePrimaries

abbrev pub second : ℕ
second = 1000000000

-- `REJOIN_COOLDOWN`
abbrev pub rejoin_cooldown : ℕ
rejoin_cooldown = 60 * second
