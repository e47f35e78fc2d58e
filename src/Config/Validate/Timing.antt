-- ===== src/Config/Validate/Timing.antt =====
-- The orderings of times that pgcluster/src/config/validate.rs asks for, on which the safety of a
-- partition rests.
use pgcluster.Prelude.{ℕ, ◌+◌, ◌*◌, ◌%◌, ◌≤◌, ◌<◌, ◌≡◌, refl, subst, none, arith}
use pgcluster.Config.{PgClusterConfig}
use pgcluster.Config.Validate.{
  Parsers, validate_raft, validate_timing, validate, min_quorum_lease_ms, u64_mod,
}
use pgcluster.Config.Validate.Accepted.{validate-parts}

-- The products of the configured times fit in 64 bits.
pub record FitsU64 (cfg : PgClusterConfig) : Type 0 where
  pub heartbeat : cfg.raft.heartbeat_interval_ms * 2 < u64_mod
  pub detection :
      cfg.failover.health_check_interval_ms * cfg.failover.health_check_failures_before_failover
      < u64_mod
  pub needed : cfg.raft.election_timeout_ms * 2 + cfg.failover.health_check_interval_ms < u64_mod
  pub timeout : cfg.failover.agent_heartbeat_timeout_seconds * 1000 < u64_mod

mod_small : (a n : ℕ) → a < u64_mod → a ≡ n → a % u64_mod ≡ n
mod_small a n h e = omega arith

validate_raft-times :
    (cfg : PgClusterConfig)
    → validate_raft cfg ≡ none
    → cfg.raft.heartbeat_interval_ms * 2 % u64_mod ≤ cfg.raft.election_timeout_ms
unfolding validate_raft
validate_raft-times cfg h = ground arith

validate_timing-times :
    (ps : Parsers) (cfg : PgClusterConfig)
    → validate_timing ps cfg ≡ none
    → (min_quorum_lease_ms ≤ cfg.proxy.quorum_lease_ms)
      × (cfg.proxy.quorum_lease_ms
          < cfg.failover.health_check_interval_ms
            * cfg.failover.health_check_failures_before_failover % u64_mod)
      × ((cfg.raft.election_timeout_ms * 2 % u64_mod + cfg.failover.health_check_interval_ms)
            % u64_mod
          < cfg.failover.agent_heartbeat_timeout_seconds * 1000 % u64_mod)
unfolding validate_timing
validate_timing-times ps cfg h = (ground arith, ground arith, ground arith)

-- If a configuration is accepted and the products of its times fit in 64 bits, then the election
-- timeout is at least two heartbeat intervals, the quorum lease is at least 200 ms and shorter than
-- the detection of a failed primary, and the heartbeat timeout of the agents is longer than two
-- election timeouts and a health check interval.
pub validate_orders_times :
    (ps : Parsers) (cfg : PgClusterConfig)
    → validate ps cfg ≡ none
    → FitsU64 cfg
    → (cfg.raft.heartbeat_interval_ms * 2 ≤ cfg.raft.election_timeout_ms)
      × (200 ≤ cfg.proxy.quorum_lease_ms)
      × (cfg.proxy.quorum_lease_ms
          < cfg.failover.health_check_interval_ms
            * cfg.failover.health_check_failures_before_failover)
      × (cfg.raft.election_timeout_ms * 2 + cfg.failover.health_check_interval_ms
          < cfg.failover.agent_heartbeat_timeout_seconds * 1000)
validate_orders_times ps cfg h fits =
    let (raft, nodes, timing) = validate-parts ps cfg h in
    let beat = validate_raft-times cfg raft in
    let (short, long, timeout) = validate_timing-times ps cfg timing in
    let detection = mod_small _ _ fits.detection refl in
    (
      omega (arith, fits.heartbeat),
      short,
      subst (λ n. cfg.proxy.quorum_lease_ms < n) detection long,
      omega (arith, fits.needed, fits.timeout),
    )
