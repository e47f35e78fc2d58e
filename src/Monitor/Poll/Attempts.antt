-- ===== src/Monitor/Poll/Attempts.antt =====
-- When a health check of pgcluster/src/node_monitor/mod.rs leads to a failover, and what else a failed
-- check does.
use pgcluster.Prelude.{
  ℕ, suc, ◌+◌, ◌%◌, String, ◌≡◌, refl, ◌≢◌, inl, inr, Bool, true, false, not, ◌&&◌, [], ◌∷◌, arith,
  str_eq, eq_iff, leb, if◌then◌else◌, Option-cases,
}
use pgcluster.Dict.{get, contains_key, get-insert}
use pgcluster.Raft.Topology.{ClusterTopology}
use pgcluster.Raft.Command.{mark_offline}
use pgcluster.Failover.Trigger.Calls.{is_failover_call, trigger_failover-keeps}
use pgcluster.Agents.{
  Call, connected, evicted, promoted, status_read, demoted, stopped, proposed, slots_ensured,
  draining, parameters_set, proxy_auth_set, backups_configured, seed_spawned, rejoin_spawned,
  op_acquired, op_released, checked, slots_audited, Log, client_write,
}
use pgcluster.Monitor.Failures.{u32_mod, record_failure, is_failed, failure_count}
use pgcluster.Monitor.Check.{HealthCheckResult}
use pgcluster.Monitor.Setup.{NodeMonitor}
use pgcluster.Monitor.Reconcile.Calls.{is_plain_call}
use pgcluster.Monitor.Poll.Calls.{poll_unseeded-keeps, poll_healthy-keeps}
use pgcluster.Monitor.Poll.{Tick, poll_result, poll_failing, fail_over, is_maintenance}

-- How often a failover asked for the flag.
abbrev pub attempts : Log → ℕ
attempts [] = 0
attempts (op_acquired ok ∷ log) = suc (attempts log)
attempts (c ∷ log) = attempts log

module _ (n : ℕ) where
  abbrev Made : Log → Type 0
  Made log = attempts log ≡ n

  plain-Made : (c : Call) (log : Log) → is_plain_call c ≡ true → Made log → Made (c ∷ log)
  plain-Made (op_acquired ok) log e h = absurd (ground arith)
  plain-Made (connected node ok) log e h = h
  plain-Made (evicted node) log e h = h
  plain-Made (promoted node resp) log e h = h
  plain-Made (status_read node status) log e h = h
  plain-Made (demoted node info slot resp) log e h = h
  plain-Made (proposed command ok) log e h = h
  plain-Made (slots_ensured url ids) log e h = h
  plain-Made (stopped node resp) log e h = h
  plain-Made (draining on) log e h = h
  plain-Made (parameters_set node params resp) log e h = h
  plain-Made (proxy_auth_set node resp) log e h = h
  plain-Made (backups_configured node resp) log e h = h
  plain-Made (seed_spawned node) log e h = h
  plain-Made (rejoin_spawned node) log e h = h
  plain-Made op_released log e h = h
  plain-Made (checked node ids) log e h = h
  plain-Made (slots_audited url) log e h = h

  failover-Made : (c : Call) (log : Log) → is_failover_call c ≡ true → Made log → Made (c ∷ log)
  failover-Made (op_acquired ok) log e h = absurd (ground arith)
  failover-Made (connected node ok) log e h = h
  failover-Made (evicted node) log e h = h
  failover-Made (promoted node resp) log e h = h
  failover-Made (status_read node status) log e h = h
  failover-Made (demoted node info slot resp) log e h = h
  failover-Made (proposed command ok) log e h = h
  failover-Made (slots_ensured url ids) log e h = h
  failover-Made (stopped node resp) log e h = h
  failover-Made (draining on) log e h = h
  failover-Made (parameters_set node params resp) log e h = h
  failover-Made (proxy_auth_set node resp) log e h = h
  failover-Made (backups_configured node resp) log e h = h
  failover-Made (seed_spawned node) log e h = h
  failover-Made (rejoin_spawned node) log e h = h
  failover-Made op_released log e h = h
  failover-Made (checked node ids) log e h = h
  failover-Made (slots_audited url) log e h = h

module _ (m : NodeMonitor) (t : ClusterTopology) where
  fail_over-attempts :
      (log : Log) (id : String) → attempts (fail_over m t log id).0 ≡ suc (attempts log)
  unfolding fail_over
  fail_over-attempts log id =
      let held = op_acquired true ∷ log in
      let (marked, ok) = client_write m.setting.world held (mark_offline id) in
      let run =
        trigger_failover-keeps (Made (suc (attempts log))) (failover-Made (suc (attempts log)))
          m.setting (m.around.arrivals marked) (m.around.replies marked) t id marked refl in
      ground arith

  count-record_failure :
      (s : Tick) (id : String) (now : ℕ)
      → failure_count (record_failure s.memory.tracker id now) id
        ≡ (failure_count s.memory.tracker id + 1) % u32_mod
  unfolding failure_count record_failure
  count-record_failure s id now =
      let found = get-insert s.memory.tracker id id in
      let itself = eq_iff id id in
      elim (Option-cases (get s.memory.tracker id)) [
        | inl e ↦ ground (arith, found (record { count = 1; first_seen = now; last_seen = now }))
        | inr (rec, e) ↦
            ground
              (arith, found (record rec { count = (rec.count + 1) % u32_mod; last_seen = now }))
      ]

  count_of_others :
      (s : Tick) (id j : String) (now : ℕ)
      → j ≢ id
      → failure_count (record_failure s.memory.tracker id now) j ≡ failure_count s.memory.tracker j
  unfolding failure_count record_failure
  count_of_others s id j now apart =
      let found = get-insert s.memory.tracker id j in
      let differ = eq_iff id j in
      elim (Option-cases (get s.memory.tracker id)) [
        | inl e ↦ ground (arith, found (record { count = 1; first_seen = now; last_seen = now }))
        | inr (rec, e) ↦
            ground
              (arith, found (record rec { count = (rec.count + 1) % u32_mod; last_seen = now }))
      ]

  -- The check is of the primary, which the topology knows and which is not in maintenance; its
  -- Postgres does not run, or its agent does not answer; and with it, the checks that failed in a
  -- row reach the threshold.
  abbrev pub calls_for_failover : Tick → HealthCheckResult → Bool
  calls_for_failover s r =
      str_eq r.node_id t.primary_node_id
      && contains_key t.node_configs r.node_id
      && not (is_maintenance (get t.node_roles r.node_id))
      && not (r.reachable && r.pg_running)
      && leb m.threshold ((failure_count s.memory.tracker r.node_id + 1) % u32_mod)

  -- One result of a check leads to one attempt at a failover, or to none. It leads to one exactly
  -- if it is of the primary, which is configured and not in maintenance, its agent did not answer
  -- or its Postgres does not run, and the failures in a row that are recorded, this one included,
  -- reach the threshold.
  pub poll_result-attempts :
      (s : Tick) (r : HealthCheckResult)
      → attempts (poll_result m t s r).log
        ≡ (if calls_for_failover s r then suc (attempts s.log) else attempts s.log)
  unfolding poll_result poll_failing is_failed
  poll_result-attempts s r = elim (Option-cases (get t.node_configs r.node_id)) [
    | inl e ↦ ground arith
    | inr (cfg, e) ↦
        let unseeded =
          poll_unseeded-keeps (Made (attempts s.log)) (plain-Made (attempts s.log)) m t s r.node_id
            refl in
        let healthy =
          poll_healthy-keeps (Made (attempts s.log)) (plain-Made (attempts s.log)) m t s r.node_id
            cfg r refl in
        let counts = count-record_failure s r.node_id (m.around.now s.log) in
        let over = fail_over-attempts s.log r.node_id in ground arith
  ]

  -- The result of a check that did not reach a node other than the primary makes no call and
  -- changes no memory of the monitor but the failures of that node: nothing is proposed to the Raft
  -- log, however many checks failed.
  pub failing_replica_is_ignored :
      (s : Tick) (r : HealthCheckResult)
      → r.reachable ≡ false
      → r.node_id ≢ t.primary_node_id
      → ((poll_result m t s r).log ≡ s.log)
        × ((poll_result m t s r).memory.degrade_timer ≡ s.memory.degrade_timer)
        × ((poll_result m t s r).memory.stale_primaries ≡ s.memory.stale_primaries)
        × ((poll_result m t s r).memory.unseeded ≡ s.memory.unseeded)
        × ((j : String)
            → j ≢ r.node_id
            → failure_count (poll_result m t s r).memory.tracker j
              ≡ failure_count s.memory.tracker j)
  unfolding poll_result poll_failing
  failing_replica_is_ignored s r gone other = elim (Option-cases (get t.node_configs r.node_id)) [
    | inl e ↦ (ground arith, ground arith, ground arith, ground arith, λ j h. ground arith)
    | inr (cfg, e) ↦
        let apart = eq_iff r.node_id t.primary_node_id in
        (
          ground arith,
          ground arith,
          ground arith,
          ground arith,
          λ j h. ground (arith, count_of_others s r.node_id j (m.around.now s.log) h),
        )
  ]
