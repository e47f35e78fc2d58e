-- ===== src/Monitor/Poll/Calls.antt =====
-- Which calls a tick of pgcluster/src/node_monitor makes outside its failover: what each of these
-- calls keeps, they keep.
use pgcluster.Prelude.{
  ℕ, String, ◌≡◌, refl, sym, subst, Bool, true, not, ◌&&◌, Option, none, some, List, [], ◌∷◌, map,
  arith, str_eq, eq_iff, ◌==◌, if◌then◌else◌, if-case, if-case_when,
}
use pgcluster.Dict.{get}
use pgcluster.Raft.Topology.{ClusterTopology, NodeConfig}
use pgcluster.Raft.Command.{set_primary, mark_replica, update_flush_lsn}
use pgcluster.Failover.Trigger.{primary_url}
use pgcluster.Raft.Topology.Standbys.{is_target_of}
use pgcluster.Agents.{
  Call, connected, evicted, demoted, proposed, backups_configured, seed_spawned, rejoin_spawned,
  slots_audited, Log, World, get_or_connect, client_write,
}
use pgcluster.Monitor.Failures.{record_failure, is_failed}
use pgcluster.Monitor.Check.{HealthCheckResult, Probe, check_node}
use pgcluster.Monitor.Setup.{NodeMonitor}
use pgcluster.Monitor.Poll.{
  Tick, spawn_seed, spawn_rejoin, push_backup_settings, restore_primary, readmit, repoint,
  poll_unseeded, poll_healthy, fail_over, poll_failing, poll_result, poll_results, reconcile,
  find_primary, evict_failed, poll_all_nodes, audit_slots, on_tick, is_stale_primary,
  is_maintenance,
}
use pgcluster.Monitor.Reconcile.Calls.{is_plain_call, reconcile_replication-keeps}

module _ (P : Log → Type 0)
    (plain : (c : Call) (log : Log) → is_plain_call c ≡ true → P log → P (c ∷ log)) where
  module _ (m : NodeMonitor) (t : ClusterTopology) where
    abbrev world : World
    world = m.setting.world

    connect-keeps : (log : Log) (id addr : String) → P log → P (get_or_connect world log id addr).0
    connect-keeps log id addr h = plain (connected id (world.connects log id addr)) log refl h

    spawn-keeps :
        (b : Bool) (c : Call) (log : Log)
        → is_plain_call c ≡ true
        → P log
        → P (if b then c ∷ log else log)
    spawn-keeps b c log e h = if-case P b (c ∷ log) log (plain c log e h) h

    pub poll_unseeded-keeps : (s : Tick) (id : String) → P s.log → P ((poll_unseeded m t s id).log)
    unfolding poll_unseeded spawn_seed
    poll_unseeded-keeps s id h =
        if-case P _ _ s.log (spawn-keeps _ (seed_spawned id) s.log refl h) h

    push_backup_settings-keeps :
        (log : Log) (id addr : String) (r : HealthCheckResult)
        → P log
        → P (push_backup_settings m t log id addr r)
    unfolding push_backup_settings
    push_backup_settings-keeps log id addr r h =
        let (log1, ok) = get_or_connect world log id addr in
        let one = connect-keeps log id addr h in
        if-case P _ _ log
          (if-case P ok _ log1
            (plain (backups_configured id (m.around.configures log1 id)) log1 refl one) one)
          h

    restore_primary-keeps :
        (log : Log) (id : String) (r : HealthCheckResult) → P log → P (restore_primary m t log id r)
    unfolding restore_primary
    restore_primary-keeps log id r h =
        if-case P _ _ log (plain (proposed (set_primary id r.flush_lsn r.timeline) _) log refl h) h

    repoint-keeps :
        (log : Log) (id : String) (cfg target : NodeConfig)
        → P log
        → P (repoint m t log id cfg target)
    repoint-keeps log id cfg target h =
        let (log1, ok) = get_or_connect world log id cfg.agent_addr in
        let one = connect-keeps log id cfg.agent_addr h in
        if-case P ok _ log1 (plain (demoted id _ _ _) log1 refl one) one

    readmit-keeps :
        (log : Log) (id : String) (cfg : NodeConfig) (r : HealthCheckResult)
        → P log
        → P (readmit m t log id cfg r)
    unfolding readmit
    readmit-keeps log id cfg r h =
        let (log1, ok) = client_write world log (mark_replica id r.flush_lsn) in
        let one = plain (proposed (mark_replica id r.flush_lsn) ok) log refl h in
        if-case P _ _ log
          (if-case P _ _ log1 (go log1 one (get t.node_configs t.primary_node_id)) one) h
      where
        go :
            (log1 : Log)
            → P log1
            → (o : Option NodeConfig)
            → P (elim o [
              | none ↦ log1
              | some target ↦
                  if is_target_of m.words target r.replication_conninfo
                  then log1
                  else repoint m t log1 id cfg target
            ])
        go log1 one none = one
        go log1 one (some target) =
            if-case P (is_target_of m.words target r.replication_conninfo) log1 _ one
              (repoint-keeps log1 id cfg target one)

    pub poll_healthy-keeps :
        (s : Tick) (id : String) (cfg : NodeConfig) (r : HealthCheckResult)
        → P s.log
        → P ((poll_healthy m t s id cfg r).log)
    unfolding poll_healthy spawn_rejoin
    poll_healthy-keeps s id cfg r h =
        let log1 = push_backup_settings m t s.log id cfg.agent_addr r in
        let one = push_backup_settings-keeps s.log id cfg.agent_addr r h in
        let log2 = restore_primary m t log1 id r in
        let two = restore_primary-keeps log1 id r one in
        let log3 = readmit m t log2 id cfg r in
        let three = readmit-keeps log2 id cfg r two in
        if-case {A = Tick} (λ x. P x.log) (is_stale_primary m t s.log id r) _ _
          (if-case P _ _ s.log (spawn-keeps _ (rejoin_spawned id) s.log refl h) h)
          (plain (proposed (update_flush_lsn id r.flush_lsn r.replay_lsn) _) log3 refl three)

    reconcile-keeps :
        (s : Tick) (p : Option HealthCheckResult) → P s.log → P (reconcile m t s p).log
    unfolding reconcile
    reconcile-keeps s none h = h
    reconcile-keeps s (some p) h =
        reconcile_replication-keeps P plain m t s.log s.memory.degrade_timer p h

    audit_slots-keeps : (log : Log) → P log → P (audit_slots m t log)
    unfolding audit_slots
    audit_slots-keeps log h = go (get t.node_configs t.primary_node_id)
      where
        go :
            (o : Option NodeConfig)
            → P (elim o [
              | none ↦ log
              | some cfg ↦
                  slots_audited (primary_url cfg m.setting.repl_user m.setting.repl_password) ∷ log
            ])
        go none = h
        go (some cfg) = plain (slots_audited _) log refl h

    evict_failed-keeps :
        (probes : List (String × Probe)) (log : Log) → P log → P (evict_failed m t log probes)
    unfolding evict_failed
    evict_failed-keeps [] log h = h
    evict_failed-keeps ((id, probe) ∷ probes) log h =
        evict_failed-keeps probes _ (
          if-case P (check_node id probe).1 (evicted id ∷ log) log (plain (evicted id) log refl h)
            h)

    -- What a failover keeps too, all of a tick keeps.
    module _ (over : (log : Log) → P log → P (fail_over m t log t.primary_node_id).0) where
      poll_failing-keeps : (s : Tick) (id : String) → P s.log → P ((poll_failing m t s id).log)
      unfolding poll_failing
      poll_failing-keeps s id h =
          let attempt : is_failed (record_failure s.memory.tracker id (m.around.now s.log)) id
                    m.threshold
                  && str_eq id t.primary_node_id
                ≡ true
              → P (fail_over m t s.log id).0 =
            λ e.
              subst (λ x. P (fail_over m t s.log x).0)
                (sym (ground (arith, eq_iff id t.primary_node_id))) (over s.log h) in
          if-case {A = Tick} (λ x. P x.log) (is_maintenance (get t.node_roles id)) s _ h
            (if-case_when {A = Tick} (λ x. P x.log) _ _ _ attempt h)

      poll_result-keeps :
          (s : Tick) (r : HealthCheckResult) → P s.log → P ((poll_result m t s r).log)
      unfolding poll_result
      poll_result-keeps s r h = go (get t.node_configs r.node_id)
        where
          go :
              (o : Option NodeConfig)
              → P (
                  (elim o as (λ x. Tick) [
                    | none ↦ s
                    | some cfg ↦
                        if r.reachable && not r.has_data && not (str_eq r.node_id t.primary_node_id)
                        then poll_unseeded m t s r.node_id
                        else if r.reachable && r.pg_running
                        then poll_healthy m t s r.node_id cfg r
                        else poll_failing m t s r.node_id
                  ]).log)
          go none = h
          go (some cfg) =
              if-case {A = Tick} (λ x. P x.log) _ _ _ (poll_unseeded-keeps s r.node_id h)
                (if-case {A = Tick} (λ x. P x.log) (r.reachable && r.pg_running) _ _
                  (poll_healthy-keeps s r.node_id cfg r h) (poll_failing-keeps s r.node_id h))

      poll_results-keeps :
          (rs : List HealthCheckResult) (s : Tick) → P s.log → P ((poll_results m t s rs).log)
      unfolding poll_results
      poll_results-keeps [] s h = h
      poll_results-keeps (r ∷ rs) s h =
          poll_results-keeps rs (poll_result m t s r) (poll_result-keeps s r h)

      poll_all_nodes-keeps :
          (s : Tick) (probes : List (String × Probe))
          → P s.log
          → P ((poll_all_nodes m t s probes).log)
      unfolding poll_all_nodes
      poll_all_nodes-keeps s probes h =
          let results = map (λ p. (check_node p.0 p.1).0) probes in
          let s1 = record s { log = evict_failed m t s.log probes } in
          let one : P s1.log = evict_failed-keeps probes s.log h in
          poll_results-keeps results (reconcile m t s1 (find_primary m t results))
            (reconcile-keeps s1 (find_primary m t results) one)

      pub on_tick-keeps :
          (s : Tick) (count : ℕ) (leader : Option ℕ) (me : ℕ) (held : Bool)
          (probes : List (String × Probe))
          → P s.log
          → P ((on_tick m t s count leader me held probes).log)
      unfolding on_tick
      on_tick-keeps s count none me held probes h = h
      on_tick-keeps s count (some l) me held probes h =
          let polled = poll_all_nodes m t s probes in
          let one = poll_all_nodes-keeps s probes h in
          if-case {A = Tick} (λ x. P x.log) ((l == me) && held) _ s
            (if-case {A = Tick} (λ x. P x.log) _ _ polled (audit_slots-keeps polled.log one) one) h
