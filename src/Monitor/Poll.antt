-- ===== src/Monitor/Poll.antt =====
-- One tick of the leader's monitor: `poll_all_nodes` of pgcluster/src/node_monitor/mod.rs.
pub mod Calls
pub mod Guarded
pub mod Attempts
use pgcluster.Prelude.{
  ℕ, zero, suc, ◌+◌, ◌-◌, ◌*◌, ◌/◌, ◌%◌, ◌^◌, ◌≤◌, ◌<◌, min, max, String, ◌≡◌, refl, sym, ap, subst,
  ◌∙◌, ◌≢◌, ◌↔◌, ◌⊎◌, inl, inr, Bool, true, false, not, ◌&&◌, ◌||◌, Option, none, some, List, [],
  ◌∷◌, ◌++◌, map, arith, str_eq, eq_iff, ltb, leb, ◌==◌, if◌then◌else◌, ltb→lt, lt→ltb, leb→le,
  le→leb, Bool-cases, Option-cases, is_some, unwrap_or, length, take, drop, filter, any,
  length-append, length-drop, length-filter-le, All, In, All-In, All-of-In, In-filter, In-filter-of,
  is_empty, sort_by, sort_by-IsSorted, In-sort_by, sort_by-In, IsSorted, length-sort_by, max_by,
  min_by, max_by-IsMax, max_by-In, min_by-IsMin, min_by-In, max_by-none, min_by-none, In-append,
  append-In, In-take, In-drop, In-split, take-append-drop, length-take, take-IsSorted,
  filter-IsSorted, take-le-drop, length-filter-and, length-filter_mono, Distinct, pigeonhole,
  In-map, map-In, length-map, filter_map, In-filter_map, filter_map-In,
}
use pgcluster.Dict.{get, contains_key}
use pgcluster.Text.{rsplit_colon, parse_uint}
use pgcluster.Raft.Topology.{
  ClusterTopology, NodeConfig, NodeRole, primary, replica, offline, maintenance, unknown,
  primary_postgres_addr,
}
use pgcluster.Raft.Topology.Standbys.{is_target_of}
use pgcluster.Raft.Command.{set_primary, mark_replica, update_flush_lsn, mark_offline}
use pgcluster.Failover.Promote.{slot_name}
use pgcluster.Failover.Trigger.{primary_url, conninfo, trigger_failover}
use pgcluster.Agents.{
  backups_configured, seed_spawned, rejoin_spawned, op_acquired, op_released, slots_audited,
  evicted, Log, World, Run, get_or_connect, client_write, demote,
}
use pgcluster.Monitor.Failures.{record_failure, record_success, is_failed}
use pgcluster.Monitor.Stale.{sighted, cleared}
use pgcluster.Monitor.Check.{HealthCheckResult, Probe, check_node}
use pgcluster.Monitor.Setup.{NodeMonitor, Memory, rejoin_cooldown}
use pgcluster.Monitor.Reconcile.{reconcile_replication}

-- Whether `SeedPlan::new` makes a plan for the node.
unfoldable pub has_plan : ClusterTopology → String → Bool
has_plan t id =
    if str_eq id t.primary_node_id || not (contains_key t.node_configs id)
    then false
    else elim (primary_postgres_addr t) [
      | none ↦ false
      | some addr ↦ elim (rsplit_colon addr) [
        | none ↦ false
        | some (host, port) ↦ is_some (parse_uint (2 ^ 32) port)
      ]
    ]

abbrev pub is_offline : Option NodeRole → Bool
is_offline (some offline) = true
is_offline _ = false

abbrev pub is_maintenance : Option NodeRole → Bool
is_maintenance (some maintenance) = true
is_maintenance _ = false

-- `matches!(role, Offline | Unknown | Maintenance)`
abbrev pub is_idle : Option NodeRole → Bool
is_idle none = false
is_idle (some primary) = false
is_idle (some replica) = false
is_idle (some offline) = true
is_idle (some maintenance) = true
is_idle (some unknown) = true

-- A tick's state: the calls so far, and what the monitor remembers.
pub record Tick : Type 0 where
  pub log : Log
  pub memory : Memory

module _ (m : NodeMonitor) (t : ClusterTopology) where
  abbrev pub world : World
  world = m.setting.world

  unfoldable pub spawn_seed : Log → String → Log
  spawn_seed log id = if has_plan (m.around.current log) id then seed_spawned id ∷ log else log

  unfoldable pub spawn_rejoin : Log → String → Log
  spawn_rejoin log id = if has_plan (m.around.current log) id then rejoin_spawned id ∷ log else log

  unfoldable pub is_stale_primary : Log → String → HealthCheckResult → Bool
  is_stale_primary log id r =
      let now_primary = (m.around.current log).primary_node_id in
      not r.in_recovery
      && not (str_eq now_primary "")
      && not (str_eq now_primary id)
      && not (m.around.busy log)

  -- The settings differ from the version that the node applied.
  abbrev pub is_behind : Option String → String → Bool
  is_behind none applied = false
  is_behind (some version) applied = not (str_eq applied version)

  unfoldable pub push_backup_settings : Log → String → String → HealthCheckResult → Log
  push_backup_settings log id addr r =
      let (log1, ok) = get_or_connect world log id addr in
      if is_behind m.backup_version r.backup_config_version
      then (if ok then backups_configured id (m.around.configures log1 id) ∷ log1 else log1)
      else log

  -- The primary came back before a failover could complete.
  unfoldable pub restore_primary : Log → String → HealthCheckResult → Log
  restore_primary log id r =
      let (log1, ok) = client_write world log (set_primary id r.flush_lsn r.timeline) in
      if str_eq id t.primary_node_id && is_offline (get t.node_roles id) && not r.in_recovery
      then log1
      else log

  abbrev pub repoint : Log → String → NodeConfig → NodeConfig → Log
  repoint log id cfg target =
      let (log1, ok) = get_or_connect world log id cfg.agent_addr in
      let s = m.setting in
      let (log2, resp) =
        demote world log1 id (conninfo s.host_port target s.repl_user s.repl_password)
          (slot_name s.slot_prefix id) in
      if ok then log2 else log1

  -- A node that is healthy without a part in the cluster becomes a replica, and follows the primary
  -- if it follows another.
  unfoldable pub readmit : Log → String → NodeConfig → HealthCheckResult → Log
  readmit log id cfg r =
      let (log1, ok) = client_write world log (mark_replica id r.flush_lsn) in
      if is_idle (get t.node_roles id) && not (str_eq id t.primary_node_id)
      then (if r.in_recovery && not (str_eq t.primary_node_id "")
          then elim (get t.node_configs t.primary_node_id) [
            | none ↦ log1
            | some target ↦
                if is_target_of m.words target r.replication_conninfo
                then log1
                else repoint log1 id cfg target
          ]
          else log1)
      else log

  unfoldable pub poll_unseeded : Tick → String → Tick
  poll_unseeded s id =
      let (unseeded, ready) =
        sighted s.memory.unseeded id m.threshold rejoin_cooldown (m.around.now s.log) in
      record {
        log = if ready then spawn_seed s.log id else s.log;
        memory = record s.memory { unseeded = unseeded };
      }

  unfoldable pub poll_healthy : Tick → String → NodeConfig → HealthCheckResult → Tick
  poll_healthy s id cfg r =
      let tracker = record_success s.memory.tracker id in
      let (seen, ready) =
        sighted s.memory.stale_primaries id m.threshold rejoin_cooldown (m.around.now s.log) in
      let log1 = push_backup_settings s.log id cfg.agent_addr r in
      let log2 = restore_primary log1 id r in
      let log3 = readmit log2 id cfg r in
      let (log4, ok) = client_write world log3 (update_flush_lsn id r.flush_lsn r.replay_lsn) in
      if is_stale_primary s.log id r
      then record {
        log = if ready then spawn_rejoin s.log id else s.log;
        memory = record s.memory { tracker = tracker; stale_primaries = seen };
      }
      else record {
        log = log4;
        memory = record s.memory {
          tracker = tracker;
          stale_primaries = cleared s.memory.stale_primaries id;
        };
      }

  -- The log of the failover's turn, and whether it came to call the failover.
  unfoldable pub fail_over : Log → String → Run Bool
  fail_over log id =
      let held = op_acquired true ∷ log in
      let (marked, ok) = client_write world held (mark_offline id) in
      let done =
        trigger_failover m.setting (m.around.arrivals marked) (m.around.replies marked) t id
          marked in
      if m.around.busy log
      then (op_acquired false ∷ log, false)
      else if ok
      then (op_released ∷ done, true)
      else (op_released ∷ marked, false)

  unfoldable pub poll_failing : Tick → String → Tick
  poll_failing s id =
      let tracker = record_failure s.memory.tracker id (m.around.now s.log) in
      let (log1, called) = fail_over s.log id in
      if is_maintenance (get t.node_roles id)
      then s
      else if is_failed tracker id m.threshold && str_eq id t.primary_node_id
      then record {
        log = log1;
        memory = record s.memory {
          tracker = if called then record_success tracker id else tracker;
        };
      }
      else record s { memory = record s.memory { tracker = tracker } }

  unfoldable pub poll_result : Tick → HealthCheckResult → Tick
  poll_result s r = elim (get t.node_configs r.node_id) [
    | none ↦ s
    | some cfg ↦
        if r.reachable && not r.has_data && not (str_eq r.node_id t.primary_node_id)
        then poll_unseeded s r.node_id
        else if r.reachable && r.pg_running
        then poll_healthy s r.node_id cfg r
        else poll_failing s r.node_id
  ]

  -- The loop over the results.
  unfoldable pub poll_results : Tick → List HealthCheckResult → Tick
  poll_results s [] = s
  poll_results s (r ∷ rs) = poll_results (poll_result s r) rs

  abbrev pub is_running_primary : HealthCheckResult → Bool
  is_running_primary r =
      str_eq r.node_id t.primary_node_id && r.reachable && r.pg_running && not r.in_recovery

  -- `check_results.iter().find(…)`
  abbrev pub find_primary : List HealthCheckResult → Option HealthCheckResult
  find_primary [] = none
  find_primary (r ∷ rs) = if is_running_primary r then some r else find_primary rs

  unfoldable pub reconcile : Tick → Option HealthCheckResult → Tick
  reconcile s none = s
  reconcile s (some p) =
      let (log1, timer) = reconcile_replication m t s.log s.memory.degrade_timer p in
      record { log = log1; memory = record s.memory { degrade_timer = timer } }

  -- The channels that the checks evict.
  unfoldable pub evict_failed : Log → List (String × Probe) → Log
  evict_failed log [] = log
  evict_failed log ((id, probe) ∷ probes) =
      evict_failed (if (check_node id probe).1 then evicted id ∷ log else log) probes

  -- The probes in the order in which they end; a check that panics gives none.
  unfoldable pub poll_all_nodes : Tick → List (String × Probe) → Tick
  poll_all_nodes s probes =
      let results = map (λ p. (check_node p.0 p.1).0) probes in
      let s1 = record s { log = evict_failed s.log probes } in
      poll_results (reconcile s1 (find_primary results)) results

  unfoldable pub audit_slots : Log → Log
  audit_slots log = elim (get t.node_configs t.primary_node_id) [
    | none ↦ log
    | some cfg ↦ slots_audited (primary_url cfg m.setting.repl_user m.setting.repl_password) ∷ log
  ]

  -- `slot_audit_ticks`
  abbrev pub slot_audit_ticks : ℕ
  slot_audit_ticks = 120

  -- One round of the loop of `run`: the number of the tick, the leader if one is elected, this
  -- instance, and whether it holds the lease.
  unfoldable pub on_tick : Tick → ℕ → Option ℕ → ℕ → Bool → List (String × Probe) → Tick
  on_tick s count leader me held probes =
      let polled = poll_all_nodes s probes in
      let due = (count % slot_audit_ticks == 0) && not (str_eq t.primary_node_id "") in
      elim leader [
        | none ↦ s
        | some l ↦
            if (l == me) && held
            then (if due then record polled { log = audit_slots polled.log } else polled)
            else s
      ]
