-- ===== src/Monitor/Reconcile.antt =====
-- Keeping the primary in line with the replication mode: `reconcile_replication` of
-- pgcluster/src/node_monitor/replication.rs.
pub mod Calls
pub mod Order
use pgcluster.Prelude.{
  ◌*◌, String, Bool, true, false, not, ◌&&◌, none, some, List, [], ◌∷◌, map, str_eq, if◌then◌else◌,
  unwrap_or, filter, any, filter_map,
}
use pgcluster.Dict.{Dict, get, contains_key}
use pgcluster.Text.{strip_prefix}
use pgcluster.Raft.Topology.{ClusterTopology}
use pgcluster.Raft.Topology.Standbys.{standby_names, synchronous_standby_names}
use pgcluster.Raft.Command.{set_sync_degraded, set_needs_reseed}
use pgcluster.Agents.{parameters_set, proxy_auth_set, Log, World, Run, get_or_connect, client_write}
use pgcluster.Monitor.Fallback.{DegradeTimer, Fallback, stay, degrade, restore, step}
use pgcluster.Monitor.Check.{HealthCheckResult}
use pgcluster.Monitor.Setup.{NodeMonitor, second}

abbrev pub has_any : Dict String → Bool
has_any [] = false
has_any (e ∷ es) = true

abbrev pub is_reported : Dict String → String × String → Bool
is_reported reported (name, value) = elim (get reported name) [
  | none ↦ false
  | some v ↦ str_eq v value
]

module _ (m : NodeMonitor) (t : ClusterTopology) where
  abbrev pub world : World
  world = m.setting.world

  abbrev pub set_proxy_auth : Log → String → Log
  set_proxy_auth log id = proxy_auth_set id (m.around.sets_proxy_auth log id) ∷ log

  unfoldable pub ensure_proxy_auth : Log → HealthCheckResult → Log
  ensure_proxy_auth log p =
      if str_eq p.proxy_auth_version m.auth_version
      then log
      else elim (get t.node_configs t.primary_node_id) [
        | none ↦ log
        | some cfg ↦
            let (log1, ok) = get_or_connect world log t.primary_node_id cfg.agent_addr in
            if ok then set_proxy_auth log1 t.primary_node_id else log1
      ]

  -- Whether the primary took the settings.
  unfoldable pub apply_parameters : Log → Dict String → Run Bool
  apply_parameters log parameters = elim (get t.node_configs t.primary_node_id) [
    | none ↦ (log, false)
    | some cfg ↦
        let (log1, ok) = get_or_connect world log t.primary_node_id cfg.agent_addr in
        let resp = m.around.sets_parameters log1 t.primary_node_id parameters in
        if ok
        then (parameters_set t.primary_node_id parameters resp ∷ log1, unwrap_or resp false)
        else (log1, false)
  ]

  -- The settings that the primary does not have yet.
  unfoldable pub desired_parameters : HealthCheckResult → String → Dict String
  desired_parameters p names =
      filter (λ e. not (is_reported p.parameters e))
        (("synchronous_standby_names", names)
          ∷ ("max_slot_wal_keep_size", m.show m.max_slot_wal_keep_size_mb)
          ∷ [])

  unfoldable pub write_needs_reseed : Log → String → Bool → Log
  write_needs_reseed log id needed = (client_write world log (set_needs_reseed id needed)).0

  unfoldable pub lost_nodes : List String → List String
  lost_nodes slots = filter_map (λ slot. strip_prefix slot m.setting.slot_prefix) slots

  -- The two loops of `track_reseeds`.
  unfoldable pub flag_lost : Log → List String → Log
  flag_lost log [] = log
  flag_lost log (id ∷ ids) =
      let flagged = contains_key t.node_configs id && not (contains_key t.needs_reseed id) in
      let log1 = write_needs_reseed log id true in flag_lost (if flagged then log1 else log) ids

  unfoldable pub clear_streaming : Log → List String → List String → List String → Log
  clear_streaming log lost streaming [] = log
  clear_streaming log lost streaming (id ∷ ids) =
      let back = not (any (str_eq id) lost) && any (str_eq id) streaming in
      let log1 = write_needs_reseed log id false in
      clear_streaming (if back then log1 else log) lost streaming ids

  unfoldable pub track_reseeds : Log → HealthCheckResult → Log
  track_reseeds log p =
      let lost = lost_nodes p.lost_slots in
      clear_streaming (flag_lost log lost) lost p.streaming_standbys (map (λ e. e.0) t.needs_reseed)

  abbrev pub is_restore : Fallback → Bool
  is_restore stay = false
  is_restore degrade = false
  is_restore restore = true

  -- From the settings on.
  unfoldable pub apply_replication : Log → HealthCheckResult → Fallback → String → Log
  apply_replication log p fallback names =
      let desired = desired_parameters p names in
      let (log1, applied) = apply_parameters log desired in
      let log2 = if has_any desired then log1 else log in
      let go_on = if has_any desired then applied else true in
      let (log3, ok) = client_write world log2 (set_sync_degraded false) in
      if go_on then track_reseeds (if is_restore fallback then log3 else log2) p else log2

  abbrev pub is_streaming : HealthCheckResult → Bool
  is_streaming p = any (contains_key t.node_configs) p.streaming_standbys

  -- The `match` on the fallback, and what follows it.
  unfoldable pub act_on : Log → HealthCheckResult → Fallback → Log
  act_on log p stay = apply_replication log p stay (synchronous_standby_names t)
  act_on log p degrade =
      let (log1, ok) = client_write world log (set_sync_degraded true) in
      if ok then apply_replication log1 p degrade "" else log1
  act_on log p restore = apply_replication log p restore (standby_names t)

  unfoldable pub reconcile_replication : Log → DegradeTimer → HealthCheckResult → Log × DegradeTimer
  reconcile_replication log timer p =
      let log1 = ensure_proxy_auth log p in
      let (timer1, fallback) =
        step timer t.replication_mode t.sync_degraded (is_streaming p)
          (m.sync_degrade_timeout_seconds * second) (m.around.now log1) in
      (act_on log1 p fallback, timer1)
