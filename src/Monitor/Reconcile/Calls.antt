-- ===== src/Monitor/Reconcile/Calls.antt =====
-- Which calls a tick of pgcluster/src/node_monitor makes outside its failover: what each of these
-- calls keeps, they keep.
use pgcluster.Prelude.{
  String, ◌≡◌, refl, Bool, true, false, Option, none, some, List, [], ◌∷◌, str_eq, if◌then◌else◌,
  unwrap_or, if-case,
}
use pgcluster.Dict.{Dict, get}
use pgcluster.Raft.Topology.{ClusterTopology, NodeConfig}
use pgcluster.Raft.Command.{mark_offline, set_sync_degraded, set_needs_reseed}
use pgcluster.Raft.Topology.Standbys.{standby_names, synchronous_standby_names}
use pgcluster.Agents.{
  Call, connected, promoted, proposed, parameters_set, proxy_auth_set, op_acquired, op_released,
  Log, World, get_or_connect, client_write,
}
use pgcluster.Monitor.Fallback.{DegradeTimer, Fallback, stay, degrade, restore}
use pgcluster.Monitor.Check.{HealthCheckResult}
use pgcluster.Monitor.Setup.{NodeMonitor}
use pgcluster.Monitor.Reconcile.{
  ensure_proxy_auth, apply_parameters, desired_parameters, has_any, write_needs_reseed, flag_lost,
  clear_streaming, track_reseeds, apply_replication, reconcile_replication, is_restore, lost_nodes,
  set_proxy_auth, act_on,
}

abbrev pub is_plain_call : Call → Bool
is_plain_call (promoted id resp) = false
is_plain_call (op_acquired ok) = false
is_plain_call op_released = false
is_plain_call (proposed (mark_offline id) ok) = false
is_plain_call c = true

module _ (P : Log → Type 0)
    (plain : (c : Call) (log : Log) → is_plain_call c ≡ true → P log → P (c ∷ log)) where
  module _ (m : NodeMonitor) (t : ClusterTopology) where
    abbrev world : World
    world = m.setting.world

    connect-keeps : (log : Log) (id addr : String) → P log → P (get_or_connect world log id addr).0
    connect-keeps log id addr h = plain (connected id (world.connects log id addr)) log refl h

    ensure_proxy_auth-keeps :
        (log : Log) (p : HealthCheckResult) → P log → P (ensure_proxy_auth m t log p)
    unfolding ensure_proxy_auth
    ensure_proxy_auth-keeps log p h =
        if-case P (str_eq p.proxy_auth_version m.auth_version) log _ h
          (go (get t.node_configs t.primary_node_id))
      where
        go :
            (o : Option NodeConfig)
            → P (elim o [
              | none ↦ log
              | some cfg ↦
                  let (log1, ok) = get_or_connect world log t.primary_node_id cfg.agent_addr in
                  if ok then set_proxy_auth m t log1 t.primary_node_id else log1
            ])
        go none = h
        go (some cfg) =
            let (log1, ok) = get_or_connect world log t.primary_node_id cfg.agent_addr in
            let one = connect-keeps log t.primary_node_id cfg.agent_addr h in
            if-case P ok _ log1
              (plain
                (proxy_auth_set t.primary_node_id (m.around.sets_proxy_auth log1 t.primary_node_id))
                log1 refl one)
              one

    apply_parameters-keeps :
        (log : Log) (params : Dict String) → P log → P (apply_parameters m t log params).0
    unfolding apply_parameters
    apply_parameters-keeps log params h = go (get t.node_configs t.primary_node_id)
      where
        go :
            (o : Option NodeConfig)
            → P
                (elim o as (λ x. Log × Bool) [
                  | none ↦ (log, false)
                  | some cfg ↦
                      let (log1, ok) = get_or_connect world log t.primary_node_id cfg.agent_addr in
                      let resp = m.around.sets_parameters log1 t.primary_node_id params in
                      if ok
                      then (
                        parameters_set t.primary_node_id params resp ∷ log1,
                        unwrap_or resp false,
                      )
                      else (log1, false)
                ]).0
        go none = h
        go (some cfg) =
            let (log1, ok) = get_or_connect world log t.primary_node_id cfg.agent_addr in
            let resp = m.around.sets_parameters log1 t.primary_node_id params in
            let one = connect-keeps log t.primary_node_id cfg.agent_addr h in
            if-case {A = Log × Bool} (λ x. P x.0) ok _ (log1, false)
              (plain (parameters_set t.primary_node_id params resp) log1 refl one) one

    write_needs_reseed-keeps :
        (log : Log) (id : String) (needed : Bool) → P log → P (write_needs_reseed m t log id needed)
    unfolding write_needs_reseed
    write_needs_reseed-keeps log id needed h =
        plain
          (proposed (set_needs_reseed id needed) (world.commits log (set_needs_reseed id needed)))
          log refl h

    flag_lost-keeps : (ids : List String) (log : Log) → P log → P (flag_lost m t log ids)
    unfolding flag_lost
    flag_lost-keeps [] log h = h
    flag_lost-keeps (id ∷ ids) log h =
        flag_lost-keeps ids _ (if-case P _ _ log (write_needs_reseed-keeps log id true h) h)

    clear_streaming-keeps :
        (lost streaming ids : List String) (log : Log)
        → P log
        → P (clear_streaming m t log lost streaming ids)
    unfolding clear_streaming
    clear_streaming-keeps lost streaming [] log h = h
    clear_streaming-keeps lost streaming (id ∷ ids) log h =
        clear_streaming-keeps lost streaming ids _
          (if-case P _ _ log (write_needs_reseed-keeps log id false h) h)

    track_reseeds-keeps : (log : Log) (p : HealthCheckResult) → P log → P (track_reseeds m t log p)
    unfolding track_reseeds
    track_reseeds-keeps log p h =
        clear_streaming-keeps _ _ _ _ (flag_lost-keeps (lost_nodes m t p.lost_slots) log h)

    apply_replication-keeps :
        (log : Log) (p : HealthCheckResult) (f : Fallback) (names : String)
        → P log
        → P (apply_replication m t log p f names)
    unfolding apply_replication
    apply_replication-keeps log p f names h =
        let desired = desired_parameters m t p names in
        let (log1, applied) = apply_parameters m t log desired in
        let log2 = if has_any desired then log1 else log in
        let two : P log2 =
          if-case P (has_any desired) log1 log (apply_parameters-keeps log desired h) h in
        let (log3, ok) = client_write world log2 (set_sync_degraded false) in
        let three : P log3 = plain (proposed (set_sync_degraded false) ok) log2 refl two in
        let four : P (if is_restore m t f then log3 else log2) =
          if-case P (is_restore m t f) log3 log2 three two in
        if-case P (if has_any desired then applied else true) _ log2
          (track_reseeds-keeps (if is_restore m t f then log3 else log2) p four) two

    act_on-keeps :
        (log : Log) (p : HealthCheckResult) (f : Fallback) → P log → P (act_on m t log p f)
    unfolding act_on
    act_on-keeps log p stay h = apply_replication-keeps log p stay (synchronous_standby_names t) h
    act_on-keeps log p degrade h =
        let (log1, ok) = client_write world log (set_sync_degraded true) in
        let one : P log1 = plain (proposed (set_sync_degraded true) ok) log refl h in
        if-case P ok _ log1 (apply_replication-keeps log1 p degrade "" one) one
    act_on-keeps log p restore h = apply_replication-keeps log p restore (standby_names t) h

    pub reconcile_replication-keeps :
        (log : Log) (timer : DegradeTimer) (p : HealthCheckResult)
        → P log
        → P (reconcile_replication m t log timer p).0
    unfolding reconcile_replication
    reconcile_replication-keeps log timer p h =
        act_on-keeps (ensure_proxy_auth m t log p) p _ (ensure_proxy_auth-keeps log p h)
